-- ===== src/Preload/Defs.antt =====
-- client/src/preload.c and preload.h: the state and the functions. The functions of the C library that
-- the hooks resolve to are parameters; the mutex is held over each access to the vector, so an access
-- is one step. `fds_size` and `fds_freed` record what the code requests of the allocator: the number
-- of bytes of the last `realloc`, and whether the pointer is one that was freed. `is_defined` says whether
-- the behaviour has been defined up to here: the other fields mean nothing where it is not.
use lau_sim.Base.{
  ℕ, ◌+◌, ◌*◌, leb, Bool, true, false, ◌&&◌, ◌||◌, not, List, [], ◌∷◌, ◌++◌, length, ◌==◌,
  if◌then◌else◌, ℤ, pos, is_negative, ◌==ℤ◌,
}
use lau_sim.Backend.{Subsys, net, mem, pwr, Effect, returned, exited, Actor}

-- `num_fds` is the length of `fds`. `shut` are the sockets that `shutdown` was called on, in order,
-- and `cleaned` says that the fifo was closed by the backend.
pub record Preload : Type 0 where
  pub net_state : ℕ
  pub fds : List ℤ
  pub fds_size : ℕ
  pub fds_freed : Bool
  pub shut : List ℤ
  pub cleaned : Bool
  pub is_defined : Bool

abbrev pub initial : Preload
initial = record {
  net_state = 0;
  fds = [];
  fds_size = 0;
  fds_freed = false;
  shut = [];
  cleaned = false;
  is_defined = true;
}

-- `lauSim_switch_net`; it always returns 0. `free` keeps the pointer, which is NULL where there was no block
-- yet; where it was freed before, to free it again is undefined.
unfoldable pub switch_net : ℕ → Preload → Preload
switch_net severity s =
    if s.net_state == 0 && not (severity == 0)
    then record s {
      net_state = 1;
      fds = [];
      fds_freed = not (s.fds_size == 0);
      shut = s.shut ++ s.fds;
      is_defined = s.is_defined && not s.fds_freed;
    }
    else if not (s.net_state == 0) && severity == 0
    then record s { net_state = 0 }
    else s

unfoldable pub cleanup : Preload → Preload
unfolding switch_net
cleanup s = switch_net 0 s

-- `lauSim_set_state`
unfoldable pub set_state : Subsys → ℕ → Preload → Effect Preload
unfolding switch_net
set_state net severity s = returned (pos 0) (switch_net severity s)
set_state pwr severity s = exited (record s { cleaned = true })
set_state mem severity s = returned (pos 0) s

abbrev pub actor : Actor Preload
actor = record { set_state = set_state; cleanup = cleanup }

-- `room n` is how many bytes may be written to the block that the allocator returns for a request of `n`.
module _ (room : ℕ → ℕ) where
  -- The vector grows by `realloc (fds, ++num_fds)`, which is undefined where `fds` was freed, and the socket
  -- is written to its end, which is undefined where the block does not hold it.
  unfoldable pub add_sock_to_list : ℤ → Preload → ℤ × Preload
  add_sock_to_list sock s = if is_negative sock then (pos 1, s) else (
    pos 0,
    record s {
      fds = s.fds ++ sock ∷ [];
      fds_size = length s.fds + 1;
      fds_freed = false;
      is_defined =
          s.is_defined && not s.fds_freed && leb (4 * (length s.fds + 1)) (room (length s.fds + 1));
    },
  )

unfoldable pub find_sock : ℤ → List ℤ → Bool
find_sock sock [] = false
find_sock sock (x ∷ xs) = x ==ℤ sock || find_sock sock xs

unfoldable pub is_in_list : ℤ → Preload → Bool
unfolding find_sock
is_in_list sock s = find_sock sock s.fds

-- The first entry is taken out, and those behind it move up.
unfoldable pub remove_sock : ℤ → List ℤ → List ℤ
remove_sock sock [] = []
remove_sock sock (x ∷ xs) = let rest = remove_sock sock xs in if x ==ℤ sock then xs else x ∷ rest

-- 0 if the socket was found.
unfoldable pub remove_sock_from_list : ℤ → Preload → ℤ × Preload
unfolding find_sock remove_sock
remove_sock_from_list sock s =
    if find_sock sock s.fds then (pos 0, record s { fds = remove_sock sock s.fds }) else (pos 1, s)

-- The address families of the sockets that are kept.
abbrev pub af_inet : ℤ
af_inet = pos 2

abbrev pub af_inet6 : ℤ
af_inet6 = pos 10

module _ (room : ℕ → ℕ) where
  -- `accept`: `hook` is the C library's function at its arguments.
  unfoldable pub accept : (ℤ → ℤ) → ℤ → Preload → ℤ × Preload
  unfolding is_in_list add_sock_to_list
  accept hook socket s =
      let ret = hook socket in
      (ret, if is_in_list socket s then (add_sock_to_list room ret s).1 else s)

  unfoldable pub socket : (ℤ → ℤ → ℤ → ℤ) → ℤ → ℤ → ℤ → Preload → ℤ × Preload
  unfolding add_sock_to_list
  socket hook domain kind protocol s =
      let ret = hook domain kind protocol in
      (
        ret,
        if domain ==ℤ af_inet || domain ==ℤ af_inet6 then (add_sock_to_list room ret s).1 else s,
      )

unfoldable pub close : (ℤ → ℤ) → ℤ → Preload → ℤ × Preload
unfolding remove_sock_from_list
close hook fd s = (hook fd, (remove_sock_from_list fd s).1)
