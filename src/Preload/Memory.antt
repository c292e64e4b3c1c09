-- ===== src/Preload/Memory.antt =====
-- The requests of client/src/preload.c to the allocator.
use lau_sim.Base.{
  ℕ, ◌*◌, ◌≤◌, ◌≡◌, false, [], ◌∷◌, length, length-append, ℤ, is_negative, pos, negsuc, arith,
}
use lau_sim.Preload.Defs.{Preload, add_sock_to_list}

-- The vector has room for all its entries of four bytes.
abbrev pub HasRoom : Preload → Type 0
HasRoom s = 4 * length s.fds ≤ s.fds_size

-- Behind every call that stores a socket the vector is too small for what it holds.
pub add_sock_to_list-not-HasRoom :
    (room : ℕ → ℕ) (sock : ℤ) (s : Preload)
    → is_negative sock ≡ false
    → ¬ HasRoom (add_sock_to_list room sock s).1
unfolding add_sock_to_list
add_sock_to_list-not-HasRoom room (pos n) s h fits =
    omega (arith, fits, length-append s.fds (pos n ∷ []))
add_sock_to_list-not-HasRoom room (negsuc n) s h fits = cc
