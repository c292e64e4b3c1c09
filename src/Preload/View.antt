-- ===== src/Preload/View.antt =====
-- What the vector of sockets of client/src/preload.c stands for: a set of descriptors, over any
-- sequence of the application's calls and of network faults.
use lau_sim.Base.{
  ℕ, ◌≡◌, Bool, true, false, ◌&&◌, ◌||◌, not, List, [], ◌∷◌, ◌==◌, if◌then◌else◌, ℤ, pos,
  is_negative, ◌==ℤ◌,
}
use lau_sim.Preload.Defs.{Preload, switch_net, is_in_list, accept, socket, close, af_inet, af_inet6}

-- A call that the hooks see, with the C library's answer to it, or a command of the backend.
pub data Call : Type 0 where
  opened : (domain answer : ℤ) → Call
  accepted : (listener answer : ℤ) → Call
  closed : ℤ → Call
  network : ℕ → Call

unfoldable pub perform : (ℕ → ℕ) → Call → Preload → Preload
unfolding accept socket close switch_net
perform room (opened domain answer) s = (socket room (λ _ _ _. answer) domain (pos 0) (pos 0) s).1
perform room (accepted listener answer) s = (accept room (λ _. answer) listener s).1
perform room (closed fd) s = (close (λ _. pos 0) fd s).1
perform room (network severity) s = switch_net severity s

-- A new descriptor is none of those that are open.
abbrev pub IsFresh : Call → Preload → Type 0
IsFresh (opened domain answer) s = is_in_list answer s ≡ false
IsFresh (accepted listener answer) s = is_in_list answer s ≡ false
IsFresh (closed fd) s = Unit
IsFresh (network severity) s = Unit

-- A sequence of calls whose behaviour is defined: no socket is stored behind its block, or in one that
-- was freed.
pub data Trace (room : ℕ → ℕ) : Preload → List Call → Preload → Type 0 where
  done : {s : Preload} → Trace room s [] s
  step :
      {s t : Preload} {cs : List Call} (c : Call)
      → IsFresh c s
      → (perform room c s).is_defined ≡ true
      → Trace room (perform room c s) cs t
      → Trace room s (c ∷ cs) t

-- The descriptors that a network fault will shut down, and whether the network is down.
pub record View : Type 0 where
  pub tracks : ℤ → Bool
  pub down : Bool

abbrev pub view : Preload → View
view s = record { tracks = λ z. is_in_list z s; down = not (s.net_state == 0) }

abbrev insert : Bool → ℤ → View → View
insert true fd v = record v { tracks = λ z. v.tracks z || fd ==ℤ z }
insert false fd v = v

-- Sockets of the two internet families are tracked, and what they accept; a closed one is not any
-- more; and none is behind a failure of the network.
pub view_step : Call → View → View
view_step (opened domain answer) v =
    insert ((domain ==ℤ af_inet || domain ==ℤ af_inet6) && not (is_negative answer)) answer v
view_step (accepted listener answer) v =
    insert (v.tracks listener && not (is_negative answer)) answer v
view_step (closed fd) v = record v { tracks = λ z. v.tracks z && not (z ==ℤ fd) }
view_step (network severity) v =
    if severity == 0
    then record v { down = false }
    else record { tracks = λ z. v.tracks z && v.down; down = true }

pub view_steps : List Call → View → View
view_steps [] v = v
view_steps (c ∷ cs) v = view_steps cs (view_step c v)
