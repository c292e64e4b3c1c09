-- ===== src/Preload/Life.antt =====
-- The constructor and the destructor of client/src/preload.c, one behind the other.
use lau_sim.Base.{
  ◌≡◌, refl, ◌⊎◌, inl, inr, Bool, true, false, none, some, Bytes, pos, ◌==ℤ◌, Bool-cases,
}
use lau_sim.FaultManager.{ok, undefined}
use lau_sim.Backend.Start
use lau_sim.Backend.Start.{Files, Fifo, get_fifo, wait_start}
use lau_sim.Preload.Start.{
  System, Process, Result, returned, exited, crashed, unset, backend_init, hook_cleanup,
}

module _ {W H : Type 0} (sys : System W H) where
  abbrev pub IsDefined : Process W H → Type 0
  IsDefined p = (q : Process W H) × (hook_cleanup sys p ≡ ok q)

  -- All hooks are set, and the destructor is defined where the thread was created, and only there.
  abbrev pub IsReady : Process W H → Type 0
  IsReady p =
      (p.is_init ≡ true)
      × ((socket : H) × (close : H) × (accept : H) × (p.hooks
            ≡ record { socket = some socket; close = some close; accept = some accept }))
      × (((p.thread ≡ true) × IsDefined p)
          ⊎ ((p.thread ≡ false) × (hook_cleanup sys p ≡ undefined)))

  -- The constructor has failed, and the destructor calls through NULL.
  abbrev pub IsUnset : Process W H → Type 0
  IsUnset p = (p.is_init ≡ false) × (p.hooks ≡ unset) × (hook_cleanup sys p ≡ undefined)

  -- The fifo is made and cannot be opened.
  abbrev pub IsStuck : Type 0
  IsStuck =
      (w : W) × (((sys.files.mkfifo w).0 ==ℤ pos 0) ≡ true)
      × ((sys.files.fopen (sys.files.mkfifo w).1).0 ≡ false)

  -- A function is not found.
  abbrev pub IsUnresolved : Type 0
  IsUnresolved = (name : Bytes) × (w : W) × ((sys.dlsym name w).0 ≡ none)

  abbrev pub Outcome : Result (Process W H) → Type 0
  Outcome (returned code p) = ((code ≡ pos 0) × IsReady p) ⊎ ((code ≡ pos 1) × IsUnset p)
  Outcome (exited code p) = true ≡ false
  Outcome crashed = IsStuck ⊎ IsUnresolved

  -- The state in which `init_hooks` has not come to its end.
  abbrev IsStarting : Process W H → Type 0
  IsStarting p =
      (p.is_init ≡ false)
      × (p.fifo.is_open ≡ false)
      × (p.fifo.fifo_created ≡ true)
      × (p.thread ≡ false)

  -- `lauSim_init` for a fifo that is not open yet.
  started :
      (f : Fifo W)
      → f.is_open ≡ false
      → f.fifo_created ≡ true
      → ((made : Bool) × (g : Fifo W) × (Start.init sys.files (backend_init sys) f
            ≡ ok (pos 0, g, made)))
        ⊎ ((Start.init sys.files (backend_init sys) f ≡ undefined) × IsStuck)
  unfolding Start.init get_fifo wait_start backend_init
  started f shut new =
      let (ret, w₁) = sys.files.mkfifo f.world in
      let (opened, w₂) = sys.files.fopen w₁ in
      elim (Bool-cases (ret ==ℤ pos 0)) [
        | inr there ↦ rw (shut, there) (inl (_, _, refl))
        | inl made ↦ elim (Bool-cases opened) [
          | inl fine ↦ rw (shut, made, fine, new) (inl (_, _, refl))
          | inr stuck ↦ rw (shut, made, stuck, new) (inr (refl, (f.world, made, stuck)))
        ]
      ]
