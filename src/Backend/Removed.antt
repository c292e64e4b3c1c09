-- ===== src/Backend/Removed.antt =====
-- What is left of the fifo of client/src/backend.c.
use lau_sim.Base.{ℕ, ◌+◌, ◌≡◌, ◌⊎◌, Bool, true, false, List, if◌then◌else◌, pos, ◌==ℤ◌}
use lau_sim.FaultManager.{Run, ok, undefined, ◌>>=◌}
use lau_sim.Backend.{Actor, Event, Status, finished}
use lau_sim.Backend.Start.{Files, Fifo, unopened, get_fifo, wait_start, main_fifo}

-- The documented behaviour of the calls: `exists` says whether there is a file FIFO_FILE, and `streams`
-- counts those that the process has open.
pub record IsFiles {W : Type 0} (files : Files W) (exists : W → Bool) (streams : W → ℕ)
    : Type 0 where
  pub mkfifo :
      (w : W)
      → (streams (files.mkfifo w).1 ≡ streams w)
        × (exists (files.mkfifo w).1 ≡ (if (files.mkfifo w).0 ==ℤ pos 0 then true else exists w))
  pub fopen :
      (w : W)
      → (streams (files.fopen w).1 ≡ (if (files.fopen w).0 then streams w + 1 else streams w))
        × (exists (files.fopen w).1 ≡ exists w)
  pub fgetc : (w : W) → (streams (files.fgetc w) ≡ streams w) × (exists (files.fgetc w) ≡ exists w)
  pub fclose :
      (w : W) (k : ℕ)
      → streams w ≡ k + 1
      → (streams (files.fclose w) ≡ k) × (exists (files.fclose w) ≡ exists w)
  pub unlink :
      (w : W)
      → (streams (files.unlink w).1 ≡ streams w)
        × (exists (files.unlink w).1 ≡ (if (files.unlink w).0 ==ℤ pos 0 then false else exists w))

module _ {W : Type 0} (files : Files W) (exists : W → Bool) (streams : W → ℕ)
    (law : IsFiles files exists streams) where
  -- What `unlink` leaves: the file is removed, or the call has failed.
  abbrev pub IsUnlinked : W → Type 0
  IsUnlinked v =
      (u : W) × (v ≡ (files.unlink u).1)
      × ((exists v ≡ false) ⊎ (((files.unlink u).0 ==ℤ pos 0) ≡ false))

  abbrev pub fifo_at : Bool → Bool → W → Fifo W
  fifo_at opened made v = record { is_open = opened; fifo_created = made; world = v }

  -- A fifo that was made here, with one more stream than `k`; one that was there before; and one that
  -- cannot be opened.
  abbrev pub IsMade : ℕ → Fifo W → Type 0
  IsMade k f = (v : W) × (f ≡ fifo_at true true v) × (streams v ≡ k + 1)

  abbrev pub IsOther : ℕ → Bool → Fifo W → Type 0
  IsOther k there f =
      (v : W) × (f ≡ fifo_at true false v) × (streams v ≡ k + 1) × (exists v ≡ there)

  abbrev pub IsLost : ℕ → Fifo W → Type 0
  IsLost k f = (v : W) × (made : Bool) × (f ≡ fifo_at false made v) × (streams v ≡ k) × IsUnlinked v

  module _ {S : Type 0} (a : Actor S) (killed_cleanup : Fifo W → Fifo W) where
    -- `lauSim_init` up to the backend's part, and then `lauSim_main`.
    abbrev pub life : List Event → W → S → Run (Status S × Fifo W)
    life es w s = wait_start files (get_fifo files (unopened w)).1 >>= λ f.
        main_fifo files a killed_cleanup es f s

    -- Behind the loop the fifo is unlinked and its stream closed, or it was not made here, and is as before
    -- with one stream more; where the loop is not reached, it is not opened and unlinked.
    abbrev pub IsLeft : W → Run (Status S × Fifo W) → Type 0
    IsLeft w (ok (finished t, f)) =
        (IsUnlinked f.world × (streams f.world ≡ streams w))
        ⊎ ((f.fifo_created ≡ false)
            × (exists f.world ≡ exists w)
            × (streams f.world ≡ streams w + 1))
    IsLeft w (ok (_, f)) = Unit
    IsLeft w undefined = IsLost (streams w) (get_fifo files (unopened w)).1
