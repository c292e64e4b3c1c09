-- ===== src/Backend/Start.antt =====
-- client/src/backend.c: the fifo of a backend, from `lauSim_init` to the end of `lauSim_main`. The
-- functions of the C library are arguments; the mask of the file's mode, the buffer of the stream and
-- the log are not modelled.
use lau_sim.Base.{Bool, true, false, ◌&&◌, List, if◌then◌else◌, ℤ, pos, ◌==ℤ◌}
use lau_sim.FaultManager.{Run, ok, undefined, ◌>>=◌}
use lau_sim.Backend.{Actor, Event, Status, finished, killed, main}

-- What is called for the fifo FIFO_FILE, over the state `W` of the system; `fopen` says whether there
-- is a stream. The result of `unlink` is not read.
pub record Files (W : Type 0) : Type 0 where
  pub mkfifo : W → ℤ × W
  pub fopen : W → Bool × W
  pub fgetc : W → W
  pub fclose : W → W
  pub unlink : W → ℤ × W

-- `fifo != NULL`, and `fifo_created`.
pub record Fifo (W : Type 0) : Type 0 where
  pub is_open : Bool
  pub fifo_created : Bool
  pub world : W

abbrev pub unopened : {W : Type 0} → W → Fifo W
unopened w = record { is_open = false; fifo_created = true; world = w }

module _ {W : Type 0} (files : Files W) where
  unfoldable pub get_fifo : Fifo W → Bool × Fifo W
  get_fifo f =
      if f.is_open
      then (true, f)
      else (let (ret, w₁) = files.mkfifo f.world in
          let (opened, w₂) = files.fopen w₁ in
          (
            opened,
            record {
              is_open = opened;
              fifo_created = if ret ==ℤ pos 0 then f.fifo_created else false;
              world = if opened then w₂ else (files.unlink w₂).1;
            },
          ))

  unfoldable pub fifo_cleanup : Fifo W → Fifo W
  fifo_cleanup f =
      if f.fifo_created && f.is_open
      then record f { world = (files.unlink (files.fclose f.world)).1 }
      else f

  -- `fgetc` in `lauSim_init` reads through NULL where the fifo was made and cannot be opened.
  unfoldable pub wait_start : Fifo W → Run (Fifo W)
  wait_start f =
      if f.fifo_created
      then (if f.is_open then ok (record f { world = files.fgetc f.world }) else undefined)
      else ok f

  module _ {B : Type 0} (backend_init : Fifo W → Run (ℤ × Fifo W × B)) where
    -- `lauSim_init`; a backend's function works on variables `B` of its own.
    unfoldable pub init : Fifo W → Run (ℤ × Fifo W × B)
    unfolding get_fifo wait_start
    init f = do
      f₁ ← wait_start (get_fifo f).1
      (ret, f₂, b) ← backend_init f₁
      ok (if ret ==ℤ pos 0 then pos 0 else pos 1, f₂, b)

  module _ {S : Type 0} (a : Actor S) (killed_cleanup : Fifo W → Fifo W) where
    -- The fifo behind the loop.
    abbrev pub left_by : Status S → Fifo W → Fifo W
    left_by (finished s) f = fifo_cleanup f
    left_by (killed s) f = killed_cleanup f
    left_by _ f = f

    -- `lauSim_main` calls `fileno` on the stream. `killed_cleanup` is what a backend does with the fifo
    -- before the process exits.
    unfoldable pub main_fifo : List Event → Fifo W → S → Run (Status S × Fifo W)
    unfolding main fifo_cleanup
    main_fifo es f s = if f.is_open then ok (main a es s, left_by (main a es s) f) else undefined
