-- ===== src/Privileged/Start.antt =====
-- client/src/privileged.c: `main`, and the search for iptables. The functions of the C library are
-- arguments.
use lau_sim.Base.{ℕ, ◌≡◌, refl, Bool, false, List, Option, none, some, if◌then◌else◌, ℤ, pos}
use lau_sim.FaultManager.{Run, ok, undefined, ◌>>=◌}
use lau_sim.Backend.{Event, Status, finished}
use lau_sim.Backend.Start.{Files, unopened, main_fifo}
use lau_sim.Privileged

-- What is called beside the functions for the fifo. `popen` says whether there is a stream.
pub record System (W : Type 0) : Type 0 where
  pub files : Files W
  pub pipe : W → Option (ℤ × ℤ) × W
  pub popen : W → Bool × W
  pub close : ℤ → W → W

module _ {W : Type 0} (sys : System W) where
  -- The stream is closed by `pclose`, and then by `fclose`.
  unfoldable pub is_iptables_pressent : W → Run (Bool × W)
  is_iptables_pressent w =
      let (opened, w₁) = sys.popen w in if opened then undefined else ok (false, w₁)

  -- `lauSim_backend_init`; `then_main` is `lauSim_main`.
  unfoldable pub backend_init : (W → Run (ℤ × W)) → W → Run (ℤ × W)
  unfolding is_iptables_pressent
  backend_init then_main w = do
    (there, w₁) ← is_iptables_pressent w
    if there then then_main w₁ else ok (pos 1, w₁)

  -- The descriptors are closed where the loop comes to its end.
  abbrev pub close_ends : ℤ × ℤ → Status ℕ → W → W
  close_ends (read_end, write_end) (finished s) w = sys.close write_end (sys.close read_end w)
  close_ends fds _ w = w

  -- `main`: `lauSim_main`, whose fifo nobody has opened; `none` is EXIT_FAILURE without a pipe.
  unfoldable pub main : List Event → W → Run (Option (Status ℕ) × W)
  unfolding main_fifo
  main es w =
      let (ends, w₁) = sys.pipe w in
      elim ends [
        | none ↦ ok (none, w₁)
        | some fds ↦ do
          (st, f) ← main_fifo sys.files Privileged.actor (λ f. f) es (unopened w₁) 0
          ok (some st, close_ends fds st f.world)
      ]

  -- The privileged backend does not open its fifo: with a pipe its `main` is undefined behaviour, whatever
  -- is read.
  pub main-unopened :
      (es : List Event) (fds : ℤ × ℤ) (w w' : W)
      → sys.pipe w ≡ (some fds, w')
      → main es w ≡ undefined
  unfolding main
  main-unopened es fds w w' e = rw (e, main) refl
