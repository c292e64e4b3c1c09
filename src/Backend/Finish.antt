-- ===== src/Backend/Finish.antt =====
-- How the loop of client/src/backend.c ends.
use lau_sim.Base.{ℕ, ◌≡◌, refl, List, [], ◌∷◌, Option, none, some}
use lau_sim.Backend.{
  Subsys, returned, exited, Effect, Actor, Event, line, close_request, nothing, Status, finished,
  Request, skip, exit, command, read_request, select_subsys, apply_effect, apply, serve, main_loop,
  main,
}

module _ {S : Type 0} (a : Actor S) where
  -- The loop has returned behind its cleanup.
  abbrev pub IsCleaned : Status S → Type 0
  IsCleaned (finished t) = (s : S) × (t ≡ a.cleanup s)
  IsCleaned _ = Unit

  effect-IsCleaned :
      (after : S → Status S)
      → ((s : S) → IsCleaned (after s))
      → (e : Effect S) → IsCleaned (apply_effect a after e)
  unfolding apply_effect
  effect-IsCleaned after h (returned code s) = h s
  effect-IsCleaned after h (exited s) = tt

  apply-IsCleaned :
      (after : Option Subsys → S → Status S)
      → ((cmd : Option Subsys) (s : S) → IsCleaned (after cmd s))
      → (c : Option Subsys) (opt : ℕ) (s : S) → IsCleaned (apply a after c opt s)
  unfolding apply
  apply-IsCleaned after h none opt s = tt
  apply-IsCleaned after h (some sys) opt s =
      effect-IsCleaned (after (some sys)) (h (some sys)) (a.set_state sys opt s)

  serve-IsCleaned :
      (after : Option Subsys → S → Status S)
      → ((cmd : Option Subsys) (s : S) → IsCleaned (after cmd s))
      → (r : Request) (cmd : Option Subsys) (s : S) → IsCleaned (serve a after r cmd s)
  unfolding serve
  serve-IsCleaned after h skip cmd s = h cmd s
  serve-IsCleaned after h exit cmd s = (s, refl)
  serve-IsCleaned after h (command name opt) cmd s =
      apply-IsCleaned after h (select_subsys name cmd) opt s

  main_loop-IsCleaned :
      (es : List Event) (cmd : Option Subsys) (s : S) → IsCleaned (main_loop a es cmd s)
  unfolding main_loop
  main_loop-IsCleaned [] cmd s = tt
  main_loop-IsCleaned (nothing ∷ es) cmd s = main_loop-IsCleaned es cmd s
  main_loop-IsCleaned (close_request ∷ es) cmd s = (s, refl)
  main_loop-IsCleaned (line l ∷ es) cmd s =
      serve-IsCleaned (main_loop a es) (main_loop-IsCleaned es) (read_request l) cmd s

  -- Whatever is read, the loop returns only behind its cleanup, which is the last thing it does.
  pub main-IsCleaned : (es : List Event) (s : S) → IsCleaned (main a es s)
  unfolding main
  main-IsCleaned es s = main_loop-IsCleaned es none s
