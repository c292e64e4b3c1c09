-- ===== src/Server/Clock/Spans.antt =====
-- The tics of srv/server.cpp under a clock whose readings span less than 2^32 tics, with a length of a tic or
-- without one.
use mathlib.Core.Path.{fun_ext}
use lau_sim.Base.{
  ℕ, zero, suc, ◌+◌, ◌*◌, ◌≤◌, ◌<◌, ◌^◌, ◌≡◌, refl, sym, ap, ◌∙◌, List, [], ◌∷◌, some, length,
  arith,
}
use lau_sim.FaultManager.{ok, ◌>>=◌, FaultManager, Fault, bind_assoc}
use lau_sim.Server
use lau_sim.Server.{Server}
use lau_sim.Server.Tics.{dispatch, dispatch_lem, next_tic}
use lau_sim.Server.Clock.{Clock, skip_to_end_of_tic, start_clock, do_tic, do_tics}
use lau_sim.Server.Clock.Step.{at, do_tics-cons, rounds_eq, do_tics-count_tics}

-- No reading is more than `span` tics behind the first one, where a tic has a length.
abbrev pub IsWithin : (ℕ → ℕ) → ℕ → ℕ → Clock → Type 0
IsWithin now duration span c = 0 < duration → (i : ℕ) → now i ≤ now c.reads + duration * span

module _ {S : Type 0} (now : ℕ → ℕ) (m : FaultManager S) (fuel : ℕ) where
  -- Without a length of a tic there is no wait.
  do_tic-unclocked :
      (s : Server) (c : Clock) (st : S)
      → do_tic now 0 m fuel s c st ≡ (
          m.tic st >>= λ st₁.
          m.get_fail st₁ >>= λ r. ok (some (dispatch 0 0 r.0 s, start_clock now 0 s.tic c, r.1)))
  unfolding do_tic skip_to_end_of_tic
  do_tic-unclocked s c st =
      ap (λ k. m.tic st >>= k)
        (fun_ext λ st₁.
          ap (λ k. m.get_fail st₁ >>= k)
            (fun_ext λ (r : List Fault × S).
              ap (λ s'. ok (some (s', start_clock now 0 s.tic c, r.1))) (dispatch_lem 0 0 r.0 s)))

  do_tics-once :
      (n : ℕ) (s : Server) (c : Clock) (st : S)
      → do_tics now 0 m fuel (suc n) s c st ≡ (
          m.tic st >>= λ st₁. m.get_fail st₁ >>= λ r.
          do_tics now 0 m fuel n (dispatch 0 0 r.0 s) (start_clock now 0 s.tic c) r.1)
  unfolding do_tics
  do_tics-once n s c st = rw (do_tic-unclocked s c st) (simp bind_assoc)

  do_tics-unclocked :
      (n t : ℕ) (c : Clock)
      → (js : List ℕ) × (c' : Clock) × (length js ≡ n)
        × ((s : Server) (st : S)
            → s.tic ≡ t
            → do_tics now 0 m fuel n s c st ≡ (Server.do_tics m 0 js s st >>= at now 0 m c'))
  unfolding do_tics Server.do_tics dispatch
  do_tics-unclocked zero t c = ([], c, refl, λ s st e. refl)
  do_tics-unclocked (suc n) t c =
      let (js, c', len, run) = do_tics-unclocked n (next_tic 0 0 t) (start_clock now 0 t c) in
      (
        0 ∷ js,
        c',
        ap suc len,
        λ s st e.
            do_tics-once n s c st
            ∙ rounds_eq now 0 m
                (λ r.
                  ap (λ x. do_tics now 0 m fuel n (dispatch 0 0 r.0 s) (start_clock now 0 x c) r.1)
                    e
                  ∙ run (dispatch 0 0 r.0 s) r.1 (ap (next_tic 0 0) e))
                st
            ∙ sym (do_tics-cons now 0 m 0 js c' s st),
      )

-- If the readings are within `span` tics, less than 2^32, then the server's tics from the first end, and are
-- those with some numbers of skipped ones.
pub do_tics-IsWithin :
    {S : Type 0} (now : ℕ → ℕ) (duration span : ℕ) (m : FaultManager S) (n fuel : ℕ) (s : Server)
    (c : Clock) (st : S)
    → span < 2 ^ 32
    → n < 2 ^ 32
    → span < fuel
    → s.tic ≡ 0
    → IsWithin now duration span c
    → (js : List ℕ) × (c' : Clock) × (length js ≡ n)
      × (do_tics now duration m fuel n s c st
          ≡ (Server.do_tics m duration js s st >>= λ r. ok (some (r.0, c', r.1))))
unfolding do_tics Server.do_tics
do_tics-IsWithin now zero span m n fuel s c st small l k first within =
    let (js, c', len, run) = do_tics-unclocked now m fuel n 0 c in (js, c', len, run s st first)
do_tics-IsWithin now (suc d) span m zero fuel s c st small l k first within = ([], c, refl, refl)
do_tics-IsWithin now (suc d) span m (suc n) fuel s c st small l k first within =
    let (js, c', len, run, _, _) =
      do_tics-count_tics now (suc d) span m n fuel s c st (omega arith) small (omega arith) k first
        (within (omega arith)) in
    (js, c', len, run)
