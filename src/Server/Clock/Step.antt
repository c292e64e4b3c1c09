-- ===== src/Server/Clock/Step.antt =====
-- The clock of srv/server.cpp stays in step with the counter of the tics.
use mathlib.Core.Path.{fun_ext}
use lau_sim.Base.{
  ℕ, zero, suc, ◌+◌, ◌*◌, ◌≤◌, ◌<◌, ◌^◌, ◌≡◌, refl, sym, ap, ◌∙◌, false, List, [], ◌∷◌, Option,
  some, ◌==◌, length, arith,
}
use lau_sim.FaultManager.{Run, ok, ◌>>=◌, FaultManager, Fault, bind_assoc}
use lau_sim.Server
use lau_sim.Server.{Server, manage_fails}
use lau_sim.Server.Tics.{dispatch, dispatch_lem, do_tic_lem, next_tic, count_tics}
use lau_sim.Server.Clock.{
  Clock, ended, one_later, catch_up, skip_to_end_of_tic, start_clock, do_tic, do_tics,
}
use lau_sim.Server.Clock.Readings.{IsCaughtUp, one_tic}

module _ (now : ℕ → ℕ) (duration : ℕ) where
  -- The clock of a tic that is not the first is not started again.
  started : (t : ℕ) (c : Clock) → 0 < t → start_clock now duration t c ≡ c
  unfolding start_clock
  started t c h = ground arith

  readings :
      (fuel j t : ℕ) (c c' : Clock)
      → catch_up now duration fuel 0 (one_later duration (start_clock now duration t c))
        ≡ some (j, c')
      → (x : ℕ) → x ≡ t
      → catch_up now duration fuel 0 (one_later duration (start_clock now duration x c))
        ≡ some (j, c')
  readings fuel j t c c' run x same =
      ap (λ y. catch_up now duration fuel 0 (one_later duration (start_clock now duration y c)))
        same
      ∙ run

  module _ {S : Type 0} (m : FaultManager S) where
    skip_to_end_of_tic-dispatch :
        (fuel j : ℕ) (fs : List Fault) (s : Server) (c c' : Clock)
        → (duration == 0) ≡ false
        → catch_up now duration fuel 0 (one_later duration c) ≡ some (j, c')
        → skip_to_end_of_tic now duration fuel (manage_fails fs s) c
          ≡ some (dispatch duration j fs s, c')
    unfolding skip_to_end_of_tic
    skip_to_end_of_tic-dispatch fuel j fs s c c' h e =
        rw (h, e) (ap (λ s'. some (s', c')) (dispatch_lem duration j fs s))

    do_tic-dispatch :
        (fuel j : ℕ) (s : Server) (c c' : Clock) (st : S)
        → (duration == 0) ≡ false
        → catch_up now duration fuel 0 (one_later duration (start_clock now duration s.tic c))
          ≡ some (j, c')
        → do_tic now duration m fuel s c st ≡ (
            m.tic st >>= λ st₁.
            m.get_fail st₁ >>= λ r. ok (some (dispatch duration j r.0 s, c', r.1)))
    unfolding do_tic
    do_tic-dispatch fuel j s c c' st h e =
        ap (λ k. m.tic st >>= k)
          (fun_ext λ st₁.
            ap (λ k. m.get_fail st₁ >>= k)
              (fun_ext λ (r : List Fault × S).
                ap (ended now duration m r.1) (skip_to_end_of_tic-dispatch fuel j r.0 s _ c' h e)))

    -- The tics behind one whose readings are made.
    do_tics-suc :
        (fuel n j : ℕ) (s : Server) (c c' : Clock) (st : S)
        → (duration == 0) ≡ false
        → catch_up now duration fuel 0 (one_later duration (start_clock now duration s.tic c))
          ≡ some (j, c')
        → do_tics now duration m fuel (suc n) s c st ≡ (
            m.tic st >>= λ st₁. m.get_fail st₁ >>= λ r.
            do_tics now duration m fuel n (dispatch duration j r.0 s) c' r.1)
    unfolding do_tics
    do_tics-suc fuel n j s c c' st h e = rw (do_tic-dispatch fuel j s c c' st h e) (simp bind_assoc)

    abbrev pub at : Clock → Server × S → Run (Option (Server × Clock × S))
    at c (s, st) = ok (some (s, c, st))

    pub do_tics-cons :
        (j : ℕ) (js : List ℕ) (c : Clock) (s : Server) (st : S)
        → (Server.do_tics m duration (j ∷ js) s st >>= at c) ≡ (
            m.tic st >>= λ st₁. m.get_fail st₁ >>= λ r.
            Server.do_tics m duration js (dispatch duration j r.0 s) r.1 >>= at c)
    unfolding Server.do_tics
    do_tics-cons j js c s st = simp (do_tic_lem, bind_assoc)

    -- The same behind the calls of a tic.
    pub rounds_eq :
        {B : Type 0} {f g : List Fault × S → Run B}
        → ((r : List Fault × S) → f r ≡ g r)
        → (st : S)
        → (m.tic st >>= λ st₁. m.get_fail st₁ >>= f) ≡ (m.tic st >>= λ st₁. m.get_fail st₁ >>= g)
    rounds_eq h st = ap (λ k. m.tic st >>= λ st₁. m.get_fail st₁ >>= k) (fun_ext h)

  module _ {S : Type 0} (m : FaultManager S) (start span : ℕ)
      (within : (i : ℕ) → now i ≤ start + duration * span) (small : span < 2 ^ 32) where
    -- From tic `t` on, with the readings that are ahead.
    follow :
        (n b fuel t : ℕ) (c : Clock)
        → (duration == 0) ≡ false
        → span < fuel
        → span ≤ b
        → t ≤ b
        → b + suc n < 2 ^ 64
        → (start_clock now duration t c).timestamp ≡ start + duration * t
        → (js : List ℕ) × (c' : Clock) × (length js ≡ suc n)
          × (c'.timestamp ≡ start + duration * count_tics duration js t)
          × IsCaughtUp now c'
          × ((s : Server) (st : S)
              → s.tic ≡ t
              → do_tics now duration m fuel (suc n) s c st
                ≡ (Server.do_tics m duration js s st >>= at m c'))
    unfolding count_tics do_tics Server.do_tics dispatch
    follow zero b fuel t c h l k r q e =
        let (j, c', run, time, up, _, _) =
          one_tic now duration start span within small b fuel t c h l k r (omega arith) e in
        (
          j ∷ [],
          c',
          refl,
          time,
          up,
          λ s st same.
              do_tics-suc m fuel zero j s c c' st h (readings fuel j t c c' run s.tic same)
              ∙ sym (do_tics-cons m j [] c' s st),
        )
    follow (suc n) b fuel t c h l k r q e =
        let (j, c', run, time, up, on, bound) =
          one_tic now duration start span within small b fuel t c h l k r (omega arith) e in
        let next : ℕ = next_tic duration j t in
        let (js, c'', len, time', up', there) =
          follow n (b + 1) fuel next c' h l (omega arith) bound (omega arith)
            (ap (λ (x : Clock). x.timestamp) (started next c' on) ∙ time) in
        (
          j ∷ js,
          c'',
          ap suc len,
          time',
          up',
          λ s st same.
              do_tics-suc m fuel (suc n) j s c c' st h (readings fuel j t c c' run s.tic same)
              ∙ rounds_eq m
                  (λ r. there (dispatch duration j r.0 s) r.1 (ap (next_tic duration j) same)) st
              ∙ sym (do_tics-cons m j js c'' s st),
        )

pub do_tics-count_tics :
    {S : Type 0} (now : ℕ → ℕ) (duration span : ℕ) (m : FaultManager S) (n fuel : ℕ) (s : Server)
    (c : Clock) (st : S)
    → 0 < duration
    → span < 2 ^ 32
    → n < 2 ^ 32
    → span < fuel
    → s.tic ≡ 0
    → ((i : ℕ) → now i ≤ now c.reads + duration * span)
    → (js : List ℕ) × (c' : Clock) × (length js ≡ suc n)
      × (do_tics now duration m fuel (suc n) s c st
          ≡ (Server.do_tics m duration js s st >>= λ r. ok (some (r.0, c', r.1))))
      × (c'.timestamp ≡ now c.reads + duration * count_tics duration js s.tic)
      × IsCaughtUp now c'
unfolding start_clock
do_tics-count_tics now duration span m n fuel s c st h small k l first within =
    let start : (start_clock now duration 0 c).timestamp ≡ now c.reads + duration * 0 =
      omega arith in
    let (js, c', len, time, up, run) =
      follow now duration m (now c.reads) span within small n span fuel 0 c (ground arith) l
        (omega arith) (omega arith) (omega arith) start in
    (
      js,
      c',
      len,
      run s st first,
      time ∙ ap (λ x. now c.reads + duration * count_tics duration js x) (sym first),
      up,
    )
