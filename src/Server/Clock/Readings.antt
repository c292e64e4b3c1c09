-- ===== src/Server/Clock/Readings.antt =====
-- The loop of `skip_to_end_of_tic` (srv/server.cpp) ends, and counts the tics that are missed.
use lau_sim.Base.{
  ℕ, zero, suc, ◌+◌, ◌*◌, ◌≤◌, ◌<◌, ◌^◌, ◌≡◌, refl, sym, ap, ◌∙◌, ◌⊎◌, inl, inr, false, some, ltb,
  ◌==◌, Bool-cases, arith, u32,
}
use lau_sim.Server.Tics.{next_tic}
use lau_sim.Server.Clock.{Clock, one_later, one_read, catch_up, start_clock}

-- What `n` tics more take.
later_lem : (start duration q : ℕ) → start + duration * q + duration ≡ start + duration * (q + 1)
later_lem start duration q = omega arith

times_le : (d a b : ℕ) → a ≤ b → d * a ≤ d * b
times_le zero a b h = omega arith
times_le (suc d) a b h = omega (arith, times_le d a b h)

-- The last reading is not behind `timestamp`.
abbrev pub IsCaughtUp : (ℕ → ℕ) → Clock → Type 0
IsCaughtUp now c = (i : ℕ) × (c.reads ≡ i + 1) × (now i ≤ c.timestamp)

module _ (now : ℕ → ℕ) (duration : ℕ) where
  module _ (start span : ℕ) (within : (i : ℕ) → now i ≤ start + duration * span)
      (small : span < 2 ^ 32) where
    -- A reading behind tic `q` shows that `q` is within the span.
    below_span : (q i : ℕ) → start + duration * q < now i → q < span
    below_span q i l = elim (lt_cases q span) [
      | inl h ↦ h
      | inr h ↦ absurd (omega (arith, times_le duration span q h, within i))
    ]
      where
        lt_cases : (a b : ℕ) → (a < b) ⊎ (b ≤ a)
        lt_cases a b = ground arith

    catch_up_end :
        (fuel skip q : ℕ) (c : Clock)
        → 0 < fuel
        → span < fuel + q
        → skip ≤ q
        → c.timestamp ≡ start + duration * q
        → (j : ℕ) × (c' : Clock) × (catch_up now duration fuel skip c ≡ some (skip + j, c'))
          × (c'.timestamp ≡ start + duration * (q + j))
          × IsCaughtUp now c'
          × ((j ≡ 0) ⊎ (q + j ≤ span))
    unfolding catch_up
    catch_up_end zero skip q c l k h e = absurd (omega arith)
    catch_up_end (suc fuel) skip q c l k h e =
        let at : (n : ℕ) → q ≡ n → c.timestamp ≡ start + duration * n =
          λ n d. e ∙ ap (λ x. start + duration * x) d in
        elim (Bool-cases (ltb c.timestamp (now c.reads))) [
          | inr there ↦ (
            0,
            one_read c,
            rw there (ap (λ n. some (n, one_read c)) (omega arith)),
            at (q + 0) (omega arith),
            (c.reads, refl, ground arith),
            inl refl,
          )
          | inl behind ↦
              let below : q < span = below_span q c.reads (ground arith) in
              let (j, c', run, time, up, bound) =
                catch_up_end fuel (skip + 1) (q + 1) (one_later duration (one_read c)) (omega arith)
                  (omega arith) (omega arith)
                  (ap (λ x. x + duration) e ∙ later_lem start duration q) in
              let same : u32 (skip + 1) ≡ skip + 1 = omega arith in
              (
                j + 1,
                c',
                rw (behind, same, run) (ap (λ n. some (n, c')) (omega arith)),
                time ∙ ap (λ x. start + duration * x) (omega arith),
                up,
                inr (elim bound [ inl z ↦ omega arith | inr le ↦ omega arith ]),
              )
        ]

    -- The readings of tic `t`, which is not above `b`.
    pub one_tic :
        (b fuel t : ℕ) (c : Clock)
        → (duration == 0) ≡ false
        → span < fuel
        → span ≤ b
        → t ≤ b
        → b + 1 < 2 ^ 64
        → (start_clock now duration t c).timestamp ≡ start + duration * t
        → (j : ℕ) × (c' : Clock) × (catch_up now duration fuel 0
              (one_later duration (start_clock now duration t c))
            ≡ some (j, c'))
          × (c'.timestamp ≡ start + duration * next_tic duration j t)
          × IsCaughtUp now c'
          × (0 < next_tic duration j t)
          × (next_tic duration j t ≤ b + 1)
    unfolding next_tic
    one_tic b fuel t c h l k r q e =
        let (j, c', run, time, up, bound) =
          catch_up_end fuel 0 (t + 1) (one_later duration (start_clock now duration t c))
            (omega arith) (omega arith) (omega arith)
            (ap (λ x. x + duration) e ∙ later_lem start duration t) in
        let (time', up', on, below) = counted j c' bound time up in
        (j, c', run ∙ ap (λ x. some (x, c')) (omega arith), time', up', on, below)
      where
        counted :
            (j : ℕ) (c' : Clock)
            → ((j ≡ 0) ⊎ (t + 1 + j ≤ span))
            → c'.timestamp ≡ start + duration * (t + 1 + j)
            → IsCaughtUp now c'
            → (c'.timestamp ≡ start + duration * next_tic duration j t)
              × IsCaughtUp now c'
              × (0 < next_tic duration j t)
              × (next_tic duration j t ≤ b + 1)
        counted j c' bound time up =
            let small : t + 1 + j ≤ b + 1 = elim bound [
              | inl z ↦ omega arith
              | inr le ↦ omega arith
            ] in
            let next : next_tic duration j t ≡ t + 1 + j = rw h (omega arith) in
            (
              time ∙ ap (λ x. start + duration * x) (sym next),
              up,
              omega (arith, next),
              omega (arith, next),
            )
