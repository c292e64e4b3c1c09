-- ===== src/Main/Loop.antt =====
-- The loop of srv/main.cpp ends, and what it does until then.
use mathlib.Core.Path.{fun_ext}
use lau_sim.Base.{
  ℕ, zero, suc, ◌+◌, ◌≤◌, ◌<◌, ◌^◌, ◌≡◌, refl, sym, ap, ◌∙◌, ◌⊎◌, inl, inr, Bool, true, false, none,
  some, ltb, ◌==◌, Bool-cases, arith, u64,
}
use lau_sim.FaultManager.{ok, ◌>>=◌, FaultManager}
use lau_sim.Server.{Server}
use lau_sim.Server.Clock.{Clock, do_tic, do_tics}
use lau_sim.Main.{goes_on, tic_loop}

-- The loop ends behind `k` more rounds: none of their tests is the last, and the test behind them is.
abbrev pub IsEnd : (ℕ → Bool) → ℕ → ℕ → ℕ → Type 0
IsEnd stop max_tics n k =
    ((i : ℕ) → i < k → stop (n + i) ≡ false)
    × ((stop (n + k) ≡ true) ⊎ (0 < max_tics) × (n + k ≡ max_tics))
    × ((max_tics ≡ 0) ⊎ (n + k ≤ max_tics))

pub at_sum : (stop : ℕ → Bool) (a b : ℕ) (v : Bool) → a ≡ b → stop a ≡ v → stop b ≡ v
at_sum stop a b v e h = ap stop (sym e) ∙ h

-- What holds of the first round and of those behind it.
in_front :
    (stop : ℕ → Bool) (n k : ℕ)
    → stop n ≡ false
    → ((i : ℕ) → i < k → stop (n + 1 + i) ≡ false)
    → (i : ℕ) → i < suc k
    → stop (n + i) ≡ false
in_front stop n k h t zero l = at_sum stop n (n + zero) false (omega arith) h
in_front stop n k h t (suc i) l =
    at_sum stop (n + 1 + i) (n + suc i) false (omega arith) (t i (omega arith))

-- Within `k` rounds there is one whose test is true, or there is none.
first_stop :
    (stop : ℕ → Bool) (k n : ℕ)
    → ((j : ℕ) × (j < k) × ((i : ℕ) → i < j → stop (n + i) ≡ false) × (stop (n + j) ≡ true))
      ⊎ ((i : ℕ) → i < k → stop (n + i) ≡ false)
first_stop stop zero n = inr (λ i h. absurd (omega arith))
first_stop stop (suc k) n =
    let later = first_stop stop k (n + 1) in
    elim (Bool-cases (stop n)) [
      | inl now ↦ inl (
        0,
        omega arith,
        λ i h. absurd (omega arith),
        at_sum stop n (n + 0) true (omega arith) now,
      )
      | inr on ↦ elim later [
        | inl (j, l, before, there) ↦ inl (
          suc j,
          omega arith,
          in_front stop n j on before,
          at_sum stop (n + 1 + j) (n + suc j) true (omega arith) there,
        )
        | inr never ↦ inr (in_front stop n k on never)
      ]
    ]

module _ (stop : ℕ → Bool) {S : Type 0} (now : ℕ → ℕ) (m : FaultManager S)
    (tic_length max_tics readings : ℕ) (unsigned : max_tics < 2 ^ 32) where
  -- Without a limit the tics are not counted.
  abbrev IsCounted : ℕ → ℕ → Type 0
  IsCounted n tic_num = (max_tics ≡ 0) ⊎ (tic_num ≡ n)

  abbrev test : ℕ → ℕ → Bool × ℕ
  test n tic_num = goes_on stop now m tic_length max_tics readings n tic_num

  last_test :
      (n tic_num : ℕ) → IsCounted n tic_num → IsEnd stop max_tics n 0 → (test n tic_num).0 ≡ false
  unfolding goes_on
  last_test n tic_num c (before, there, within) = elim (Bool-cases (stop n)) [
    | inl now ↦ rw now refl
    | inr on ↦ elim there [
      | inl last ↦ let now = at_sum stop (n + 0) n true (omega arith) last in cc
      | inr (limited, e) ↦
          let limit : (max_tics == 0) ≡ false = ground arith in
          let over : ltb tic_num max_tics ≡ false = ground arith in rw (on, limit, over) refl
    ]
  ]

  more_test :
      (n tic_num k : ℕ)
      → IsCounted n tic_num
      → IsEnd stop max_tics n (suc k)
      → (t : ℕ) × (test n tic_num ≡ (true, t)) × IsCounted (n + 1) t
  unfolding goes_on
  more_test n tic_num k c (before, there, within) =
      let on = at_sum stop (n + 0) n false (omega arith) (before 0 (omega arith)) in
      elim (Bool-cases (max_tics == 0)) [
        | inl free ↦ (tic_num, rw (on, free) refl, inl (ground arith))
        | inr limit ↦
            let under : ltb tic_num max_tics ≡ true = ground arith in
            (u64 (tic_num + 1), rw (on, limit, under) refl, inr (ground arith))
      ]

  next-IsEnd : (n k : ℕ) → IsEnd stop max_tics n (suc k) → IsEnd stop max_tics (n + 1) k
  next-IsEnd n k (before, there, within) = (
    (λ i h. at_sum stop (n + suc i) (n + 1 + i) false (omega arith) (before (suc i) (omega arith))),
    elim there [
      | inl last ↦ inl (at_sum stop (n + suc k) (n + 1 + k) true (omega arith) last)
      | inr (limited, e) ↦ inr (limited, omega arith)
    ],
    elim within [ inl free ↦ inl free | inr l ↦ inr (omega arith) ],
  )

  -- With enough fuel the loop makes the tics of its rounds, and ends.
  tic_loop-do_tics :
      (k fuel n tic_num : ℕ) (s : Server) (c : Clock) (st : S)
      → k < fuel
      → IsCounted n tic_num
      → IsEnd stop max_tics n k
      → tic_loop stop now m tic_length max_tics readings fuel n tic_num s c st
        ≡ do_tics now tic_length m readings k s c st
  unfolding tic_loop do_tics
  tic_loop-do_tics k zero n tic_num s c st l w h = absurd (omega arith)
  tic_loop-do_tics zero (suc fuel) n tic_num s c st l w h =
      rw (last_test n tic_num w h, tic_loop) refl
  tic_loop-do_tics (suc k) (suc fuel) n tic_num s c st l w h =
      let (t, e, w') = more_test n tic_num k w h in
      let first = do_tic now tic_length m readings s c st in
      rw (e, tic_loop)
        (ap
            (λ tic_num'. first >>= λ r. elim r [
              | none ↦ ok none
              | some (s₁, c₁, st₁) ↦
                  tic_loop stop now m tic_length max_tics readings fuel (n + 1) tic_num' s₁ c₁ st₁
            ])
            (ap (λ p. p.1) e)
          ∙ ap (λ f. first >>= f)
              (fun_ext (elim [
                | none ↦ refl
                | some (s₁, c₁, st₁) ↦
                    tic_loop-do_tics k fuel (n + 1) t s₁ c₁ st₁ (omega arith) w' (next-IsEnd n k h)
              ])))

  -- With a limit the loop ends: it makes the tics up to the limit, or up to the round before which the
  -- end of the program is requested, and no more.
  pub tic_loop_end :
      (fuel : ℕ) (s : Server) (c : Clock) (st : S)
      → 0 < max_tics
      → max_tics < fuel
      → (k : ℕ) × (k ≤ max_tics)
        × ((i : ℕ) → i < k → stop i ≡ false)
        × ((stop k ≡ true) ⊎ (k ≡ max_tics))
        × (tic_loop stop now m tic_length max_tics readings fuel 0 0 s c st
            ≡ do_tics now tic_length m readings k s c st)
  tic_loop_end fuel s c st limited l = elim (first_stop stop max_tics 0) [
    | inl (j, lj, before, there) ↦ (
      j,
      omega arith,
      λ i li. at_sum stop (0 + i) i false (omega arith) (before i li),
      inl (at_sum stop (0 + j) j true (omega arith) there),
      tic_loop-do_tics j fuel 0 0 s c st (omega arith) (inr refl)
          (before, inl there, inr (omega arith)),
    )
    | inr never ↦ (
      max_tics,
      omega arith,
      λ i li. at_sum stop (0 + i) i false (omega arith) (never i li),
      inr refl,
      tic_loop-do_tics max_tics fuel 0 0 s c st l (inr refl)
          (never, inr (limited, omega arith), inr (omega arith)),
    )
  ]

  -- Without a limit it makes the tics up to the first request to end.
  pub tic_loop-unlimited :
      (k fuel : ℕ) (s : Server) (c : Clock) (st : S)
      → max_tics ≡ 0
      → k < fuel
      → ((i : ℕ) → i < k → stop i ≡ false)
      → stop k ≡ true
      → tic_loop stop now m tic_length max_tics readings fuel 0 0 s c st
        ≡ do_tics now tic_length m readings k s c st
  tic_loop-unlimited k fuel s c st free l before there =
      tic_loop-do_tics k fuel 0 0 s c st l (inr refl) (
        (λ i li. at_sum stop i (0 + i) false (omega arith) (before i li)),
        inl (at_sum stop k (0 + k) true (omega arith) there),
        inl free,
      )
