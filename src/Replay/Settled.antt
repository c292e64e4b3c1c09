-- ===== src/Replay/Settled.antt =====
-- What holds of the replay plugin (plugins/replay/replay.c) for any file at all.
use mathlib.Core.Path.{subst}
use lau_sim.Libc.Text.{strchr, c_str}
use lau_sim.Base.{
  ℕ, suc, zero, ltb→lt, u64_lem, lt→ltb, ap, ◌&&◌, ◌+◌, ◌^◌, ◌<◌, ◌≤◌, ◌≡◌, refl, sym, ◌∙◌, ◌⊎◌,
  inl, inr, Bool, true, false, not, List, [], ◌∷◌, ◌++◌, Option, Bytes, u64, ltb, Bool-cases, arith,
}
use lau_sim.FaultManager.{Fault, observe, >>=-ok, ok, ◌>>=◌}
use lau_sim.Replay.State.{Replay}
use lau_sim.Replay.Tic.{manager, get_fail, read_fault, read_line, tic_loop, tic}

-- No tic that has come is left to read: the file is at its end, or the next section is not due.
abbrev pub IsSettled : Replay → Type 0
IsSettled r = (r.done ≡ true) ⊎ (r.tic_num ≤ r.nxt_tic)

-- A text is the end of another.
abbrev pub IsRest : List Bytes → List Bytes → Type 0
IsRest ls ms = (pre : List Bytes) × (pre ++ ls ≡ ms)

read_fault-keeps :
    (o : Option (Bytes × Bytes)) (r : Replay)
    → ((read_fault o r).tic_num ≡ r.tic_num) × ((read_fault o r).done ≡ r.done)
unfolding read_fault
read_fault-keeps o r = ground arith

-- A line changes neither the counter of the tics nor the end of the file.
read_line-keeps :
    (l : Bytes) (r r' : Replay)
    → read_line l r ≡ ok r'
    → (r'.tic_num ≡ r.tic_num) × (r'.done ≡ r.done)
unfolding read_line
read_line-keeps l r r' e = ground (arith, read_fault-keeps (strchr (c_str l) b',') r)

-- The loop has one more round, and what it then does.
loops : Replay → Bool
loops r = ltb r.nxt_tic r.tic_num && not r.done

tic_loop-again :
    (l : Bytes) (ls : List Bytes) (r : Replay)
    → loops r ≡ true
    → tic_loop (l ∷ ls) r ≡ (read_line l r >>= tic_loop ls)
unfolding tic_loop loops
tic_loop-again l ls r h = rw h

tic_loop-ends :
    (ls : List Bytes) (r : Replay) → loops r ≡ false → tic_loop ls r ≡ ok (record r { file = ls })
unfolding tic_loop loops
tic_loop-ends [] r h = rw h
tic_loop-ends (l ∷ ls) r h = rw h

tic_loop-eof :
    (r : Replay) → loops r ≡ true → tic_loop [] r ≡ ok (record r { file = []; done = true })
unfolding tic_loop loops
tic_loop-eof r h = rw h

-- The loop ends where the test fails, with the lines that it has not read.
ends-IsSettled :
    (ls : List Bytes) (r r' : Replay)
    → loops r ≡ false
    → ok (record r { file = ls }) ≡ ok r'
    → IsSettled r' × IsRest r'.file ls × (r'.tic_num ≡ r.tic_num)
unfolding loops
ends-IsSettled ls r r' h e = (ground arith, ([], ground arith), ground arith)

eof-IsSettled :
    (r r' : Replay)
    → ok (record r { file = []; done = true }) ≡ ok r'
    → IsSettled r' × IsRest r'.file [] × (r'.tic_num ≡ r.tic_num)
eof-IsSettled r r' e = (ground arith, ([], ground arith), ground arith)

tic_loop-IsSettled :
    (ls : List Bytes) (r r' : Replay)
    → tic_loop ls r ≡ ok r'
    → IsSettled r' × IsRest r'.file ls × (r'.tic_num ≡ r.tic_num)
tic_loop-IsSettled [] r r' e = elim (Bool-cases (loops r)) [
  | inl again ↦ eof-IsSettled r r' (sym (tic_loop-eof r again) ∙ e)
  | inr ends ↦ ends-IsSettled [] r r' ends (sym (tic_loop-ends [] r ends) ∙ e)
]
tic_loop-IsSettled (l ∷ ls) r r' e = elim (Bool-cases (loops r)) [
  | inl again ↦
      let (r₁, e₂, e₁) =
        >>=-ok (tic_loop ls) (read_line l r) (sym (tic_loop-again l ls r again) ∙ e) in
      let (s, (pre, f), t) = tic_loop-IsSettled ls r₁ r' e₂ in
      (s, (l ∷ pre, ap (λ x. l ∷ x) f), t ∙ (read_line-keeps l r r₁ e₁).0)
  | inr ends ↦ ends-IsSettled (l ∷ ls) r r' ends (sym (tic_loop-ends (l ∷ ls) r ends) ∙ e)
]

tic-done : (r : Replay) → r.done ≡ true → tic r ≡ ok (record r { faults = [] })
unfolding tic
tic-done r d = simp d

abbrev cleared : Replay → Replay
cleared r = record r { faults = []; tic_num = u64 (r.tic_num + 1) }

tic-early : (r : Replay) → r.done ≡ false → ltb r.tic_num r.nxt_tic ≡ true → tic r ≡ ok (cleared r)
unfolding tic
tic-early r d h = simp (d, h)

tic-due :
    (r : Replay)
    → r.done ≡ false
    → ltb r.tic_num r.nxt_tic ≡ false
    → tic r ≡ tic_loop r.file (cleared r)
unfolding tic
tic-due r d h = simp (d, h)

early-IsSettled : (r : Replay) → ltb r.tic_num r.nxt_tic ≡ true → IsSettled (cleared r)
early-IsSettled r h = inr (omega (arith, ltb→lt r.tic_num r.nxt_tic h))

ok_injective : {A : Type 0} (a b : A) → ok a ≡ ok b → a ≡ b
ok_injective a b e = cc

-- A tic of the replay plugin that is defined, over any file: behind it no section is overdue, and
-- what is left of the file is an end of what was left before.
pub tic-IsSettled : (r r' : Replay) → tic r ≡ ok r' → IsSettled r' × IsRest r'.file r.file
tic-IsSettled r r' e = elim (Bool-cases r.done) [
  | inl d ↦
      subst (λ (q : Replay). IsSettled q × IsRest q.file r.file)
        (ok_injective _ r' (sym (tic-done r d) ∙ e)) (inl d, ([], refl))
  | inr d ↦ elim (Bool-cases (ltb r.tic_num r.nxt_tic)) [
    | inl h ↦
        subst (λ (q : Replay). IsSettled q × IsRest q.file r.file)
          (ok_injective _ r' (sym (tic-early r d h) ∙ e)) (early-IsSettled r h, ([], refl))
    | inr h ↦
        let (s, f, _) = tic_loop-IsSettled r.file (cleared r) r' (sym (tic-due r d h) ∙ e) in (s, f)
  ]
]

tic-waits :
    (r : Replay)
    → r.done ≡ false
    → r.tic_num < r.nxt_tic
    → r.nxt_tic < 2 ^ 64
    → tic r ≡ ok (record r { faults = []; tic_num = r.tic_num + 1 })
unfolding tic
tic-waits r d h k = simp (d, lt→ltb _ _ h, u64_lem (r.tic_num + 1) (omega arith))

-- So many tics with no fault.
abbrev pub silence : ℕ → List (List Fault)
silence zero = []
silence (suc n) = [] ∷ silence n

-- Any number of tics, none of them behind the next section, where the end of the file has not been met
-- and the number of that section is below 2^64: no tic has a fault, nothing of the file is read, and
-- the counter has gone on by their number.
pub observe-silence :
    (calloc : ℕ → ℕ → Bool) (n : ℕ) (r : Replay)
    → r.done ≡ false
    → r.tic_num + n ≤ r.nxt_tic
    → r.nxt_tic < 2 ^ 64
    → (r' : Replay) × (observe (manager calloc) n r ≡ ok (silence n, r'))
      × (r'.file ≡ r.file)
      × (r'.tic_num ≡ r.tic_num + n)
unfolding observe get_fail
observe-silence calloc zero r d h k = (r, refl, refl, omega arith)
observe-silence calloc (suc n) r d h k =
    let (r', e, f, t) =
      observe-silence calloc n (record r { faults = []; tic_num = r.tic_num + 1 }) d (omega arith)
        k in
    (r', rw (tic-waits r d (omega arith) k, e), f, omega (arith, t))
