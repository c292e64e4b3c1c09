-- ===== src/Libc/Number/Chars.antt =====
-- The bytes of a printed number: digits, and a minus sign.
use lau_sim.Base.{
  ℕ, zero, suc, ◌+◌, ◌/◌, ◌%◌, ◌≤◌, ◌≢◌, [], ◌∷◌, arith, Bytes, ltb, All, ℤ, pos, negsuc,
  Bool-cases, inl, inr,
}
use lau_sim.Libc.Number.Print.{emit, print_nat, print_int}

abbrev pub IsNumeric : ℕ → Type 0
IsNumeric c = (b'-' ≤ c) × (c ≤ b'9') × (c ≢ b'.') × (c ≢ b'/')

emit-IsNumeric : (f n : ℕ) (out : Bytes) → All IsNumeric out → All IsNumeric (emit f n out)
unfolding emit
emit-IsNumeric zero n out h = h
emit-IsNumeric (suc f) n out h = elim (Bool-cases (ltb n 10)) [
  | inl e ↦ rw e (ground arith, h)
  | inr e ↦ rw e (emit-IsNumeric f (n / 10) ((b'0' + n % 10) ∷ out) (ground arith, h))
]

pub print_nat-IsNumeric : (n : ℕ) → All IsNumeric (print_nat n)
unfolding print_nat
print_nat-IsNumeric n = emit-IsNumeric (suc n) n [] tt

pub print_int-IsNumeric : (z : ℤ) → All IsNumeric (print_int z)
unfolding print_int
print_int-IsNumeric (pos n) = print_nat-IsNumeric n
print_int-IsNumeric (negsuc n) = (omega arith, print_nat-IsNumeric (n + 1))

emit-ne-nil : (f n : ℕ) (out : Bytes) → out ≢ [] → emit f n out ≢ []
unfolding emit
emit-ne-nil zero n out h = h
emit-ne-nil (suc f) n out h = ground (arith, emit-ne-nil f (n / 10) ((b'0' + n % 10) ∷ out))

pub print_nat-ne-nil : (n : ℕ) → print_nat n ≢ []
unfolding print_nat emit
print_nat-ne-nil n = ground (arith, emit-ne-nil n (n / 10) ((b'0' + n % 10) ∷ []))

pub print_int-ne-nil : (z : ℤ) → print_int z ≢ []
unfolding print_int
print_int-ne-nil (pos n) = print_nat-ne-nil n
print_int-ne-nil (negsuc n) = cc
