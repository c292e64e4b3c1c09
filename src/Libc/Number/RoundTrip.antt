-- ===== src/Libc/Number/RoundTrip.antt =====
-- What `printf` writes, `strtoull` with base 0 reads.
use lau_sim.Base.{
  append-nil, ℕ, zero, suc, ◌+◌, ◌-◌, ◌*◌, ◌/◌, ◌%◌, ◌^◌, ◌≤◌, ◌<◌, ◌≡◌, refl, sym, ap, ◌∙◌, [],
  ◌∷◌, ◌++◌, some, arith, Bytes, ltb, ℤ, pos, negsuc, int32, int64, u32, Bool-cases, lt→ltb, inl,
  inr,
}
use lau_sim.Libc.Number.Print.{emit, print_nat, print_int}
use lau_sim.Libc.Number.Scan.{digit, scan_from, strtoull}

digit_lem : (n : ℕ) → n < 10 → digit (b'0' + n) ≡ n
unfolding digit
digit_lem n h = ground arith

-- No digit of any base stands at the head.
abbrev pub Stops : Bytes → Type 0
Stops [] = Unit
Stops (c ∷ s) = digit c ≡ 255

scan_from-digit :
    (v n : ℕ) (s : Bytes) → n < 10 → scan_from 10 v ((b'0' + n) ∷ s) ≡ scan_from 10 (v * 10 + n) s
unfolding scan_from
scan_from-digit v n s h = rw (digit_lem n h, lt→ltb n 10 h)

scan_from-Stops : (base v : ℕ) (s : Bytes) → base ≤ 36 → Stops s → scan_from base v s ≡ v
unfolding scan_from
scan_from-Stops base v [] hb h = refl
scan_from-Stops base v (c ∷ s) hb h = ground arith

emit-append : (f n : ℕ) (out s : Bytes) → emit f n (out ++ s) ≡ emit f n out ++ s
unfolding emit
emit-append zero n out s = refl
emit-append (suc f) n out s = ground (arith, emit-append f (n / 10) ((b'0' + n % 10) ∷ out) s)

scan_from-emit :
    (f n : ℕ) (out : Bytes) → n < f → scan_from 10 0 (emit f n out) ≡ scan_from 10 n out
unfolding emit
scan_from-emit zero n out h = absurd (omega arith)
scan_from-emit (suc f) n out h = ground (
  arith,
  scan_from-digit 0 n out,
  scan_from-digit (n / 10) (n % 10) out,
  scan_from-emit f (n / 10) ((b'0' + n % 10) ∷ out),
)

-- The first digit of a positive number is none of `0`, a sign or a space.
abbrev IsHead : Bytes → Type 0
IsHead [] = ⊥
IsHead (c ∷ s) = (b'1' ≤ c) × (c ≤ b'9')

emit-IsHead : (f n : ℕ) (out : Bytes) → n < f → 0 < n → IsHead (emit f n out)
unfolding emit
emit-IsHead zero n out h p = absurd (omega arith)
emit-IsHead (suc f) n out h p = elim (Bool-cases (ltb n 10)) [
  | inl e ↦ rw e (ground arith)
  | inr e ↦ rw e (emit-IsHead f (n / 10) ((b'0' + n % 10) ∷ out) (ground arith) (ground arith))
]

-- Decimal digits are read in base 10, as the number that they spell from 0 on.
strtoull-IsHead :
    (s : Bytes) (n : ℕ) → IsHead s → scan_from 10 0 s ≡ n → n < 2 ^ 64 → strtoull s ≡ some n
unfolding strtoull scan_from
strtoull-IsHead [] n p e h = elim p [ ]
strtoull-IsHead (c ∷ s) n p e h = ground arith

-- A lone `0` is read in base 8.
strtoull-zero : (s : Bytes) → Stops s → strtoull (b'0' ∷ s) ≡ some 0
unfolding strtoull
strtoull-zero [] h = refl
strtoull-zero (c ∷ []) h = ground arith
strtoull-zero (c ∷ d ∷ s) h = ground arith

print_nat-append : (n : ℕ) (s : Bytes) → print_nat n ++ s ≡ emit (suc n) n s
unfolding print_nat
print_nat-append n s = sym (emit-append (suc n) n [] s)

strtoull-emit :
    (n : ℕ) (s : Bytes) → 0 < n → n < 2 ^ 64 → Stops s → strtoull (emit (suc n) n s) ≡ some n
strtoull-emit n s p h stop =
    strtoull-IsHead (emit (suc n) n s) n (emit-IsHead (suc n) n s (omega arith) p)
      (scan_from-emit (suc n) n s (omega arith) ∙ scan_from-Stops 10 n s (omega arith) stop) h

-- A number below 2^64 that `%zu` writes is read back, up to the first byte that is no digit.
pub strtoull-print_nat :
    (n : ℕ) (s : Bytes) → n < 2 ^ 64 → Stops s → strtoull (print_nat n ++ s) ≡ some n
strtoull-print_nat zero s h stop = unfold print_nat in strtoull-zero s stop
strtoull-print_nat (suc n) s h stop =
    rw print_nat-append (strtoull-emit (suc n) s (omega arith) h stop)

-- A minus sign negates the digits that follow it.
strtoull-minus :
    (s : Bytes) (n : ℕ)
    → IsHead s
    → scan_from 10 0 s ≡ n
    → 0 < n
    → n < 2 ^ 64
    → strtoull (b'-' ∷ s) ≡ some (2 ^ 64 - n)
unfolding strtoull scan_from
strtoull-minus [] n p e q h = elim p [ ]
strtoull-minus (c ∷ s) n p e q h = ground arith

-- The value that `strtoull` reads for an integer: negative ones stand at the top of the range.
abbrev pub unsigned_of : ℤ → ℕ
unsigned_of (pos n) = n
unsigned_of (negsuc n) = 2 ^ 64 - (n + 1)

abbrev nat_abs : ℤ → ℕ
nat_abs (pos n) = n
nat_abs (negsuc n) = n + 1

-- What `%d` or `%ld` writes is read back as the `unsigned long long` of that value.
pub strtoull-print_int :
    (z : ℤ) (s : Bytes)
    → nat_abs z < 2 ^ 64
    → Stops s
    → strtoull (print_int z ++ s) ≡ some (unsigned_of z)
unfolding print_int
strtoull-print_int (pos n) s h stop = strtoull-print_nat n s h stop
strtoull-print_int (negsuc n) s h stop = rw print_nat-append (
    strtoull-minus (emit (suc (n + 1)) (n + 1) s) (n + 1)
      (emit-IsHead (suc (n + 1)) (n + 1) s (omega arith) (omega arith))
      (scan_from-emit (suc (n + 1)) (n + 1) s (omega arith)
        ∙ scan_from-Stops 10 (n + 1) s (omega arith) stop)
      (omega arith) h)

nat_abs-int32 : (n : ℕ) → nat_abs (int32 n) < 2 ^ 64
unfolding int32
nat_abs-int32 n = ground arith

nat_abs-int64 : (n : ℕ) → nat_abs (int64 n) < 2 ^ 64
unfolding int64
nat_abs-int64 n = ground arith

unsigned_of-int32 : (n : ℕ) → n < 2 ^ 32 → u32 (unsigned_of (int32 n)) ≡ n
unfolding int32
unsigned_of-int32 n h = ground arith

unsigned_of-int64 : (n : ℕ) → n < 2 ^ 64 → unsigned_of (int64 n) ≡ n
unfolding int64
unsigned_of-int64 n h = ground arith

-- An `unsigned` that is printed as an `int` is read back.
pub strtoull-print_int32 :
    (n : ℕ) (s : Bytes)
    → n < 2 ^ 32
    → Stops s
    → (v : ℕ) × (strtoull (print_int (int32 n) ++ s) ≡ some v) × (u32 v ≡ n)
strtoull-print_int32 n s h stop = (
  unsigned_of (int32 n),
  strtoull-print_int (int32 n) s (nat_abs-int32 n) stop,
  unsigned_of-int32 n h,
)

-- A `size_t` that is printed as a `long` is read back.
pub strtoull-print_int64 :
    (n : ℕ) (s : Bytes) → n < 2 ^ 64 → Stops s → strtoull (print_int (int64 n) ++ s) ≡ some n
strtoull-print_int64 n s h stop =
    strtoull-print_int (int64 n) s (nat_abs-int64 n) stop ∙ ap some (unsigned_of-int64 n h)

-- A whole text that is a printed number.
pub strtoull_number : (k : ℕ) → k < 2 ^ 64 → strtoull (print_nat k) ≡ some k
strtoull_number k h = rw (sym (append-nil (print_nat k)), strtoull-print_nat k [] h tt)
