-- ===== src/Base/Bits.antt =====
-- Masks: what `&` and `|` of native numbers do to sets of flags.
use Prim.Native.Nat.{
  ℕ, zero, suc, ◌+◌, ◌*◌, ◌/◌, ◌%◌, ◌≤◌, min, max, bit_and, bit_or, digits, bit_and-bitwise,
  bit_or-bitwise,
}
use mathlib.Core.Path.{◌≡◌, refl, ap}
use mathlib.Core.Logic.{◌⊎◌}
use native.Mathlib.Omega.{arith}

module _ (f : ℕ → ℕ) (g : ℕ → ℕ → ℕ) where
  digits-zero : (k b : ℕ) → digits f g k 0 b ≡ f b
  digits-zero zero b = refl
  digits-zero (suc k) b = refl

  -- The digits do not depend on the rounds, if these are enough.
  digits_rounds : (k n a b : ℕ) → a ≤ k → a ≤ n → digits f g k a b ≡ digits f g n a b
  digits_rounds k n zero b h l = omega (arith, digits-zero k b, digits-zero n b)
  digits_rounds zero n (suc a) b h l = absurd (omega arith)
  digits_rounds (suc k) zero (suc a) b h l = absurd (omega arith)
  digits_rounds (suc k) (suc n) (suc a) b h l =
      omega (arith, digits_rounds k n (suc a / 2) (b / 2) (omega arith) (omega arith))

  -- The lowest digit of a number that has one.
  digits-suc :
      (a b : ℕ)
      → digits f g (suc a) (suc a) b
        ≡ digits f g (suc a / 2) (suc a / 2) (b / 2) * 2 + g (suc a % 2) (b % 2)
  digits-suc a b =
      omega (arith, digits_rounds a (suc a / 2) (suc a / 2) (b / 2) (omega arith) (omega arith))

zero-bit_and : (b : ℕ) → bit_and 0 b ≡ 0
zero-bit_and b = bit_and-bitwise 0 b

zero-bit_or : (b : ℕ) → bit_or 0 b ≡ b
zero-bit_or b = bit_or-bitwise 0 b

bit_and_halves : (a b : ℕ) → bit_and a b ≡ bit_and (a / 2) (b / 2) * 2 + min (a % 2) (b % 2)
bit_and_halves zero b = omega (arith, zero-bit_and b, zero-bit_and (b / 2))
bit_and_halves (suc a) b = omega (
  arith,
  bit_and-bitwise (suc a) b,
  bit_and-bitwise (suc a / 2) (b / 2),
  digits-suc (λ _. zero) min a b,
)

bit_or_halves : (a b : ℕ) → bit_or a b ≡ bit_or (a / 2) (b / 2) * 2 + max (a % 2) (b % 2)
bit_or_halves zero b = omega (arith, zero-bit_or b, zero-bit_or (b / 2))
bit_or_halves (suc a) b = omega (
  arith,
  bit_or-bitwise (suc a) b,
  bit_or-bitwise (suc a / 2) (b / 2),
  digits-suc (λ b. b) max a b,
)

-- All flags of `r` are flags of `t`.
abbrev pub IsWithin : ℕ → ℕ → Type 0
IsWithin t r = bit_and t r ≡ r

halves-IsWithin :
    (t r : ℕ) → IsWithin t r → IsWithin (t / 2) (r / 2) × (min (t % 2) (r % 2) ≡ r % 2)
halves-IsWithin t r h = omega (arith, bit_and_halves t r)

or_rounds-IsWithin :
    (k t r s : ℕ) → r ≤ k → s ≤ k → IsWithin t r → IsWithin t s → IsWithin t (bit_or r s)
or_rounds-IsWithin zero t zero s hr hs h l = rw (zero-bit_or s) l
or_rounds-IsWithin zero t (suc r) s hr hs h l = absurd (omega arith)
or_rounds-IsWithin (suc k) t r s hr hs h l =
    let (h₁, h₂) = halves-IsWithin t r h in
    let (l₁, l₂) = halves-IsWithin t s l in
    let rest : IsWithin (t / 2) (bit_or (r / 2) (s / 2)) =
      or_rounds-IsWithin k (t / 2) (r / 2) (s / 2) (omega arith) (omega arith) h₁ l₁ in
    let half : bit_or r s / 2 ≡ bit_or (r / 2) (s / 2) = omega (arith, bit_or_halves r s) in
    omega (
      arith,
      bit_and_halves t (bit_or r s),
      bit_or_halves r s,
      ap (bit_and (t / 2)) half,
      rest,
      h₂,
      l₂,
    )

-- Two sets of flags within `t` are within it together.
pub bit_or-IsWithin : (t r s : ℕ) → IsWithin t r → IsWithin t s → IsWithin t (bit_or r s)
bit_or-IsWithin t r s h l = or_rounds-IsWithin (r + s) t r s (omega arith) (omega arith) h l

and_rounds-zero : (k a : ℕ) → a ≤ k → bit_and a 0 ≡ 0
and_rounds-zero k zero h = zero-bit_and 0
and_rounds-zero zero (suc a) h = absurd (omega arith)
and_rounds-zero (suc k) (suc a) h =
    omega (arith, bit_and_halves (suc a) 0, and_rounds-zero k (suc a / 2) (omega arith))

-- The empty set of flags.
pub zero-IsWithin : (t : ℕ) → IsWithin t 0
zero-IsWithin t = and_rounds-zero t t (omega arith)

bit_and-one : (a : ℕ) → bit_and a 1 ≡ a % 2
bit_and-one a = omega (arith, bit_and_halves a 1, zero-IsWithin (a / 2))

-- A flag stands alone: what `&` leaves of it is nothing or all.
pub one-flag : (a : ℕ) → (bit_and a 1 ≡ 0) ⊎ (bit_and a 1 ≡ 1)
one-flag a = ground (arith, bit_and-one a)

pub double-flag :
    (f : ℕ)
    → ((a : ℕ) → (bit_and a f ≡ 0) ⊎ (bit_and a f ≡ f))
    → (a : ℕ) → (bit_and a (2 * f) ≡ 0) ⊎ (bit_and a (2 * f) ≡ 2 * f)
double-flag f h a =
    let half : 2 * f / 2 ≡ f = omega arith in
    ground (arith, h (a / 2), bit_and_halves a (2 * f), ap (bit_and (a / 2)) half)

keep_rounds : (k r s f : ℕ) → f ≤ k → IsWithin r f → IsWithin (bit_or r s) f
keep_rounds k r s zero hf h = zero-IsWithin (bit_or r s)
keep_rounds zero r s (suc f) hf h = absurd (omega arith)
keep_rounds (suc k) r s (suc f) hf h =
    let (h₁, h₂) = halves-IsWithin r (suc f) h in
    let rest = keep_rounds k (r / 2) (s / 2) (suc f / 2) (omega arith) h₁ in
    let half : bit_or r s / 2 ≡ bit_or (r / 2) (s / 2) = omega (arith, bit_or_halves r s) in
    omega (
      arith,
      bit_and_halves (bit_or r s) (suc f),
      bit_or_halves r s,
      ap (λ x. bit_and x (suc f / 2)) half,
      rest,
      h₂,
    )

-- A flag that is there stays, whatever is added.
pub bit_or-keep : (r s f : ℕ) → IsWithin r f → IsWithin (bit_or r s) f
bit_or-keep r s f h = keep_rounds f r s f (omega arith) h

add_rounds : (k r f : ℕ) → f ≤ k → IsWithin (bit_or r f) f
add_rounds k r zero hf = zero-IsWithin (bit_or r zero)
add_rounds zero r (suc f) hf = absurd (omega arith)
add_rounds (suc k) r (suc f) hf =
    let rest = add_rounds k (r / 2) (suc f / 2) (omega arith) in
    let half : bit_or r (suc f) / 2 ≡ bit_or (r / 2) (suc f / 2) =
      omega (arith, bit_or_halves r (suc f)) in
    omega (
      arith,
      bit_and_halves (bit_or r (suc f)) (suc f),
      bit_or_halves r (suc f),
      ap (λ x. bit_and x (suc f / 2)) half,
      rest,
    )

-- A flag that is added is there.
pub bit_or-added : (r f : ℕ) → IsWithin (bit_or r f) f
bit_or-added r f = add_rounds f r f (omega arith)
