-- ===== src/Libc/Number/Scan.antt =====
-- `strtoull (s, &end, 0)` and its kin: leading space, a sign, the base by the prefix, the digits up
-- to the first byte that is none, and the value at the limit if it does not fit.
use lau_sim.Base.{
  ℕ, ◌+◌, ◌-◌, ◌*◌, ◌%◌, ◌^◌, Bool, true, false, ◌&&◌, ◌||◌, [], ◌∷◌, Bytes, codes, ltb, leb, ◌==◌,
  if◌then◌else◌, Option, none, some, ℤ, pos, negsuc, ◌≡◌, refl,
}
use mathlib.Core.Option

-- The value of a digit in any base up to 36; 255 for any other byte.
unfoldable pub digit : ℕ → ℕ
digit c =
    if leb b'0' c && leb c b'9'
    then c - b'0'
    else if leb b'a' c && leb c b'z'
    then c - b'a' + 10
    else if leb b'A' c && leb c b'Z'
    then c - b'A' + 10
    else 255

unfoldable pub is_space : ℕ → Bool
is_space c = c == b' ' || leb 9 c && leb c 13

unfoldable pub skip_space : Bytes → Bytes
unfolding is_space
skip_space [] = []
skip_space (c ∷ s) = let rest = skip_space s in if is_space c then rest else c ∷ s

unfoldable pub scan_from : ℕ → ℕ → Bytes → ℕ
scan_from base v [] = v
scan_from base v (c ∷ s) =
    let more = scan_from base (v * base + digit c) s in if ltb (digit c) base then more else v

-- `none` where there is no digit.
unfoldable pub scan : ℕ → Bytes → Option ℕ
unfolding scan_from digit
scan base [] = none
scan base (c ∷ s) = if ltb (digit c) base then some (scan_from base (digit c) s) else none

-- `0x` is a prefix only before a hexadecimal digit.
unfoldable pub hex_body : Bytes → Option Bytes
unfolding digit
hex_body (x ∷ d ∷ s) = if (x == b'x' || x == b'X') && ltb (digit d) 16 then some (d ∷ s) else none
hex_body _ = none

-- Base 0: 16 behind `0x`, 8 behind `0`, else 10.
unfoldable pub magnitude : Bytes → Option ℕ
unfolding scan hex_body
magnitude [] = none
magnitude (c ∷ s) =
    if c == b'0'
    then elim (hex_body s) [ some h ↦ scan 16 h | none ↦ scan 8 (c ∷ s) ]
    else scan 10 (c ∷ s)

-- The sign (true for `-`), and the number behind it.
unfoldable pub signed : Bytes → Option (Bool × ℕ)
unfolding magnitude
signed [] = none
signed (c ∷ s) =
    if c == b'-'
    then Option.map (λ v. (true, v)) (magnitude s)
    else if c == b'+'
    then Option.map (λ v. (false, v)) (magnitude s)
    else Option.map (λ v. (false, v)) (magnitude (c ∷ s))

-- `-` negates in the unsigned type; what does not fit is ULLONG_MAX.
unfoldable pub unsigned_value : Bool → ℕ → ℕ
unsigned_value neg v =
    if leb (2 ^ 64) v then 2 ^ 64 - 1 else if neg then (2 ^ 64 - v) % 2 ^ 64 else v

-- `none`: no conversion, the value is 0 and `end` is the start. `unsigned long` has 64 bits, so
-- `strtoul` is the same function.
unfoldable pub strtoull : Bytes → Option ℕ
unfolding skip_space signed unsigned_value
strtoull s = Option.map (λ (neg, v). unsigned_value neg v) (signed (skip_space s))

unfoldable pub signed_value : Bool → ℕ → ℤ
signed_value true v =
    if v == 0 then pos 0 else if ltb (2 ^ 63) v then negsuc (2 ^ 63 - 1) else negsuc (v - 1)
signed_value false v = if leb (2 ^ 63) v then pos (2 ^ 63 - 1) else pos v

-- `none` as above.
unfoldable pub strtol : Bytes → Option ℤ
unfolding skip_space signed signed_value
strtol s = Option.map (λ (neg, v). signed_value neg v) (signed (skip_space s))

-- The sign and the number in base 10.
unfoldable pub decimal : Bytes → Option (Bool × ℕ)
unfolding scan
decimal [] = none
decimal (c ∷ s) =
    if c == b'-'
    then Option.map (λ v. (true, v)) (scan 10 s)
    else if c == b'+'
    then Option.map (λ v. (false, v)) (scan 10 s)
    else Option.map (λ v. (false, v)) (scan 10 (c ∷ s))

-- The number, if 64 bits are enough for it.
unfoldable pub in_range : Bool × ℕ → Option ℕ
unfolding unsigned_value
in_range (neg, v) = if ltb v (2 ^ 64) then some (unsigned_value neg v) else none

-- `std::stoul (s)`; `none` is an exception: there is no number, or it does not fit.
unfoldable pub stoul : Bytes → Option ℕ
unfolding skip_space decimal in_range
stoul s = elim (decimal (skip_space s)) [ none ↦ none | some n ↦ in_range n ]

-- The value of a call whose `end` is not read.
abbrev pub or_zero : Option ℕ → ℕ
or_zero none = 0
or_zero (some v) = v

abbrev pub int_or_zero : Option ℤ → ℤ
int_or_zero none = pos 0
int_or_zero (some v) = v

scan_bases :
    (strtoull (codes " 0x1F,") ≡ some 31)
    × (strtoull (codes "017]") ≡ some 15)
    × (strtoull (codes "42\n") ≡ some 42)
    × (strtoull (codes "0x]") ≡ some 0)
    × (strtoull (codes "[tic") ≡ none)
    × (strtoull (codes "-1") ≡ some 18446744073709551615)
unfolding strtoull
scan_bases = (refl, refl, refl, refl, refl, refl)
