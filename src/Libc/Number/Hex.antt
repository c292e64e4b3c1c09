-- ===== src/Libc/Number/Hex.antt =====
-- What `std::hex` writes behind `0x`, `strtoul` with base 0 reads.
use lau_sim.Base.{
  ℕ, zero, suc, ◌+◌, ◌*◌, ◌/◌, ◌%◌, ◌^◌, ◌<◌, ◌≡◌, refl, ◌∙◌, [], ◌∷◌, ◌++◌, some, arith, Bytes,
  ltb, lt→ltb, ltb→lt, Bool-cases, inl, inr, All, codes,
}
use lau_sim.Libc.Number.Print.{hex_digit, emit_hex, print_hex}
use lau_sim.Libc.Number.Scan.{digit, scan_from, strtoull}

digit-hex_digit : (d : ℕ) → d < 16 → digit (hex_digit d) ≡ d
unfolding digit hex_digit
digit-hex_digit d h = ground arith

scan_from-hex_digit :
    (v d : ℕ) (s : Bytes) → d < 16 → scan_from 16 v (hex_digit d ∷ s) ≡ scan_from 16 (v * 16 + d) s
unfolding scan_from
scan_from-hex_digit v d s h = rw (digit-hex_digit d h, lt→ltb d 16 h)

scan_from-emit_hex :
    (f n : ℕ) (out : Bytes) → n < f → scan_from 16 0 (emit_hex f n out) ≡ scan_from 16 n out
unfolding emit_hex
scan_from-emit_hex zero n out h = absurd (omega arith)
scan_from-emit_hex (suc f) n out h = ground (
  arith,
  scan_from-hex_digit 0 n out,
  scan_from-hex_digit (n / 16) (n % 16) out,
  scan_from-emit_hex f (n / 16) (hex_digit (n % 16) ∷ out),
)

abbrev IsHexHead : Bytes → Type 0
IsHexHead [] = ⊥
IsHexHead (c ∷ s) = digit c < 16

emit_hex-IsHexHead : (f n : ℕ) (out : Bytes) → n < f → IsHexHead (emit_hex f n out)
unfolding emit_hex
emit_hex-IsHexHead zero n out h = absurd (omega arith)
emit_hex-IsHexHead (suc f) n out h = elim (Bool-cases (ltb n 16)) [
  | inl e ↦ rw (e, digit-hex_digit n (ltb→lt n 16 e)) (ltb→lt n 16 e)
  | inr e ↦ rw e (emit_hex-IsHexHead f (n / 16) (hex_digit (n % 16) ∷ out) (ground arith))
]

strtoull-IsHexHead :
    (s : Bytes) (n : ℕ)
    → IsHexHead s
    → scan_from 16 0 s ≡ n
    → n < 2 ^ 64
    → strtoull (codes "0x" ++ s) ≡ some n
unfolding strtoull scan_from
strtoull-IsHexHead [] n p e h = elim p [ ]
strtoull-IsHexHead (c ∷ s) n p e h = ground (arith, lt→ltb (digit c) 16 p)

pub strtoull-print_hex : (n : ℕ) → n < 2 ^ 64 → strtoull (codes "0x" ++ print_hex n) ≡ some n
unfolding print_hex
strtoull-print_hex n h =
    strtoull-IsHexHead (emit_hex (suc n) n []) n (emit_hex-IsHexHead (suc n) n [] (omega arith))
      (scan_from-emit_hex (suc n) n [] (omega arith) ∙ unfold scan_from in refl) h

hex_digit-pos : (d : ℕ) → 0 < hex_digit d
unfolding hex_digit
hex_digit-pos d = ground arith

-- A printed number has no NUL.
emit_hex-ne-zero :
    (f n : ℕ) (out : Bytes) → All (λ c. 0 < c) out → All (λ c. 0 < c) (emit_hex f n out)
unfolding emit_hex
emit_hex-ne-zero zero n out h = h
emit_hex-ne-zero (suc f) n out h = elim (Bool-cases (ltb n 16)) [
  | inl e ↦ rw e (hex_digit-pos n, h)
  | inr e ↦
      rw e (emit_hex-ne-zero f (n / 16) (hex_digit (n % 16) ∷ out) (hex_digit-pos (n % 16), h))
]

pub print_hex-ne-zero : (n : ℕ) → All (λ c. 0 < c) (print_hex n)
unfolding print_hex
print_hex-ne-zero n = emit_hex-ne-zero (suc n) n [] tt
