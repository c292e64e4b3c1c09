-- ===== src/Libc/Number/Print.antt =====
-- `%u`, `%zu`, `%d` and `%ld`.
use lau_sim.Base.{
  ◌-◌, ℕ, zero, suc, ◌+◌, ◌/◌, ◌%◌, [], ◌∷◌, Bytes, codes, ltb, if◌then◌else◌, ℤ, pos, negsuc, ◌≡◌,
  refl,
}

-- Writes the digits of `n` before `out`; each round writes the last one. A number has fewer digits
-- than rounds given if it is below their number.
unfoldable pub emit : ℕ → ℕ → Bytes → Bytes
emit zero n out = out
emit (suc f) n out =
    let more = emit f (n / 10) ((b'0' + n % 10) ∷ out) in
    if ltb n 10 then (b'0' + n) ∷ out else more

-- `%u` and `%zu`
unfoldable pub print_nat : ℕ → Bytes
unfolding emit
print_nat n = emit (suc n) n []

-- `%d` and `%ld`
unfoldable pub print_int : ℤ → Bytes
unfolding print_nat
print_int (pos n) = print_nat n
print_int (negsuc n) = b'-' ∷ print_nat (n + 1)

print_zero : print_nat 0 ≡ codes "0"
unfolding print_nat
print_zero = refl

print_many : print_nat 18446744073709551615 ≡ codes "18446744073709551615"
unfolding print_nat
print_many = refl

print_minus : print_int (negsuc 41) ≡ codes "-42"
unfolding print_int
print_minus = refl

unfoldable pub hex_digit : ℕ → ℕ
hex_digit d = if ltb d 10 then b'0' + d else b'a' + (d - 10)

unfoldable pub emit_hex : ℕ → ℕ → Bytes → Bytes
unfolding hex_digit
emit_hex zero n out = out
emit_hex (suc f) n out =
    let more = emit_hex f (n / 16) (hex_digit (n % 16) ∷ out) in
    if ltb n 16 then hex_digit n ∷ out else more

-- `std::hex`
unfoldable pub print_hex : ℕ → Bytes
unfolding emit_hex
print_hex n = emit_hex (suc n) n []

print_hex_byte : print_hex 0xbeef ≡ codes "beef"
unfolding print_hex
print_hex_byte = refl
