-- ===== src/Libc/Format.antt =====
-- `snprintf` into a buffer.
use lau_sim.Base.{ℕ, zero, suc, [], ◌∷◌, Bytes}

-- The text that a buffer of `n + 1` bytes keeps.
unfoldable pub print_into : ℕ → Bytes → Bytes
print_into zero s = []
print_into (suc n) [] = []
print_into (suc n) (c ∷ s) = c ∷ print_into n s
