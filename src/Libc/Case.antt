-- ===== src/Libc/Case.antt =====
-- `strcasecmp` in the C locale.
use lau_sim.Base.{ℕ, ◌+◌, Bool, ◌&&◌, map, Bytes, leb, if◌then◌else◌}
use lau_sim.Libc.Text.{str_eq}

unfoldable pub to_lower : ℕ → ℕ
to_lower c = if leb b'A' c && leb c b'Z' then c + 32 else c

-- `strcasecmp (s, t) == 0`
unfoldable pub strcase_eq : Bytes → Bytes → Bool
unfolding to_lower str_eq
strcase_eq s t = str_eq (map to_lower s) (map to_lower t)
