-- ===== src/Main/Table.antt =====
-- srv/main.cpp: the table of the plugins that goes to the log before the first tic.
use mathlib.Core.Path.{subst, sym}
use lau_sim.Base.{
  false, ℕ, zero, suc, ◌+◌, ◌-◌, ◌≤◌, ◌≡◌, refl, ap, ◌∙◌, List, [], ◌∷◌, ◌++◌, length,
  length-append, Bytes, codes, ltb, ◌==◌, if◌then◌else◌, bit_and, map, All, arith,
}
use lau_sim.Libc.Format.{print_into}
use lau_sim.FaultManager.{Run, ok, undefined}
use lau_sim.PluginManager.{
  Entry, has_pl_type, pl_com_actor, pl_com_extern, pl_fault_manager, pl_logger, pl_topology,
  pl_other,
}

-- `num - 1` rounds, each of which compares the length of the first name with `max_name_len`.
unfoldable pub widen : ℕ → List Entry → ℕ → ℕ
widen first [] max_name_len = max_name_len
widen first (e ∷ es) max_name_len =
    widen first es (if ltb max_name_len first then first else max_name_len)

-- `%-*s`
unfoldable pub spaces : ℕ → Bytes
spaces zero = []
spaces (suc n) = b' ' ∷ spaces n

unfoldable pub print_left : ℕ → Bytes → Bytes
unfolding spaces
print_left width s = s ++ spaces (width - length s)

-- The two letters for a role, behind a space.
unfoldable pub print_role : Entry → ℕ → Bytes
print_role e role =
    b' '
    ∷ (if has_pl_type e.pl role then b'A' else b'-')
    ∷ (if bit_and e.role role == 0 then b'-' else b'U')
    ∷ []

unfoldable pub print_roles : Entry → List ℕ → Bytes
unfolding print_role
print_roles e [] = []
print_roles e (r ∷ rs) = print_role e r ++ print_roles e rs

abbrev pub roles : List ℕ
roles = pl_com_actor ∷ pl_com_extern ∷ pl_fault_manager ∷ pl_logger ∷ pl_topology ∷ pl_other ∷ []

unfoldable pub print_row : ℕ → Entry → Bytes
unfolding print_left print_roles print_into
print_row width e = print_into 510 (print_left width e.pl.name ++ print_roles e roles)

unfoldable pub print_header : ℕ → Bytes
unfolding print_left print_into
print_header width = print_into 510 (print_left width (codes "Name") ++ codes " CA CE MA LO TO OT")

-- The lines of the table; without a plugin `loaded[0]` is read behind the end.
unfoldable pub table : List Entry → Run (List Bytes)
unfolding widen print_header print_row
table [] = undefined
table (e ∷ es) =
    let width = widen (length e.pl.name) es (length e.pl.name) in
    ok (print_header width ∷ map (print_row width) (e ∷ es))

widen_first : (n : ℕ) (es : List Entry) → widen n es n ≡ n
unfolding widen
widen_first n [] = refl
widen_first n (e ∷ es) = let same : ltb n n ≡ false = ground arith in rw same (widen_first n es)

length-spaces : (n : ℕ) → length (spaces n) ≡ n
unfolding spaces
length-spaces zero = refl
length-spaces (suc n) = ap suc (length-spaces n)

length-print_left : (w : ℕ) (s : Bytes) → length s ≤ w → length (print_left w s) ≡ w
unfolding print_left
length-print_left w s h =
    length-append s (spaces (w - length s)) ∙ omega (arith, length-spaces (w - length s))

length-print_into : (n : ℕ) (s : Bytes) → length s ≤ n → length (print_into n s) ≡ length s
unfolding print_into
length-print_into zero [] h = refl
length-print_into zero (c ∷ s) h = absurd (omega arith)
length-print_into (suc n) [] h = refl
length-print_into (suc n) (c ∷ s) h = ap suc (length-print_into n s (omega arith))

length-print_row :
    (w : ℕ) (e : Entry) → length e.pl.name ≤ w → w + 18 ≤ 510 → length (print_row w e) ≡ w + 18
unfolding print_row print_roles print_role
length-print_row w e h k =
    let len : length (print_left w e.pl.name ++ print_roles e roles) ≡ w + 18 =
      length-append (print_left w e.pl.name) (print_roles e roles)
      ∙ omega (arith, length-print_left w e.pl.name h) in
    length-print_into 510 _ (omega (arith, len)) ∙ len

length-print_header : (w : ℕ) → 4 ≤ w → w + 18 ≤ 510 → length (print_header w) ≡ w + 18
unfolding print_header
length-print_header w h k =
    let left : length (print_left w (codes "Name")) ≡ w = length-print_left w (codes "Name") h in
    let len : length (print_left w (codes "Name") ++ codes " CA CE MA LO TO OT") ≡ w + 18 =
      length-append (print_left w (codes "Name")) (codes " CA CE MA LO TO OT")
      ∙ omega (arith, left) in
    length-print_into 510 (print_left w (codes "Name") ++ codes " CA CE MA LO TO OT")
      (omega (arith, len))
    ∙ len

rows-IsAligned :
    (w : ℕ) (es : List Entry)
    → All (λ (e : Entry). length e.pl.name ≤ w) es
    → w + 18 ≤ 510
    → All (λ (l : Bytes). length l ≡ w + 18) (map (print_row w) es)
rows-IsAligned w [] h k = tt
rows-IsAligned w (e ∷ es) (he, h) k = (length-print_row w e he k, rows-IsAligned w es h k)

-- The table is a table if no name is longer than the first, which has 4 to 492 letters: then all its lines
-- have the same length.
pub table-IsAligned :
    (e : Entry) (es : List Entry)
    → 4 ≤ length e.pl.name
    → length e.pl.name ≤ 492
    → All (λ (x : Entry). length x.pl.name ≤ length e.pl.name) es
    → (ls : List Bytes) × (table (e ∷ es) ≡ ok ls)
      × All (λ (l : Bytes). length l ≡ length e.pl.name + 18) ls
unfolding table
table-IsAligned e es h k l =
    let w = length e.pl.name in
    (
      _,
      refl,
      subst
          (λ v.
            All (λ (x : Bytes). length x ≡ w + 18) (print_header v ∷ map (print_row v) (e ∷ es)))
          (sym (widen_first w es))
          (
            length-print_header w h (omega arith),
            rows-IsAligned w (e ∷ es) (omega arith, l) (omega arith),
          ),
    )
