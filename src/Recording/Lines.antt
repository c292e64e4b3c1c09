-- ===== src/Recording/Lines.antt =====
-- The lines of a recording are taken off by `getline` whole, and are C strings.
use lau_sim.Base.{
  ℕ, ◌+◌, ◌==◌, false, arith, length, length-append, ◌≡◌, refl, sym, ap, ◌∙◌, [], ◌∷◌, ◌++◌,
  append-nil, Bytes, All-append,
}
use lau_sim.Libc.Text.{Lacks, one_of, lines, lines-line, c_str, c_str_lem}
use lau_sim.Recording.Format.{IsName}
use lau_sim.Recording.Names.{IsName-newline, IsName-nul}

-- No end of a line, and no NUL.
abbrev pub IsLine : Bytes → Type 0
IsLine s = Lacks (b'\n' ∷ []) s × Lacks (0 ∷ []) s

pub IsName-IsLine : (s : Bytes) → IsName s → IsLine s
IsName-IsLine s h = (IsName-newline s h, IsName-nul s h)

pub append-IsLine : (s t : Bytes) → IsLine s → IsLine t → IsLine (s ++ t)
append-IsLine s t (h, k) (h', k') = (All-append _ s t h h', All-append _ s t k k')

pub comma-IsLine : (s t : Bytes) → IsLine s → IsLine t → IsLine (s ++ b',' ∷ t)
comma-IsLine s t h (h', k') =
    append-IsLine s (b',' ∷ t) h ((unfold one_of in refl, h'), (unfold one_of in refl, k'))

-- A text that is one line.
abbrev pub IsPrinted : Bytes → Type 0
IsPrinted p = (b : Bytes) × ((s : Bytes) → p ++ s ≡ b ++ b'\n' ∷ s) × IsLine b

printed_lem : (p : Bytes) (h : IsPrinted p) → p ≡ h.0 ++ b'\n' ∷ []
printed_lem p (b, e, _) = sym (append-nil p) ∙ e []

pub lines-printed : (p s : Bytes) → IsPrinted p → lines (p ++ s) ≡ p ∷ lines s
lines-printed p s (b, e, (h, k)) =
    ap lines (e s) ∙ lines-line b s h ∙ ap (λ l. l ∷ lines s) (sym (printed_lem p (b, e, (h, k))))

pub c_str-printed : (p : Bytes) → IsPrinted p → c_str p ≡ p
c_str-printed p (b, e, (h, k)) =
    rw (printed_lem p (b, e, (h, k)))
      (c_str_lem (b ++ b'\n' ∷ []) (All-append _ b (b'\n' ∷ []) k (unfold one_of in refl, tt)))

suc-ne-zero : (k n : ℕ) → k ≡ n + 1 → (k == 0) ≡ false
suc-ne-zero k n e = ground arith

-- `getline` has not returned 0.
pub length-printed : (p : Bytes) → IsPrinted p → (length p == 0) ≡ false
length-printed p h =
    suc-ne-zero (length p) (length h.0)
      (ap length (printed_lem p h) ∙ length-append h.0 (b'\n' ∷ []))
