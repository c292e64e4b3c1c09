-- ===== src/Libc/Text.antt =====
-- `getline`, `strchr`, `strstr` and `strtok` as the sources use them.
use lau_sim.Base.{
  ℕ, ◌≡◌, ◌≢◌, refl, sym, ◌∙◌, inl, inr, Bool-cases, Bool, true, false, ◌&&◌, ◌||◌, List, [], ◌∷◌,
  ◌++◌, Option, none, some, arith, Bytes, ◌==◌, if◌then◌else◌, All,
}
use mathlib.Core.List.{flatten}

-- What the C string functions see of a line: all up to the first NUL.
unfoldable pub c_str : Bytes → Bytes
c_str [] = []
c_str (c ∷ s) = if c == 0 then [] else c ∷ c_str s

-- A byte put in front of a text that is cut into lines.
unfoldable pub push_line : ℕ → List Bytes → List Bytes
push_line c [] = (c ∷ []) ∷ []
push_line c (l ∷ ls) = (c ∷ l) ∷ ls

-- The results of `getline`, one after the other, up to the end of the file: a line keeps its '\n',
-- and the last one may have none.
unfoldable pub lines : Bytes → List Bytes
unfolding push_line
lines [] = []
lines (c ∷ s) = let rest = lines s in if c == b'\n' then (c ∷ []) ∷ rest else push_line c rest

-- `strchr (s, c)`, with the text before the found byte and the text behind it.
unfoldable pub strchr : Bytes → ℕ → Option (Bytes × Bytes)
strchr [] c = none
strchr (x ∷ s) c =
    let rest = strchr s c in
    if x == c then some ([], s) else elim rest [ none ↦ none | some (a, b) ↦ some (x ∷ a, b) ]

unfoldable pub starts_with : Bytes → Bytes → Bool
starts_with s [] = true
starts_with [] (p ∷ ps) = false
starts_with (c ∷ s) (p ∷ ps) = c == p && starts_with s ps

-- `strstr (s, p) != NULL`
unfoldable pub strstr : Bytes → Bytes → Bool
unfolding starts_with
strstr [] p = starts_with [] p
strstr (c ∷ s) p = starts_with (c ∷ s) p || strstr s p

-- `strcmp (s, t) == 0`
unfoldable pub str_eq : Bytes → Bytes → Bool
str_eq [] [] = true
str_eq (c ∷ s) (d ∷ t) = c == d && str_eq s t
str_eq [] (d ∷ t) = false
str_eq (c ∷ s) [] = false

pub str_eq_refl : (s : Bytes) → str_eq s s ≡ true
unfolding str_eq
str_eq_refl [] = refl
str_eq_refl (c ∷ s) = ground (arith, str_eq_refl s)

pub str_eq→eq : (s t : Bytes) → str_eq s t ≡ true → s ≡ t
unfolding str_eq
str_eq→eq [] [] h = refl
str_eq→eq [] (d ∷ t) h = cc
str_eq→eq (c ∷ s) [] h = cc
str_eq→eq (c ∷ s) (d ∷ t) h =
    let head : c ≡ d = ground arith in
    let tail = str_eq→eq s t (ground arith) in λ i. head i ∷ tail i

pub str_eq_ne : (s t : Bytes) → str_eq s t ≡ false → s ≢ t
str_eq_ne s t h e = cc (str_eq_refl s)

pub str_eq-apart : (a b r : Bytes) → a ≢ b → str_eq r b ≡ true → str_eq r a ≡ false
str_eq-apart a b r ne same = elim (Bool-cases (str_eq r a)) [
  | inl both ↦ absurd (ne (sym (str_eq→eq r a both) ∙ str_eq→eq r b same))
  | inr other ↦ other
]

unfoldable pub one_of : ℕ → Bytes → Bool
one_of c [] = false
one_of c (d ∷ ds) = c == d || one_of c ds

-- `strtok` returns no empty token.
unfoldable pub push_token : Bytes → List Bytes → List Bytes
push_token [] ts = ts
push_token (c ∷ t) ts = (c ∷ t) ∷ ts

-- The bytes before the first delimiter, and the tokens behind it.
unfoldable pub cut_tokens : Bytes → Bytes → Bytes × List Bytes
unfolding one_of push_token
cut_tokens ds [] = ([], [])
cut_tokens ds (c ∷ s) =
    let (t, ts) = cut_tokens ds s in if one_of c ds then ([], push_token t ts) else (c ∷ t, ts)

-- The results of `strtok (s, ds)`, `strtok (NULL, ds)`, … up to the first NULL.
unfoldable pub tokens : Bytes → Bytes → List Bytes
unfolding cut_tokens
tokens ds s = let (t, ts) = cut_tokens ds s in push_token t ts

-- The lines hold the whole file, in order.
pub flatten-lines : (s : Bytes) → flatten (lines s) ≡ s
unfolding lines flatten
flatten-lines [] = refl
flatten-lines (c ∷ s) = ground (arith, flatten-lines s)

-- A text that holds none of the bytes of `ds`.
abbrev pub Lacks : Bytes → Bytes → Type 0
Lacks ds = All (λ c. one_of c ds ≡ false)

-- A line that ends in '\n' is the first result of `getline`.
pub lines-line :
    (l s : Bytes) → Lacks (b'\n' ∷ []) l → lines (l ++ b'\n' ∷ s) ≡ (l ++ b'\n' ∷ []) ∷ lines s
unfolding lines one_of
lines-line [] s h = refl
lines-line (c ∷ l) s (hc, h) = ground (arith, lines-line l s h)

pub c_str_lem : (s : Bytes) → Lacks (0 ∷ []) s → c_str s ≡ s
unfolding c_str one_of
c_str_lem [] h = refl
c_str_lem (c ∷ s) (hc, h) = ground (arith, c_str_lem s h)

-- The first separator is found.
pub strchr-append : (a b : Bytes) (c : ℕ) → Lacks (c ∷ []) a → strchr (a ++ c ∷ b) c ≡ some (a, b)
unfolding strchr one_of
strchr-append [] b c h = ground arith
strchr-append (x ∷ a) b c (hx, h) = ground (arith, strchr-append a b c h)

starts_with-Lacks :
    (s p : Bytes) (c : ℕ) → one_of c p ≡ true → Lacks (c ∷ []) s → starts_with s p ≡ false
unfolding starts_with one_of
starts_with-Lacks s [] c hp h = cc
starts_with-Lacks [] (y ∷ p) c hp h = refl
starts_with-Lacks (x ∷ s) (y ∷ p) c hp (hx, h) = ground (arith, starts_with-Lacks s p c)

-- A text that lacks a byte of a pattern does not hold the pattern.
pub strstr-Lacks : (s p : Bytes) (c : ℕ) → one_of c p ≡ true → Lacks (c ∷ []) s → strstr s p ≡ false
unfolding strstr
strstr-Lacks [] p c hp h = starts_with-Lacks [] p c hp h
strstr-Lacks (x ∷ s) p c hp (hx, h) =
    ground (arith, starts_with-Lacks (x ∷ s) p c hp (hx, h), strstr-Lacks s p c hp h)

cut_tokens-append :
    (ds t s : Bytes) (d : ℕ)
    → Lacks ds t
    → one_of d ds ≡ true
    → cut_tokens ds (t ++ d ∷ s) ≡ (t, tokens ds s)
unfolding tokens cut_tokens
cut_tokens-append ds [] s d h hd = rw hd
cut_tokens-append ds (c ∷ t) s d (hc, h) hd = rw (hc, cut_tokens-append ds t s d h hd)

-- A word before a delimiter is the next token.
pub tokens-append :
    (ds t s : Bytes) (d : ℕ)
    → t ≢ []
    → Lacks ds t
    → one_of d ds ≡ true
    → tokens ds (t ++ d ∷ s) ≡ t ∷ tokens ds s
tokens-append ds [] s d ne h hd = absurd (ne refl)
tokens-append ds (c ∷ t) s d ne h hd =
    unfold tokens push_token in rw (cut_tokens-append ds (c ∷ t) s d h hd)

cut_tokens-word : (ds t : Bytes) → Lacks ds t → cut_tokens ds t ≡ (t, [])
unfolding cut_tokens
cut_tokens-word ds [] h = refl
cut_tokens-word ds (c ∷ t) (hc, h) = rw (hc, cut_tokens-word ds t h)

-- A last word has no delimiter behind it.
pub tokens-word : (ds t : Bytes) → t ≢ [] → Lacks ds t → tokens ds t ≡ t ∷ []
tokens-word ds [] ne h = absurd (ne refl)
tokens-word ds (c ∷ t) ne h = unfold tokens push_token in rw (cut_tokens-word ds (c ∷ t) h)
