-- ===== src/Recording/Names.antt =====
-- What the names and the numbers of a recording do not hold.
use lau_sim.Base.{ℕ, ◌≡◌, [], ◌∷◌, Bytes, codes, All, All-map, arith, false}
use lau_sim.Libc.Text.{Lacks, one_of}
use lau_sim.Libc.Number.Chars.{IsNumeric}
use lau_sim.Recording.Format.{reserved, IsName}

lacks_commas : (c : ℕ) → one_of c reserved ≡ false → one_of c (codes ",\n") ≡ false
unfolding one_of
lacks_commas c h = ground arith

lacks_comma : (c : ℕ) → one_of c reserved ≡ false → one_of c (b',' ∷ []) ≡ false
unfolding one_of
lacks_comma c h = ground arith

lacks_newline : (c : ℕ) → one_of c reserved ≡ false → one_of c (b'\n' ∷ []) ≡ false
unfolding one_of
lacks_newline c h = ground arith

lacks_nul : (c : ℕ) → one_of c reserved ≡ false → one_of c (0 ∷ []) ≡ false
unfolding one_of
lacks_nul c h = ground arith

lacks_hash : (c : ℕ) → one_of c reserved ≡ false → one_of c (b'#' ∷ []) ≡ false
unfolding one_of
lacks_hash c h = ground arith

lacks_reserved : (c : ℕ) → IsNumeric c → one_of c reserved ≡ false
unfolding one_of
lacks_reserved c h = ground arith

pub IsName-commas : (s : Bytes) → IsName s → Lacks (codes ",\n") s
IsName-commas s h = All-map lacks_commas s h

pub IsName-comma : (s : Bytes) → IsName s → Lacks (b',' ∷ []) s
IsName-comma s h = All-map lacks_comma s h

pub IsName-newline : (s : Bytes) → IsName s → Lacks (b'\n' ∷ []) s
IsName-newline s h = All-map lacks_newline s h

pub IsName-nul : (s : Bytes) → IsName s → Lacks (0 ∷ []) s
IsName-nul s h = All-map lacks_nul s h

pub IsName-hash : (s : Bytes) → IsName s → Lacks (b'#' ∷ []) s
IsName-hash s h = All-map lacks_hash s h

pub numeric-IsName : (s : Bytes) → All IsNumeric s → IsName s
numeric-IsName s h = All-map lacks_reserved s h
