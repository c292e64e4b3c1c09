-- ===== src/Launcher/Last.antt =====
-- Which options of client/launcher/launcher.c count.
use lau_sim.Base.{
  ℕ, ◌≡◌, refl, sym, ap, ◌∙◌, inl, inr, List, [], ◌∷◌, some, Bytes, codes, ◌==◌, if◌then◌else◌,
  Bool-cases, arith,
}
use lau_sim.Libc.Case.{strcase_eq}
use lau_sim.Launcher.{
  LauMethode, mth_preload, mth_priviliged, LauOpts, Next, exits, goes, set_methode, set_option,
  set_options,
}

-- The argument of the last option with the letter, where there is one.
unfoldable pub last_arg : {A : Type 0} → (Bytes → A) → ℕ → A → List (ℕ × Bytes) → A
last_arg f c a [] = a
last_arg f c a ((optchr, optarg) ∷ opts) = last_arg f c (if optchr == c then f optarg else a) opts

-- What `-m` says; a word that is none of the two ends the launcher.
unfoldable pub methode_of : Bytes → LauMethode
methode_of a = if strcase_eq (codes "preload") a then mth_preload else mth_priviliged

-- The fields that are set by a letter each.
abbrev pub IsLast : List (ℕ × Bytes) → LauOpts → LauOpts → Type 0
IsLast opts o o' =
    (o'.name ≡ last_arg (λ a. some a) b'n' o.name opts)
    × (o'.server ≡ last_arg (λ a. a) b's' o.server opts)
    × (o'.port ≡ last_arg (λ a. a) b'p' o.port opts)
    × (o'.pre_lib ≡ last_arg (λ a. some a) b'l' o.pre_lib opts)
    × (o'.command ≡ last_arg (λ a. some a) b'c' o.command opts)
    × (o'.methode ≡ last_arg methode_of b'm' o.methode opts)

abbrev Ends : List (ℕ × Bytes) → LauOpts → Next LauOpts → Type 0
Ends opts o (exits e) = Unit
Ends opts o (goes o') = IsLast opts o o'

set_methode-Ends : (a : Bytes) (o : LauOpts) → Ends ((b'm', a) ∷ []) o (set_methode a o)
unfolding set_methode last_arg methode_of
set_methode-Ends a o = elim (Bool-cases (strcase_eq (codes "preload") a)) [
  | inl e ↦ rw e (refl, refl, refl, refl, refl, rw e refl)
  | inr differs ↦ elim (Bool-cases (strcase_eq (codes "privileged") a)) [
    | inl e ↦ rw (differs, e) (refl, refl, refl, refl, refl, rw differs refl)
    | inr other ↦ rw (differs, other) tt
  ]
]

set_option-Ends : (c : ℕ) (a : Bytes) (o : LauOpts) → Ends ((c, a) ∷ []) o (set_option c a o)
unfolding set_option set_methode last_arg
set_option-Ends c a o = elim (Bool-cases (c == b'n')) [
  | inl e ↦ let q : c ≡ b'n' = ground arith in rw q (refl, refl, refl, refl, refl, refl)
  | inr no_n ↦ elim (Bool-cases (c == b's')) [
    | inl e ↦ let q : c ≡ b's' = ground arith in rw q (refl, refl, refl, refl, refl, refl)
    | inr no_s ↦ elim (Bool-cases (c == b'l')) [
      | inl e ↦ let q : c ≡ b'l' = ground arith in rw q (refl, refl, refl, refl, refl, refl)
      | inr no_l ↦ elim (Bool-cases (c == b'h')) [
        | inl e ↦ let q : c ≡ b'h' = ground arith in rw q tt
        | inr no_h ↦ elim (Bool-cases (c == b'p')) [
          | inl e ↦ let q : c ≡ b'p' = ground arith in rw q (refl, refl, refl, refl, refl, refl)
          | inr no_p ↦ elim (Bool-cases (c == b'm')) [
            | inl e ↦ let q : c ≡ b'm' = ground arith in rw q (set_methode-Ends a o)
            | inr no_m ↦ elim (Bool-cases (c == b'c')) [
              | inl e ↦ let q : c ≡ b'c' = ground arith in rw q (refl, refl, refl, refl, refl, refl)
              | inr no_c ↦
                  rw (no_n, no_s, no_l, no_h, no_p, no_m, no_c)
                    (
                      rw (no_n, last_arg) refl,
                      rw (no_s, last_arg) refl,
                      rw (no_p, last_arg) refl,
                      rw (no_l, last_arg) refl,
                      rw (no_c, last_arg) refl,
                      rw (no_m, last_arg) refl,
                    )
            ]
          ]
        ]
      ]
    ]
  ]
]

-- Where the launcher does not end at its options, the name, the server, the port, the library, the command
-- and the methode are each what the argument of the last option with the letter of the field says, or the
-- default.
pub set_options-IsLast :
    (opts : List (ℕ × Bytes)) (o o' : LauOpts) → set_options opts o ≡ goes o' → IsLast opts o o'
unfolding set_options last_arg
set_options-IsLast [] o o' e =
    let q : o ≡ o' = cc in
    (
      ap (λ x. x.name) (sym q),
      ap (λ x. x.server) (sym q),
      ap (λ x. x.port) (sym q),
      ap (λ x. x.pre_lib) (sym q),
      ap (λ x. x.command) (sym q),
      ap (λ x. x.methode) (sym q),
    )
set_options-IsLast ((c, a) ∷ opts) o o' e =
    go (set_option c a o) (set_option-Ends c a o) e (λ o₁ e₁. set_options-IsLast opts o₁ o' e₁)
  where
    go :
        (r : Next LauOpts)
        → Ends ((c, a) ∷ []) o r
        → elim r [ exits e ↦ exits e | goes o₁ ↦ set_options opts o₁ ] ≡ goes o'
        → ((o₁ : LauOpts) → set_options opts o₁ ≡ goes o' → IsLast opts o₁ o')
        → IsLast ((c, a) ∷ opts) o o'
    go (exits k) h e f = cc
    go (goes o₁) (hn, hs, hp, hl, hc, hm) e f =
        let (n, s, p, l, k, v) = f o₁ e in
        (
          n ∙ ap (λ x. last_arg (λ a. some a) b'n' x opts) hn,
          s ∙ ap (λ x. last_arg (λ a. a) b's' x opts) hs,
          p ∙ ap (λ x. last_arg (λ a. a) b'p' x opts) hp,
          l ∙ ap (λ x. last_arg (λ a. some a) b'l' x opts) hl,
          k ∙ ap (λ x. last_arg (λ a. some a) b'c' x opts) hc,
          v ∙ ap (λ x. last_arg methode_of b'm' x opts) hm,
        )
