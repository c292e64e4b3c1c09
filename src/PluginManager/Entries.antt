-- ===== src/PluginManager/Entries.antt =====
-- The entries of the map of the plugins, and what the operations of srv/plugin_internal.cpp keep of them.
use lau_sim.Base.{
  ℕ, ◌<◌, ◌≡◌, ◌≢◌, sym, List, [], ◌∷◌, Option, none, some, ltb, ltb→lt, ◌==◌, Bool-cases, inl, inr,
  arith, All, IsWithin, if_ind,
}
use mathlib.Core.Path.{subst}
use lau_sim.PluginManager.{Plugin, Entry, emplace, change_role}

-- The entry stands before another in the map, and has another name.
abbrev pub Precedes : Entry → Entry → Type 0
Precedes e x = (e.pl.address < x.pl.address) × (e.pl.name ≢ x.pl.name)

-- The map is ordered, no two plugins have the same name, and each is used in roles that it is made for.
abbrev pub IsValidEntries : List Entry → Type 0
IsValidEntries [] = Unit
IsValidEntries (e ∷ es) = IsWithin e.pl.pl_type e.role × All (Precedes e) es × IsValidEntries es

Precedes-All :
    (x e : Entry) (es : List Entry)
    → x.pl.address < e.pl.address
    → All (Precedes e) es
    → All (λ (y : Entry). x.pl.name ≢ y.pl.name) es
    → All (Precedes x) es
Precedes-All x e [] h a n = tt
Precedes-All x e (y ∷ es) h (ay, a) (ny, n) = ((omega (arith, ay.0), ny), Precedes-All x e es h a n)

pub All-emplace :
    (P : Entry → Type 0) (x : Entry) (es : List Entry) → P x → All P es → All P (emplace x es)
unfolding emplace
All-emplace P x [] hx h = (hx, tt)
All-emplace P x (e ∷ es) hx (he, h) =
    if_ind (All P) (ltb x.pl.address e.pl.address) (hx, (he, h)) (he, All-emplace P x es hx h)

pub emplace-IsValidEntries :
    (x : Entry) (es : List Entry)
    → IsWithin x.pl.pl_type x.role
    → All (λ (e : Entry). x.pl.address ≢ e.pl.address) es
    → All (λ (e : Entry). x.pl.name ≢ e.pl.name) es
    → IsValidEntries es
    → IsValidEntries (emplace x es)
unfolding emplace
emplace-IsValidEntries x [] w a n h = (w, tt, tt)
emplace-IsValidEntries x (e ∷ es) w (ae, a) (ne, n) (we, pe, h) =
    elim (Bool-cases (ltb x.pl.address e.pl.address)) [
      | inl before ↦
          let lt = ltb→lt x.pl.address e.pl.address before in
          rw before (w, ((lt, ne), Precedes-All x e es lt pe n), (we, pe, h))
      | inr behind ↦ rw behind (
        we,
        All-emplace (Precedes e) x es (ground arith, λ q. ne (sym q)) pe,
        emplace-IsValidEntries x es w a n h,
      )
    ]

-- A property of the result of `change_role`, where it has one.
abbrev pub Holds : (List Entry → Type 0) → Option (List Entry) → Type 0
Holds P none = Unit
Holds P (some es) = P es

pub keep_head :
    (P Q : List Entry → Type 0) (e : Entry) (r : Option (List Entry))
    → ((es : List Entry) → P es → Q (e ∷ es))
    → Holds P r
    → Holds Q (elim r [ none ↦ none | some es ↦ some (e ∷ es) ])
keep_head P Q e none f h = tt
keep_head P Q e (some es) f h = f es h

pub Holds-pair :
    (P Q : List Entry → Type 0) (r : Option (List Entry))
    → Holds P r
    → Holds Q r
    → Holds (λ es. P es × Q es) r
Holds-pair P Q none h l = tt
Holds-pair P Q (some es) h l = (h, l)

module _ (change : ℕ → ℕ) (p : Plugin)
    (keeps : (role : ℕ) → IsWithin p.pl_type role → IsWithin p.pl_type (change role)) where
  -- The role changes of an entry, and its plugin stays.
  pub change_role-All :
      (P : Plugin → Type 0) (es : List Entry)
      → All (λ (e : Entry). P e.pl) es
      → Holds (All (λ (e : Entry). P e.pl)) (change_role change p.address es)
  unfolding change_role
  change_role-All P [] h = tt
  change_role-All P (e ∷ es) (he, h) =
      if_ind (Holds (All (λ (x : Entry). P x.pl))) (p.address == e.pl.address) (he, h)
        (keep_head (All (λ (x : Entry). P x.pl)) _ e (change_role change p.address es)
          (λ es' t. (he, t)) (change_role-All P es h))

  pub change_role-IsValidEntries :
      (es : List Entry)
      → All (λ (e : Entry). e.pl.address ≡ p.address → e.pl ≡ p) es
      → IsValidEntries es
      → Holds IsValidEntries (change_role change p.address es)
  unfolding change_role
  change_role-IsValidEntries [] k h = tt
  change_role-IsValidEntries (e ∷ es) (ke, k) (we, pe, h) =
      elim (Bool-cases (p.address == e.pl.address)) [
        | inl same ↦ rw same (
          subst (λ (q : Plugin). IsWithin q.pl_type (change e.role)) (sym (ke (ground arith)))
              (keeps e.role
                (subst (λ (q : Plugin). IsWithin q.pl_type e.role) (ke (ground arith)) we)),
          pe,
          h,
        )
        | inr other ↦ rw other (
            keep_head (λ es'. All (Precedes e) es' × IsValidEntries es') IsValidEntries e
              (change_role change p.address es) (λ es' (pe', h'). (we, pe', h'))
              (Holds-pair (All (Precedes e)) IsValidEntries (change_role change p.address es)
                (change_role-All (λ q. (e.pl.address < q.address) × (e.pl.name ≢ q.name)) es pe)
                (change_role-IsValidEntries es k h)))
      ]
