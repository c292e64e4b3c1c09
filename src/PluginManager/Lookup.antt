-- ===== src/PluginManager/Lookup.antt =====
-- What the manager of the plugins finds behind a registration: srv/plugin_internal.cpp.
use lau_sim.Base.{
  ℕ, ◌≡◌, ◌≢◌, refl, sym, Bool, true, false, ◌||◌, List, [], ◌∷◌, Option, none, some, Bytes, ltb,
  if◌then◌else◌, Bool-cases, inl, inr, ◌⊎◌, arith, All, pos, negsuc,
}
use lau_sim.Libc.Text.{str_eq, str_eq_ne, str_eq-apart}
use lau_sim.PluginManager.{
  Plugin, Entry, PluginManager, contains, emplace, find_name, get_by_name, is_registered,
  register_plugin, pl_none,
}

pub contains-All :
    (a : ℕ) (es : List Entry) → contains a es ≡ false → All (λ (e : Entry). a ≢ e.pl.address) es
unfolding contains
contains-All a [] h = tt
contains-All a (e ∷ es) h = (ground arith, contains-All a es (ground arith))

pub find_name-All :
    (name : Bytes) (es : List Entry)
    → find_name name es ≡ none
    → All (λ (e : Entry). name ≢ e.pl.name) es
unfolding find_name
find_name-All name [] h = tt
find_name-All name (e ∷ es) h = elim (Bool-cases (str_eq name e.pl.name)) [
  | inl same ↦ ground arith
  | inr other ↦ (str_eq_ne name e.pl.name other, find_name-All name es (ground arith))
]

-- A new entry is found under its name, and the others under theirs.
find_name-emplace :
    (name : Bytes) (x : Entry) (es : List Entry)
    → All (λ (e : Entry). x.pl.name ≢ e.pl.name) es
    → find_name name (emplace x es)
      ≡ (if str_eq name x.pl.name then some x.pl else find_name name es)
unfolding find_name emplace
find_name-emplace name x [] h = refl
find_name-emplace name x (e ∷ es) (he, h) = elim (Bool-cases (ltb x.pl.address e.pl.address)) [
  | inl before ↦ rw before refl
  | inr behind ↦
      rw (behind, find_name-emplace name x es h)
        (elim (Bool-cases (str_eq name x.pl.name)) [
          | inl new ↦ rw (new, str_eq-apart e.pl.name x.pl.name name (λ e. he (sym e)) new) refl
          | inr other ↦ rw other refl
        ])
]

none_or :
    (o : Option Plugin) (b : Bool)
    → ((elim o [ none ↦ false | some _ ↦ true ]) || b) ≡ false
    → (o ≡ none) × (b ≡ false)
none_or none b h = (refl, h)
none_or (some p) b h = cc

pub is_registered-false :
    (p : Plugin) (m : PluginManager)
    → is_registered p m ≡ false
    → (get_by_name p.name m ≡ none) × (contains p.address m.plugins ≡ false)
unfolding is_registered
is_registered-false p m h = none_or (get_by_name p.name m) (contains p.address m.plugins) h

-- The manager with a new plugin.
abbrev pub with_plugin : Plugin → PluginManager → PluginManager
with_plugin p m = record m { plugins = emplace (record { role = pl_none; pl = p }) m.plugins }

-- A plugin that is registered is found under its name from then on, and every other name leads where
-- it led before; a registration that fails changes nothing, and there was a plugin of that name or
-- at that address before.
pub register_plugin-get_by_name :
    (p : Plugin) (m : PluginManager)
    → ((m' : PluginManager) × (register_plugin p m ≡ (pos 0, m'))
        × (get_by_name p.name m ≡ none)
        × ((name : Bytes)
            → get_by_name name m' ≡ (if str_eq name p.name then some p else get_by_name name m)))
      ⊎ ((is_registered p m ≡ true) × (register_plugin p m ≡ (negsuc 0, m)))
unfolding register_plugin get_by_name
register_plugin-get_by_name p m = elim (Bool-cases (is_registered p m)) [
  | inl known ↦ inr (known, rw known refl)
  | inr new ↦ inl (
    with_plugin p m,
    rw new refl,
    (is_registered-false p m new).0,
    λ name.
        find_name-emplace name _ m.plugins
          (find_name-All p.name m.plugins ((is_registered-false p m new).0)),
  )
]
