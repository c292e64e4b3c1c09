-- ===== src/PluginManager/Growth.antt =====
-- Plugins stay registered, and keep the roles that are added: srv/plugin_internal.cpp.
use lau_sim.Base.{
  ℕ, ◌≡◌, refl, sym, ap, ◌∙◌, Bool, true, false, ◌||◌, List, [], ◌∷◌, Option, none, some, Bytes,
  ◌==◌, Bool-cases, inl, inr, ◌⊎◌, arith, ℤ, pos, bit_and, bit_or, IsWithin, bit_or-keep,
  bit_or-added, if_ind,
}
use mathlib.Core.Path.{subst}
use lau_sim.Libc.Text.{str_eq}
use lau_sim.PluginManager.{
  Plugin, Entry, PluginManager, contains, emplace, find_name, is_registered, register_plugin,
  change_role, assign_role, set_role, add_role,
}
use lau_sim.PluginManager.Entries.{Holds, keep_head}
use lau_sim.PluginManager.Invariant.{Call, registers, sets, adds, at, perform, Trace, done, step}

or_map : (x y z : Bool) → (y ≡ true → z ≡ true) → (x || y) ≡ true → (x || z) ≡ true
or_map true y z f h = refl
or_map false y z f h = f h

-- A plugin that is found is in the map.
pub find_name-contains :
    (name : Bytes) (es : List Entry) (p : Plugin)
    → find_name name es ≡ some p
    → contains p.address es ≡ true
unfolding find_name contains
find_name-contains name [] p h = cc
find_name-contains name (e ∷ es) p h = elim (Bool-cases (str_eq name e.pl.name)) [
  | inl same ↦
      let q : e.pl ≡ p = ground arith in rw (sym (ap (λ (x : Plugin). x.address) q)) (ground arith)
  | inr other ↦ ground (arith, find_name-contains name es p (ground arith))
]

contains-emplace :
    (a : ℕ) (x : Entry) (es : List Entry) → contains a es ≡ true → contains a (emplace x es) ≡ true
unfolding contains emplace
contains-emplace a x [] h = cc
contains-emplace a x (e ∷ es) h = ground (arith, contains-emplace a x es)

-- The flag is among the roles of the plugin at the address.
abbrev pub HasRole : ℕ → ℕ → List Entry → Type 0
HasRole a f [] = ⊥
HasRole a f (e ∷ es) = ((e.pl.address ≡ a) × IsWithin e.role f) ⊎ HasRole a f es

-- A change of a role moves no plugin.
change_role-contains :
    (change : ℕ → ℕ) (a : ℕ) (es : List Entry)
    → Holds (λ es'. (b : ℕ) → contains b es' ≡ contains b es) (change_role change a es)
unfolding change_role contains
change_role-contains change a [] = tt
change_role-contains change a (e ∷ es) =
    if_ind (Holds (λ es'. (b : ℕ) → contains b es' ≡ contains b (e ∷ es))) (a == e.pl.address)
      (λ b. refl)
      (keep_head (λ es'. (b : ℕ) → contains b es' ≡ contains b es) _ e (change_role change a es)
        (λ es' k b. ap (λ x. b == e.pl.address || x) (k b)) (change_role-contains change a es))

-- A role is added where the plugin is registered, and no role is lost.
pub change_role-bit_or :
    (r a : ℕ) (es : List Entry)
    → contains a es ≡ true
    → (es' : List Entry) × (change_role (λ role. bit_or role r) a es ≡ some es')
      × ((b : ℕ) → contains b es ≡ true → contains b es' ≡ true)
      × HasRole a r es'
      × ((b f : ℕ) → HasRole b f es → HasRole b f es')
unfolding change_role contains
change_role-bit_or r a [] h = cc
change_role-bit_or r a (e ∷ es) h = elim (Bool-cases (a == e.pl.address)) [
  | inl same ↦ (
    record e { role = bit_or e.role r } ∷ es,
    rw same refl,
    λ b k. k,
    inl (ground arith, bit_or-added e.role r),
    λ b f k. elim k [ inl (q, w) ↦ inl (q, bit_or-keep e.role r f w) | inr t ↦ inr t ],
  )
  | inr other ↦
      let (es', eq, c, hr, k) = change_role-bit_or r a es (ground arith) in
      (
        e ∷ es',
        rw (other, eq) refl,
        λ b. or_map (b == e.pl.address) (contains b es) (contains b es') (c b),
        inr hr,
        λ b f t. elim t [ inl here ↦ inl here | inr far ↦ inr (k b f far) ],
      )
]

-- The plugins that a call leaves registered.
abbrev Keeps : PluginManager → Option (ℤ × PluginManager) → Type 0
Keeps m none = Unit
Keeps m (some (ret, n)) = (b : ℕ) → contains b m.plugins ≡ true → contains b n.plugins ≡ true

changed-Keeps :
    (m : PluginManager) (r : Option (List Entry))
    → Holds (λ es. (b : ℕ) → contains b es ≡ contains b m.plugins) r
    → Keeps m (elim r [ none ↦ none | some es ↦ some (pos 0, record m { plugins = es }) ])
changed-Keeps m none h = tt
changed-Keeps m (some es) h = λ b k. h b ∙ k

assign_role-Keeps :
    (change : ℕ → ℕ) (pl : Option Plugin) (r : ℕ) (m : PluginManager)
    → Keeps m (assign_role change pl r m)
unfolding assign_role
assign_role-Keeps change none r m = λ b k. k
assign_role-Keeps change (some pl) r m =
    if_ind (Keeps m) (bit_and pl.pl_type r == r)
      (changed-Keeps m (change_role change pl.address m.plugins)
        (change_role-contains change pl.address m.plugins))
      (λ b k. k)

register_plugin-Keeps : (p : Plugin) (m : PluginManager) → Keeps m (some (register_plugin p m))
unfolding register_plugin
register_plugin-Keeps p m =
    if_ind (λ r. Keeps m (some r)) (is_registered p m) (λ b k. k)
      (λ b k. contains-emplace b _ m.plugins k)

module _ (struct : ℕ → Plugin) (addresses : (a : ℕ) → (struct a).address ≡ a) where
  perform-Keeps : (c : Call) (m : PluginManager) → Keeps m (perform struct addresses c m)
  unfolding perform set_role add_role
  perform-Keeps (registers a) m = register_plugin-Keeps (struct a) m
  perform-Keeps (sets pl r) m = assign_role-Keeps _ (at struct addresses pl) r m
  perform-Keeps (adds pl r) m = assign_role-Keeps _ (at struct addresses pl) r m

  -- A plugin that is registered stays.
  pub Trace-contains :
      {m n : PluginManager} {cs : List Call}
      → Trace struct addresses m cs n
      → (b : ℕ) → contains b m.plugins ≡ true
      → contains b n.plugins ≡ true
  Trace-contains done b h = h
  Trace-contains (step {m = m} c ret m₁ e t) b h =
      Trace-contains t b (subst (Keeps m) e (perform-Keeps c m) b h)
