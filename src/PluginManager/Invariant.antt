-- ===== src/PluginManager/Invariant.antt =====
-- What holds of the manager of the plugins at any time: srv/plugin_internal.cpp. The structs of the
-- plugins do not change, so an address stands for one.
use lau_sim.Base.{
  ℕ, ◌≡◌, sym, ap, ◌∙◌, List, [], ◌∷◌, Option, none, some, ◌==◌, Bool-cases, inl, inr, arith, All,
  ℤ, pos, bit_and, bit_or, IsWithin, bit_or-IsWithin, zero-IsWithin,
}
use mathlib.Core.Path.{subst}
use lau_sim.PluginManager.{
  Plugin, Entry, PluginManager, get_by_name, is_registered, register_plugin, change_role,
  assign_role, set_role, add_role,
}
use lau_sim.PluginManager.Lookup.{contains-All, find_name-All, is_registered-false}
use lau_sim.PluginManager.Entries.{
  IsValidEntries, All-emplace, emplace-IsValidEntries, Holds, Holds-pair, change_role-All,
  change_role-IsValidEntries,
}

-- A call of the interface; the pointers are addresses, and may be NULL.
pub data Call : Type 0 where
  registers : ℕ → Call
  sets adds : Option ℕ → ℕ → Call

module _ (struct : ℕ → Plugin) (addresses : (a : ℕ) → (struct a).address ≡ a) where
  abbrev pub at : Option ℕ → Option Plugin
  at none = none
  at (some a) = some (struct a)

  -- `none`: the call throws.
  unfoldable pub perform : Call → PluginManager → Option (ℤ × PluginManager)
  unfolding register_plugin set_role add_role
  perform (registers a) m = some (register_plugin (struct a) m)
  perform (sets pl new_role) m = set_role (at pl) new_role m
  perform (adds pl new_role) m = add_role (at pl) new_role m

  -- Calls that return, one after the other.
  pub data Trace : PluginManager → List Call → PluginManager → Type 0 where
    done : {m : PluginManager} → Trace m [] m
    step :
        {m n : PluginManager} {cs : List Call} (c : Call) (ret : ℤ) (m₁ : PluginManager)
        → perform c m ≡ some (ret, m₁)
        → Trace m₁ cs n
        → Trace m (c ∷ cs) n

  -- The invariant: the entries are valid, and hold the structs at their addresses.
  abbrev pub IsValid : PluginManager → Type 0
  IsValid m = IsValidEntries m.plugins × All (λ (e : Entry). e.pl ≡ struct e.pl.address) m.plugins

  register_plugin-IsValid :
      (a : ℕ) (m : PluginManager) → IsValid m → IsValid (register_plugin (struct a) m).1
  unfolding register_plugin
  register_plugin-IsValid a m (h, l) = elim (Bool-cases (is_registered (struct a) m)) [
    | inl known ↦ rw known (h, l)
    | inr new ↦
        let (n, c) = is_registered-false (struct a) m new in
        rw new (
          emplace-IsValidEntries _ m.plugins (zero-IsWithin (struct a).pl_type)
              (contains-All (struct a).address m.plugins c)
              (find_name-All (struct a).name m.plugins (unfold get_by_name in n)) h,
          All-emplace (λ (e : Entry). e.pl ≡ struct e.pl.address) _ m.plugins
              (ap struct (sym (addresses a))) l,
        )
  ]

  All-known :
      (a : ℕ) (es : List Entry)
      → All (λ (e : Entry). e.pl ≡ struct e.pl.address) es
      → All (λ (e : Entry). e.pl.address ≡ (struct a).address → e.pl ≡ struct a) es
  All-known a [] h = tt
  All-known a (e ∷ es) (he, h) = ((λ q. he ∙ ap struct (q ∙ addresses a)), All-known a es h)

  -- What an operation that may throw keeps.
  abbrev Returns : Option (ℤ × PluginManager) → Type 0
  Returns none = Unit
  Returns (some (ret, m)) = IsValid m

  returned-Returns :
      (m : PluginManager) (r : Option (List Entry))
      → Holds (λ es. IsValidEntries es × All (λ (e : Entry). e.pl ≡ struct e.pl.address) es) r
      → Returns (elim r [ none ↦ none | some es ↦ some (pos 0, record m { plugins = es }) ])
  returned-Returns m none h = tt
  returned-Returns m (some es) h = h

  assign_role-Returns :
      (change : ℕ → ℕ) (pl : Option ℕ) (new_role : ℕ) (m : PluginManager)
      → ((p : Plugin) (role : ℕ)
          → IsWithin p.pl_type new_role
          → IsWithin p.pl_type role
          → IsWithin p.pl_type (change role))
      → IsValid m
      → Returns (assign_role change (at pl) new_role m)
  unfolding assign_role
  assign_role-Returns change none new_role m f h = h
  assign_role-Returns change (some a) new_role m f h =
      elim (Bool-cases (bit_and (struct a).pl_type new_role == new_role)) [
        | inl fits ↦
            let keeps = λ (role : ℕ). f (struct a) role (ground arith) in
            let r = change_role change (struct a).address m.plugins in
            rw fits (
              returned-Returns m r (
                Holds-pair IsValidEntries _ r
                  (change_role-IsValidEntries change (struct a) keeps m.plugins
                    (All-known a m.plugins h.1) h.0)
                  (change_role-All change (struct a) keeps (λ q. q ≡ struct q.address) m.plugins
                    h.1)))
        | inr more ↦ rw more h
      ]

  perform-Returns : (c : Call) (m : PluginManager) → IsValid m → Returns (perform c m)
  unfolding perform
  perform-Returns (registers a) m h = register_plugin-IsValid a m h
  perform-Returns (sets pl new_role) m h =
      assign_role-Returns (λ _. new_role) pl new_role m (λ p role w _. w) h
  perform-Returns (adds pl new_role) m h =
      assign_role-Returns (λ role. bit_or role new_role) pl new_role m
        (λ p role w l. bit_or-IsWithin p.pl_type role new_role l w) h

  -- Whatever the plugins and the server call, as long as no call throws: the plugins stay in the order
  -- of their addresses with no name twice, and each is used in roles that it is made for only.
  pub Trace-IsValid : {m n : PluginManager} {cs : List Call} → Trace m cs n → IsValid m → IsValid n
  Trace-IsValid done h = h
  Trace-IsValid (step {m = m} c ret m₁ e t) h =
      Trace-IsValid t (subst Returns e (perform-Returns c m h))
