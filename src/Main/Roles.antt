-- ===== src/Main/Roles.antt =====
-- The roles that srv/main.cpp gives to the plugins of the configuration.
use lau_sim.Base.{
  ℕ, zero, suc, ◌≡◌, refl, true, List, [], ◌∷◌, Option, none, some, Bytes, ◌==◌, arith, ℤ, pos,
  negsuc, bit_and,
}
use lau_sim.PluginManager.{
  Plugin, PluginManager, assign_role, add_role, Linker, pl_com_actor, pl_com_extern,
  pl_fault_manager, pl_logger,
}
use lau_sim.PluginManager.Invariant.{IsValid}
use lau_sim.PluginManager.Growth.{HasRole, change_role-bit_or}
use lau_sim.Config.{Config, load_config}
use lau_sim.Config.Slots.{IsSlot, IsConfigured}
use lau_sim.Config.Loaded.{
  IsKept, IsSlot-kept, IsConfigured-kept, IsLinked, Loaded, load_config-Loaded,
}
use lau_sim.Options.{Options, defaults, parse}
use lau_sim.Main.{configure, give_role, give_roles, use_logger, Stage, assign_roles}

-- The plugin of a slot is used in the role.
abbrev pub IsUsed : ℕ → Option Plugin → PluginManager → Type 0
IsUsed role none m = Unit
IsUsed role (some p) m = HasRole p.address role m.plugins

-- No role is lost.
abbrev KeepsRoles : PluginManager → PluginManager → Type 0
KeepsRoles m n = (b role : ℕ) → HasRole b role m.plugins → HasRole b role n.plugins

IsUsed-kept :
    (role : ℕ) (s : Option Plugin) (m n : PluginManager)
    → KeepsRoles m n
    → IsUsed role s m
    → IsUsed role s n
IsUsed-kept role none m n k h = tt
IsUsed-kept role (some p) m n k h = k p.address role h

-- The plugin of a slot takes the role of the slot.
give_role-IsUsed :
    (s : Option Plugin) (role : ℕ) (m : PluginManager)
    → IsSlot role m s
    → (n : PluginManager) × (give_role s role m ≡ some n)
      × IsKept m n
      × KeepsRoles m n
      × IsUsed role s n
unfolding give_role add_role assign_role
give_role-IsUsed none role m h = (m, refl, (λ b k. k), (λ b r k. k), tt)
give_role-IsUsed (some p) role m (w, known) =
    let (es, e, kept, used, roles) = change_role-bit_or role p.address m.plugins known in
    let fits : (bit_and p.pl_type role == role) ≡ true = ground arith in
    (
      record m { plugins = es },
      rw (fits, e, give_role, add_role, assign_role) refl,
      kept,
      roles,
      used,
    )

-- Every plugin of the configuration is used in its role.
abbrev pub AreUsed : Config → PluginManager → Type 0
AreUsed c m =
    IsUsed pl_com_actor c.com_actor m
    × IsUsed pl_com_extern c.com_notify m
    × IsUsed pl_fault_manager c.fault_manager m
    × IsUsed pl_logger c.logger m

give_roles-AreUsed :
    (c : Config) (m : PluginManager)
    → IsConfigured m c
    → (n : PluginManager) × (give_roles c m ≡ some n) × AreUsed c n
unfolding give_roles
give_roles-AreUsed c m h =
    let (m₁, e₁, k₁, r₁, u₁) = give_role-IsUsed c.com_actor pl_com_actor m h.actor in
    let (m₂, e₂, k₂, r₂, u₂) =
      give_role-IsUsed c.com_notify pl_com_extern m₁
        (IsSlot-kept _ m m₁ c.com_notify k₁ h.notify) in
    let (m₃, e₃, k₃, r₃, u₃) =
      give_role-IsUsed c.logger pl_logger m₂
        (IsSlot-kept _ m₁ m₂ c.logger k₂ (IsSlot-kept _ m m₁ c.logger k₁ h.log)) in
    let (m₄, e₄, k₄, r₄, u₄) = give_role-IsUsed c.fault_manager pl_fault_manager m₃ (
      IsSlot-kept _ m₂ m₃ c.fault_manager k₃ (
        IsSlot-kept _ m₁ m₂ c.fault_manager k₂
          (IsSlot-kept _ m m₁ c.fault_manager k₁ h.manager))) in
    (
      m₄,
      rw (e₁, e₂, e₃, give_roles) e₄,
      (
        IsUsed-kept _ c.com_actor m₁ m₄ (λ b r x. r₄ b r (r₃ b r (r₂ b r x))) u₁,
        IsUsed-kept _ c.com_notify m₂ m₄ (λ b r x. r₄ b r (r₃ b r x)) u₂,
        u₄,
        IsUsed-kept _ c.logger m₃ m₄ r₄ u₃,
      ),
    )

use_logger-IsKept : (c : Config) (m : PluginManager) → IsKept m (use_logger c m)
use_logger-IsKept c m = unfold use_logger in go c.logger
  where
    go :
        (o : Option Plugin)
        → IsKept m (elim o [ none ↦ m | some pl ↦ record m { logger_used = some pl } ])
    go none b h = h
    go (some pl) b h = h

module _ (struct : ℕ → Plugin) (addresses : (a : ℕ) → (struct a).address ≡ a) where
  -- The end of a stage that follows from what `load_config` has returned.
  abbrev Follows : Option (ℤ × PluginManager × Config) → Option Stage → Type 0
  Follows o none = o ≡ none
  Follows o (some st) = (st.exit_code ≡ none) → AreUsed st.conf st.manager

  assign_roles-Follows :
      (linker : Linker) (linked : IsLinked struct addresses linker)
      (o : Option (ℤ × PluginManager × Config))
      → Loaded struct addresses linker linked o
      → Follows o (assign_roles o)
  unfolding assign_roles
  assign_roles-Follows linker linked none h = refl
  assign_roles-Follows linker linked (some (pos (suc n), m, c)) h = λ e. cc
  assign_roles-Follows linker linked (some (negsuc n, m, c)) h = λ e. cc
  assign_roles-Follows linker linked (some (pos zero, m, c)) (v, h) =
      let (n, e, used) =
        give_roles-AreUsed c (use_logger c m) (IsConfigured-kept m _ c (use_logger-IsKept c m) h) in
      rw (e, Follows) (λ _. used)

  module _ (linker : Linker) (linked : IsLinked struct addresses linker) where
    -- How `main` is configured: the roles are given, or it ends; an exception comes from the file.
    abbrev pub Outcome : (Bytes → Option Bytes) → PluginManager → Config → Option Stage → Type 0
    Outcome read_file m c none = (name : Bytes) × (load_config linker read_file name m c ≡ none)
    Outcome read_file m c (some st) = (st.exit_code ≡ none) → AreUsed st.conf st.manager

    -- Whatever the options and the configuration file are: if the `init` functions of the libraries use the
    -- manager by calls of its interface only, then `main` ends with an exit code, or it goes on with
    -- each plugin of the configuration used in the role of its slot; an exception is thrown only where
    -- `load_config` throws, and never by a call of `add_role`.
    pub configure-Outcome :
        (read_file : Bytes → Option Bytes) (opts : List (ℕ × Bytes)) (m : PluginManager)
        (c : Config)
        → IsValid struct addresses m
        → IsConfigured m c
        → Outcome read_file m c (configure linker read_file opts m c)
    configure-Outcome read_file opts m c v h = unfold configure in go (parse opts defaults)
      where
        ended :
            Outcome read_file m c
              (some (record { exit_code = some (negsuc 0); manager = m; conf = c }))
        ended e = cc

        followed :
            (name : Bytes) (o : Option Stage)
            → Follows (load_config linker read_file name m c) o
            → Outcome read_file m c o
        followed name none e = (name, e)
        followed name (some st) f = f

        named :
            (name : Bytes)
            → Outcome read_file m c (elim name [
              | [] ↦ some (record { exit_code = some (negsuc 0); manager = m; conf = c })
              | b ∷ bs ↦ assign_roles (load_config linker read_file (b ∷ bs) m c)
            ])
        named [] = ended
        named (b ∷ bs) =
            followed (b ∷ bs) (assign_roles (load_config linker read_file (b ∷ bs) m c)) (
              assign_roles-Follows linker linked (load_config linker read_file (b ∷ bs) m c)
                (load_config-Loaded struct addresses linker linked read_file (b ∷ bs) m c v h))

        go :
            (r : ℤ × Options)
            → Outcome read_file m c (elim r.0 [
              | negsuc _ ↦ some (record { exit_code = some (negsuc 0); manager = m; conf = c })
              | pos _ ↦ elim r.1.cfile [
                | [] ↦ some (record { exit_code = some (negsuc 0); manager = m; conf = c })
                | b ∷ bs ↦ assign_roles (load_config linker read_file (b ∷ bs) m c)
              ]
            ])
        go (negsuc n, o) = ended
        go (pos n, o) = named o.cfile
