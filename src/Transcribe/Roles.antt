-- ===== src/Transcribe/Roles.antt =====
-- `post` of plugins/transcribe/transcribe.c over the plugin manager of srv/plugin_internal.cpp.
use lau_sim.Base.{ℕ, ◌≡◌, ◌≢◌, true, none, some, Bytes, ◌==◌, pos, bit_and}
use lau_sim.FaultManager.{Answer, success, failure}
use lau_sim.PluginManager.{
  Plugin, PluginManager, contains, get_by_name, add_role, set_role, pl_fault_manager,
}
use lau_sim.PluginManager.Growth.{HasRole}
use lau_sim.Transcribe.Start.{RoleInterface}

-- The functions of the plugin manager.
abbrev pub manager_roles : RoleInterface PluginManager Plugin
manager_roles = record {
  by_name = get_by_name;
  add_role = λ p new_role m. add_role (some p) new_role m;
  set_role = λ p new_role m. set_role (some p) new_role m;
}

-- The plugins of the map are still there.
abbrev pub Keeps : PluginManager → PluginManager → Type 0
Keeps m n = (b : ℕ) → contains b m.plugins ≡ true → contains b n.plugins ≡ true

abbrev pub KeepsRoles : ℕ → PluginManager → PluginManager → Type 0
KeepsRoles a m n = (b f : ℕ) → b ≢ a → HasRole b f m.plugins → HasRole b f n.plugins

-- What `post` leaves: nothing has changed, where there is no plugin of the name; or the plugin of the name has
-- the role of a fault manager, if its type has it and it is not the plugin itself.
abbrev pub IsNested : Plugin → Bytes → PluginManager → Answer Plugin × PluginManager → Type 0
IsNested own name m (failure e, n) = (e ≡ pos 1) × (n ≡ m) × (get_by_name name m ≡ none)
IsNested own name m (success p, n) =
    (get_by_name name m ≡ some p)
    × Keeps m n
    × (p.address ≢ own.address
        → (bit_and p.pl_type pl_fault_manager == pl_fault_manager) ≡ true
        → HasRole p.address pl_fault_manager n.plugins)
