-- ===== src/Transcribe/Start.antt =====
-- plugins/transcribe/transcribe.c: `init` and `post`, over the functions of the plugin manager that they
-- call.
use lau_sim.Base.{
  ℕ, Bool, not, List, [], ◌∷◌, Option, none, some, Bytes, codes, ◌==◌, if◌then◌else◌, ℤ, pos,
  negsuc,
}
use lau_sim.PluginManager.{pl_fault_manager, pl_other}
use lau_sim.FaultManager.{Answer, success, failure, PluginManagerInterface, pl_intf_version}

-- What `post` uses of the plugin manager: the search for a plugin, which is NULL if there is none, and
-- the roles, where `none` is an exception, which ends the program.
pub record RoleInterface (M P : Type 0) : Type 0 where
  pub by_name : Bytes → M → Option P
  pub add_role : P → ℕ → M → Option (ℤ × M)
  pub set_role : P → ℕ → M → Option (ℤ × M)

-- `fopen (argv [1], "w")` is the argument `fopen`. On success: the name of the nested fault manager.
unfoldable pub init :
    {M : Type 0} → PluginManagerInterface M → (Bytes → Bool) → List Bytes → M → Answer Bytes × M
init inter fopen argv m =
    if not (inter.version == pl_intf_version) then (failure (pos 1), m) else elim argv [
      | [] ↦ (failure (negsuc 0), m)
      | fault_name ∷ rest ↦ elim rest [
        | [] ↦ (failure (negsuc 0), m)
        | name ∷ _ ↦
            if fopen name
            then (success fault_name, (inter.register_plugin (codes "transcribe") m).1)
            else (failure (negsuc 0), m)
      ]
    ]

-- `own` is the plugin itself. On success: the plugin whose fault manager is nested.
unfoldable pub post : {M P : Type 0} → RoleInterface M P → P → Bytes → M → Option (Answer P × M)
post roles own fault_name m = elim (roles.by_name fault_name m) [
  | none ↦ some (failure (pos 1), m)
  | some fmpl ↦ elim (roles.add_role fmpl pl_fault_manager m) [
    | none ↦ none
    | some (_, m₁) ↦ elim (roles.set_role own pl_other m₁) [
      | none ↦ none
      | some (_, m₂) ↦ some (success fmpl, m₂)
    ]
  ]
]
