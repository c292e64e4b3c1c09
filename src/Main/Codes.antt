-- ===== src/Main/Codes.antt =====
-- The exit codes of srv/main.cpp.
use lau_sim.Base.{
  ℕ, zero, suc, ◌≡◌, refl, ◌⊎◌, inl, inr, List, [], ◌∷◌, Option, none, some, Bytes, ℤ, pos, negsuc,
}
use lau_sim.PluginManager.{PluginManager, Linker}
use lau_sim.Config.{Config, load_config}
use lau_sim.Options.{Options, defaults, parse}
use lau_sim.Main.{Stage, configure, assign_roles, give_roles, use_logger}

-- The exit codes of the configuration.
abbrev pub IsCode : ℤ → Type 0
IsCode code = (code ≡ negsuc 0) ⊎ (code ≡ pos 1)

abbrev pub IsExit : Option ℤ → Type 0
IsExit none = Unit
IsExit (some code) = IsCode code

abbrev pub HasCode : Option Stage → Type 0
HasCode none = Unit
HasCode (some st) = IsExit st.exit_code

assign_roles-HasCode : (o : Option (ℤ × PluginManager × Config)) → HasCode (assign_roles o)
unfolding assign_roles
assign_roles-HasCode none = tt
assign_roles-HasCode (some (pos (suc n), m, c)) = inr refl
assign_roles-HasCode (some (negsuc n, m, c)) = inr refl
assign_roles-HasCode (some (pos zero, m, c)) = go (give_roles c (use_logger c m))
  where
    go :
        (r : Option PluginManager)
        → HasCode (elim r [
          | none ↦ none
          | some m' ↦ some (record { exit_code = none; manager = m'; conf = c })
        ])
    go none = tt
    go (some m') = tt

pub configure-HasCode :
    (linker : Linker) (read_file : Bytes → Option Bytes) (opts : List (ℕ × Bytes))
    (m : PluginManager) (c : Config)
    → HasCode (configure linker read_file opts m c)
configure-HasCode linker read_file opts m c = unfold configure in go (parse opts defaults)
  where
    named :
        (name : Bytes)
        → HasCode (elim name [
          | [] ↦ some (record { exit_code = some (negsuc 0); manager = m; conf = c })
          | b ∷ bs ↦ assign_roles (load_config linker read_file (b ∷ bs) m c)
        ])
    named [] = inl refl
    named (b ∷ bs) = assign_roles-HasCode (load_config linker read_file (b ∷ bs) m c)

    go :
        (r : ℤ × Options)
        → HasCode (elim r.0 [
          | negsuc _ ↦ some (record { exit_code = some (negsuc 0); manager = m; conf = c })
          | pos _ ↦ elim r.1.cfile [
            | [] ↦ some (record { exit_code = some (negsuc 0); manager = m; conf = c })
            | b ∷ bs ↦ assign_roles (load_config linker read_file (b ∷ bs) m c)
          ]
        ])
    go (negsuc n, o) = inl refl
    go (pos n, o) = named o.cfile
