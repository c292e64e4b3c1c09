-- ===== src/Config.antt =====
-- srv/config.h and srv/config.cpp: the configuration file of the server. An exception ends the program.
-- The log is not modelled.
mod Keys
pub mod Slots
pub mod Loaded
use lau_sim.Base.{
  ℕ, ◌^◌, ◌%◌, zero, suc, Bool, true, false, not, List, [], ◌∷◌, map, Option, none, some, Bytes,
  codes, ◌==◌, if◌then◌else◌, ℤ, pos, negsuc, bit_and,
}
use lau_sim.Libc.Text.{c_str, lines, tokens, starts_with, str_eq}
use lau_sim.Libc.Number.{stoul}
use lau_sim.PluginManager.{
  Plugin, PluginManager, has_pl_type, get_by_name, Linker, load_library, pl_com_actor,
  pl_com_extern, pl_fault_manager, pl_logger,
}
unfoldable pub use Keys.*

-- A slot is `none` where the pointer is NULL.
pub record Config : Type 0 where
  pub com_actor : Option Plugin
  pub com_notify : Option Plugin
  pub fault_manager : Option Plugin
  pub logger : Option Plugin
  pub tic_length : ℕ
  pub is_loaded : Bool

abbrev pub unset : Config
unset = record {
  com_actor = none;
  com_notify = none;
  fault_manager = none;
  logger = none;
  tic_length = 0;
  is_loaded = false;
}

-- A slot takes plugins with one flag only; -1 for others.
unfoldable pub fill_slot : ℕ → (Plugin → Config → Config) → Plugin → Config → ℤ × Config
unfolding has_pl_type
fill_slot flag put p conf = if has_pl_type p flag then (pos 0, put p conf) else (negsuc 0, conf)

unfoldable pub set_com_actor : Plugin → Config → ℤ × Config
unfolding fill_slot
set_com_actor p conf = fill_slot pl_com_actor (λ q c. record c { com_actor = some q }) p conf

unfoldable pub set_com_notify : Plugin → Config → ℤ × Config
unfolding fill_slot
set_com_notify p conf = fill_slot pl_com_extern (λ q c. record c { com_notify = some q }) p conf

unfoldable pub set_logger : Plugin → Config → ℤ × Config
unfolding fill_slot
set_logger p conf = fill_slot pl_logger (λ q c. record c { logger = some q }) p conf

unfoldable pub set_fault_manager : Plugin → Config → ℤ × Config
unfolding fill_slot
set_fault_manager p conf =
    fill_slot pl_fault_manager (λ q c. record c { fault_manager = some q }) p conf

-- The fall through of `com_all_id`, behind the actor's slot.
unfoldable pub notify_too : Plugin → ℤ × Config → ℤ × Config
unfolding set_com_notify
notify_too p (pos zero, conf) = set_com_notify p conf
notify_too p (ret, conf) = (ret, conf)

-- The `switch` of `set_config`, but for the length of a tic; any other key is accepted.
unfoldable pub assign : ℕ → Plugin → Config → ℤ × Config
unfolding set_com_actor set_com_notify set_logger set_fault_manager notify_too
assign id p conf =
    if id == com_all_id
    then notify_too p (set_com_actor p conf)
    else if id == com_actor_id
    then set_com_actor p conf
    else if id == com_notify_id
    then set_com_notify p conf
    else if id == logger_id
    then set_logger p conf
    else if id == manager_id
    then set_fault_manager p conf
    else (pos 0, conf)

unfoldable pub set_tic_length : Bytes → Config → Option (ℤ × Config)
unfolding stoul c_str
set_tic_length value conf = elim (stoul (c_str value)) [
  | none ↦ none
  | some n ↦ some (pos 0, record conf { tic_length = n })
]

-- The value is the name of a plugin that is loaded.
unfoldable pub set_plugin : ℕ → Bytes → PluginManager → Config → ℤ × Config
unfolding assign get_by_name c_str
set_plugin id value m conf = elim (get_by_name (c_str value) m) [
  | none ↦ (negsuc 0, conf)
  | some p ↦ assign id p conf
]

-- The stream is the list of the words that `>>` has not taken.
unfoldable pub set_config : ℕ → List Bytes → PluginManager → Config → Option (ℤ × Config)
unfolding set_tic_length set_plugin str_eq
set_config id (sign ∷ value ∷ _) m conf =
    if not (str_eq sign (codes "="))
    then some (negsuc 0, conf)
    else if id == tic_id
    then set_tic_length value conf
    else some (set_plugin id value m conf)
set_config id _ m conf = some (negsuc 0, conf)

-- What `>>` takes for space.
abbrev pub whitespace : Bytes
whitespace = b' ' ∷ 9 ∷ 10 ∷ 11 ∷ 12 ∷ 13 ∷ []

-- What `load_config` changes.
pub record Loading : Type 0 where
  pub state : ℕ
  pub manager : PluginManager
  pub conf : Config

module _ (linker : Linker) where
  unfoldable pub load_lib : Bytes → List Bytes → PluginManager → ℤ × PluginManager
  unfolding load_library c_str
  load_lib name args m = load_library linker (c_str name) (map c_str args) m

  -- A line in the section that it stands in.
  unfoldable pub declare : ℕ → Bytes → List Bytes → Loading → Option (ℤ × Loading)
  unfolding load_lib set_config
  declare id token args l =
      if l.state == 2 ^ libs_id
      then (let (ret, m) = load_lib token args l.manager in some (ret, record l { manager = m }))
      else elim (set_config id args l.manager l.conf) [
        | none ↦ none
        | some r ↦ some (r.0, record l { conf = r.1 })
      ]

  -- The words of a line.
  unfoldable pub load_line : List Bytes → Loading → Option (ℤ × Loading)
  unfolding declare starts_with get_token_identifyer
  load_line [] l = some (pos 0, l)
  load_line (token ∷ args) l =
      let id = get_token_identifyer token in
      if starts_with token (codes "#")
      then some (pos 0, l)
      else if bit_and id decl_id == 0
      then some (pos 0, record l { state = 2 ^ id % 2 ^ 8 })
      else declare id token args l

  -- The first line that fails ends the loop.
  unfoldable pub load_lines : List Bytes → Loading → Option (ℤ × Loading)
  unfolding load_line tokens
  load_lines [] l = some (pos 0, record l { conf = record l.conf { is_loaded = true } })
  load_lines (line ∷ ls) l = elim (load_line (tokens whitespace line) l) [
    | none ↦ none
    | some r ↦ elim r.0 [
      | pos n ↦ elim n [ zero ↦ load_lines ls r.1 | suc _ ↦ some (negsuc 0, r.1) ]
      | negsuc _ ↦ some (negsuc 0, r.1)
    ]
  ]

  -- `read_file` is the file system: `none` where there is no such file.
  unfoldable pub load_config :
      (Bytes → Option Bytes) → Bytes → PluginManager → Config → Option (ℤ × PluginManager × Config)
  unfolding load_lines lines
  load_config read_file filename m conf =
      if conf.is_loaded then some (pos 1, m, conf) else elim (read_file filename) [
        | none ↦ some (negsuc 0, m, conf)
        | some file ↦
            elim (load_lines (lines file) (record { state = 0; manager = m; conf = conf })) [
              | none ↦ none
              | some r ↦ some (r.0, r.1.manager, r.1.conf)
            ]
      ]
