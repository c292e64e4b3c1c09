-- ===== src/PluginManager.antt =====
-- srv/plugin_internal.h, srv/plugin_internal.cpp and the `plugin` of include/lausim/plugin.h: the manager
-- of the plugins. A plugin is known by the address of its struct; the functions behind its pointers,
-- and what the dynamic linker finds in a library, are arguments. The log is not modelled.
pub mod Lookup
pub mod Entries
pub mod Invariant
pub mod Growth
pub mod Library
use lau_sim.Base.{
  ℕ, zero, suc, Bool, true, false, not, ◌||◌, List, [], ◌∷◌, ◌++◌, Option, none, some, Bytes, ltb,
  ◌==◌, if◌then◌else◌, ℤ, pos, negsuc, bit_and, bit_or,
}
use lau_sim.Libc.Text.{str_eq}

-- `struct plugin`, but for its functions.
pub record Plugin : Type 0 where
  pub address : ℕ
  pub version : ℕ
  pub pl_type : ℕ
  pub name : Bytes

abbrev pub pl_none : ℕ
pl_none = 0

abbrev pub pl_com_actor : ℕ
pl_com_actor = 1

abbrev pub pl_com_extern : ℕ
pl_com_extern = 2

abbrev pub pl_fault_manager : ℕ
pl_fault_manager = 4

abbrev pub pl_logger : ℕ
pl_logger = 8

abbrev pub pl_topology : ℕ
pl_topology = 16

abbrev pub pl_other : ℕ
pl_other = 32

-- `HAS_PL_TYPE (pl, t)`, as a condition.
unfoldable pub has_pl_type : Plugin → ℕ → Bool
has_pl_type pl t = not (bit_and pl.pl_type t == 0)

-- `pl_role`, the entry of a plugin in the map.
pub record Entry : Type 0 where
  pub role : ℕ
  pub pl : Plugin

-- The map is ordered by the addresses of the plugins. A library is represented by the copies of its
-- arguments, and the logger in use by the plugin that has it; `none` is the standard logger.
pub record PluginManager : Type 0 where
  pub plugins : List Entry
  pub libraries : List (List Bytes)
  pub logger_used : Option Plugin

abbrev pub fresh : PluginManager
fresh = record { plugins = []; libraries = []; logger_used = none }

-- `plugins.find (p) != plugins.end ()`
unfoldable pub contains : ℕ → List Entry → Bool
contains address [] = false
contains address (e ∷ es) = address == e.pl.address || contains address es

-- `std::map::emplace`, of a key that the map does not have.
unfoldable pub emplace : Entry → List Entry → List Entry
emplace x [] = x ∷ []
emplace x (e ∷ es) = if ltb x.pl.address e.pl.address then x ∷ e ∷ es else e ∷ emplace x es

unfoldable pub find_name : Bytes → List Entry → Option Plugin
find_name name [] = none
find_name name (e ∷ es) = if str_eq name e.pl.name then some e.pl else find_name name es

unfoldable pub get_by_name : Bytes → PluginManager → Option Plugin
unfolding find_name
get_by_name name m = find_name name m.plugins

unfoldable pub find_type : ℕ → List Entry → Option Plugin
find_type type [] = none
find_type type (e ∷ es) = if bit_and e.role type == type then some e.pl else find_type type es

unfoldable pub get_by_type : ℕ → PluginManager → Option Plugin
unfolding find_type
get_by_type type m = find_type type m.plugins

unfoldable pub is_registered : Plugin → PluginManager → Bool
unfolding contains get_by_name
is_registered p m =
    (elim (get_by_name p.name m) [ none ↦ false | some _ ↦ true ]) || contains p.address m.plugins

unfoldable pub register_plugin : Plugin → PluginManager → ℤ × PluginManager
unfolding is_registered emplace
register_plugin p m =
    if is_registered p m
    then (negsuc 0, m)
    else (pos 0, record m { plugins = emplace (record { role = pl_none; pl = p }) m.plugins })

-- `plugins.at (pl)`, with a change of the role; `none` is the exception `std::out_of_range`.
unfoldable pub change_role : (ℕ → ℕ) → ℕ → List Entry → Option (List Entry)
change_role change address [] = none
change_role change address (e ∷ es) =
    let rest = change_role change address es in
    if address == e.pl.address
    then some (record e { role = change e.role } ∷ es)
    else elim rest [ none ↦ none | some es' ↦ some (e ∷ es') ]

unfoldable pub assign_role :
    (ℕ → ℕ) → Option Plugin → ℕ → PluginManager → Option (ℤ × PluginManager)
unfolding change_role
assign_role change none new_role m = some (negsuc 0, m)
assign_role change (some pl) new_role m =
    if bit_and pl.pl_type new_role == new_role
    then elim (change_role change pl.address m.plugins) [
      | none ↦ none
      | some es ↦ some (pos 0, record m { plugins = es })
    ]
    else some (negsuc 0, m)

-- `none`: the exception is thrown.
unfoldable pub set_role : Option Plugin → ℕ → PluginManager → Option (ℤ × PluginManager)
unfolding assign_role
set_role pl new_role m = assign_role (λ _. new_role) pl new_role m

unfoldable pub add_role : Option Plugin → ℕ → PluginManager → Option (ℤ × PluginManager)
unfolding assign_role
add_role pl new_role m = assign_role (λ role. bit_or role new_role) pl new_role m

unfoldable pub all_plugins : PluginManager → List Entry
all_plugins m = m.plugins

-- What the linker finds: `none` if the library cannot be opened, and then perhaps a function `init`.
abbrev pub Linker : Type 0
Linker = Bytes → Option (Option (List Bytes → PluginManager → ℤ × PluginManager))

-- The result of `init`.
unfoldable pub keep_library : List Bytes → ℤ × PluginManager → ℤ × PluginManager
keep_library argv (pos zero, m) = (pos 0, record m { libraries = m.libraries ++ argv ∷ [] })
keep_library argv (pos (suc _), m) = (negsuc 2, m)
keep_library argv (negsuc _, m) = (negsuc 2, m)

unfoldable pub load_library : Linker → Bytes → List Bytes → PluginManager → ℤ × PluginManager
unfolding keep_library
load_library linker file argv m = elim (linker file) [
  | none ↦ (negsuc 0, m)
  | some found ↦ elim found [ none ↦ (negsuc 1, m) | some init ↦ keep_library argv (init argv m) ]
]

module _ {W : Type 0} (cleanup_fun : Plugin → Option (W → W)) where
  unfoldable pub cleanup_plugins : List Entry → W → W
  cleanup_plugins [] w = w
  cleanup_plugins (e ∷ es) w =
      cleanup_plugins es (elim (cleanup_fun e.pl) [ none ↦ w | some f ↦ f w ])

  -- The plugins are cleaned up in the order of the map, and the libraries released.
  unfoldable pub cleanup : PluginManager → W → PluginManager × W
  unfolding cleanup_plugins
  cleanup m w = (record m { libraries = [] }, cleanup_plugins m.plugins w)
