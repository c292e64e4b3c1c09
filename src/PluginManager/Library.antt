-- ===== src/PluginManager/Library.antt =====
-- srv/library.h and srv/library.cpp: a library, over the dynamic linker: `dlmopen` and `dlsym` are
-- arguments, whose NULL is `none`, with handles `H` and symbols `F`.
use lau_sim.Base.{
  Bool, true, false, [], Option, none, some, Bytes, codes, if◌then◌else◌, ℤ, pos, negsuc, zero, suc,
  List,
}
use lau_sim.PluginManager.{PluginManager, Linker}

pub record Library (H : Type 0) : Type 0 where
  pub is_init : Bool
  pub name : Bytes
  pub handle : Option H

abbrev pub new_library : {H : Type 0} → Library H
new_library = record { is_init = false; name = []; handle = none }

-- `library::open`
unfoldable pub open_library : {H : Type 0} → (Bytes → Option H) → Bytes → Library H → ℤ × Library H
open_library dlmopen filename l = if l.is_init then (negsuc 0, l) else elim (dlmopen filename) [
  | none ↦ (negsuc 1, record l { handle = none })
  | some h ↦ (pos 0, record { is_init = true; name = filename; handle = some h })
]

unfoldable pub get_sym_addr : {H F : Type 0} → (H → Bytes → Option F) → Bytes → Library H → Option F
get_sym_addr dlsym symname l =
    if l.is_init then elim l.handle [ none ↦ none | some h ↦ dlsym h symname ] else none

-- The calls of `load_library`, on a new library.
unfoldable pub linker_of :
    {H : Type 0}
    → (Bytes → Option H)
    → (H → Bytes → Option (List Bytes → PluginManager → ℤ × PluginManager))
    → Linker
unfolding open_library get_sym_addr
linker_of dlmopen dlsym file =
    let (ret, l) = open_library dlmopen file new_library in
    elim ret [
      | pos n ↦ elim n [ zero ↦ some (get_sym_addr dlsym (codes "init") l) | suc _ ↦ none ]
      | negsuc _ ↦ none
    ]
