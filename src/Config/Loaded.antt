-- ===== src/Config/Loaded.antt =====
-- What srv/config.cpp leaves behind a configuration file, whatever stands in it.
use lau_sim.Base.{
  ℕ, zero, suc, ◌^◌, ◌≡◌, refl, true, List, [], ◌∷◌, map, Option, none, some, Bytes, codes, ◌==◌, ℤ,
  pos, negsuc, bit_and, if_ind,
}
use lau_sim.Libc.Text.{c_str, lines, tokens, starts_with}
use lau_sim.PluginManager.{Plugin, PluginManager, contains, Linker, keep_library, load_library}
use lau_sim.PluginManager.Invariant.{Call, Trace, IsValid, Trace-IsValid}
use lau_sim.PluginManager.Growth.{Trace-contains}
use lau_sim.Config.{
  Config, set_config, Loading, load_lib, declare, load_line, load_lines, load_config, whitespace,
  get_token_identifyer, libs_id, decl_id,
}
use lau_sim.Config.Slots.{IsSlot, IsConfigured, Returns, set_config-Returns}

-- The plugins of a manager are those of another, and perhaps more.
abbrev pub IsKept : PluginManager → PluginManager → Type 0
IsKept m n = (b : ℕ) → contains b m.plugins ≡ true → contains b n.plugins ≡ true

pub IsSlot-kept :
    (f : ℕ) (m n : PluginManager) (s : Option Plugin) → IsKept m n → IsSlot f m s → IsSlot f n s
IsSlot-kept f m n none k h = tt
IsSlot-kept f m n (some p) k (w, known) = (w, k p.address known)

pub IsConfigured-kept :
    (m n : PluginManager) (c : Config) → IsKept m n → IsConfigured m c → IsConfigured n c
IsConfigured-kept m n c k h = record {
  actor = IsSlot-kept _ m n c.com_actor k h.actor;
  notify = IsSlot-kept _ m n c.com_notify k h.notify;
  manager = IsSlot-kept _ m n c.fault_manager k h.manager;
  log = IsSlot-kept _ m n c.logger k h.log;
}

module _ (struct : ℕ → Plugin) (addresses : (a : ℕ) → (struct a).address ≡ a) where
  -- The `init` functions of the libraries use the manager by calls of its interface only.
  abbrev pub IsLinked : Linker → Type 0
  IsLinked linker =
      (file : Bytes) (init : List Bytes → PluginManager → ℤ × PluginManager)
      → linker file ≡ some (some init)
      → (argv : List Bytes) (m : PluginManager)
      → (cs : List Call) × Trace struct addresses m cs (init argv m).1

  abbrev Extends : PluginManager → PluginManager → Type 0
  Extends m n = (IsValid struct addresses m → IsValid struct addresses n) × IsKept m n

  abbrev Leads : PluginManager → ℤ × PluginManager → Type 0
  Leads m r = Extends m r.1

  keep_library-Extends :
      (argv : List Bytes) (m : PluginManager) (r : ℤ × PluginManager)
      → Extends m r.1
      → Extends m (keep_library argv r).1
  unfolding keep_library
  keep_library-Extends argv m (pos zero, n) h = h
  keep_library-Extends argv m (pos (suc k), n) h = h
  keep_library-Extends argv m (negsuc k, n) h = h

  -- What `load_config` has so far.
  abbrev pub IsLoading : Loading → Type 0
  IsLoading l = IsValid struct addresses l.manager × IsConfigured l.manager l.conf

  abbrev Stands : Option (ℤ × Loading) → Type 0
  Stands none = Unit
  Stands (some r) = IsLoading r.1

  module _ (linker : Linker) (linked : IsLinked linker) where
    load_library-Extends :
        (file : Bytes) (argv : List Bytes) (m : PluginManager)
        → Extends m (load_library linker file argv m).1
    load_library-Extends file argv m = unfold load_library in go (linker file) refl
      where
        go :
            (o : Option (Option (List Bytes → PluginManager → ℤ × PluginManager)))
            → linker file ≡ o
            → Leads m (elim o [
              | none ↦ (negsuc 0, m)
              | some found ↦ elim found [
                | none ↦ (negsuc 1, m)
                | some init ↦ keep_library argv (init argv m)
              ]
            ])
        go none e = ((λ v. v), λ b k. k)
        go (some none) e = ((λ v. v), λ b k. k)
        go (some (some init)) e =
            let (cs, t) = linked file init e argv m in
            keep_library-Extends argv m (init argv m)
              (Trace-IsValid struct addresses t, Trace-contains struct addresses t)

    declare-Stands :
        (id : ℕ) (token : Bytes) (args : List Bytes) (l : Loading)
        → IsLoading l
        → Stands (declare linker id token args l)
    declare-Stands id token args l (v, c) =
        unfold declare load_lib in
        if_ind Stands (l.state == 2 ^ libs_id)
          (let (x, k) = load_library-Extends (c_str token) (map c_str args) l.manager in
            (x v, IsConfigured-kept l.manager _ l.conf k c))
          (go (set_config id args l.manager l.conf) (set_config-Returns l.manager id args l.conf c))
      where
        go :
            (o : Option (ℤ × Config))
            → Returns l.manager o
            → Stands (elim o [ none ↦ none | some r ↦ some (r.0, record l { conf = r.1 }) ])
        go none h = tt
        go (some r) h = (v, h)

    load_line-Stands :
        (words : List Bytes) (l : Loading) → IsLoading l → Stands (load_line linker words l)
    unfolding load_line
    load_line-Stands [] l h = h
    load_line-Stands (token ∷ args) l h = if_ind Stands (starts_with token (codes "#")) h (
        if_ind Stands (bit_and (get_token_identifyer token) decl_id == 0) h
          (declare-Stands (get_token_identifyer token) token args l h))

    load_lines-Stands :
        (ls : List Bytes) (l : Loading) → IsLoading l → Stands (load_lines linker ls l)
    unfolding load_lines
    load_lines-Stands [] l (v, h) =
        (v, record { actor = h.actor; notify = h.notify; manager = h.manager; log = h.log })
    load_lines-Stands (line ∷ ls) l h =
        go (load_line linker (tokens whitespace line) l)
          (load_line-Stands (tokens whitespace line) l h) (load_lines-Stands ls)
      where
        go :
            (o : Option (ℤ × Loading))
            → Stands o
            → ((l' : Loading) → IsLoading l' → Stands (load_lines linker ls l'))
            → Stands (elim o [
              | none ↦ none
              | some r ↦ elim r.0 [
                | pos n ↦ elim n [ zero ↦ load_lines linker ls r.1 | suc _ ↦ some (negsuc 0, r.1) ]
                | negsuc _ ↦ some (negsuc 0, r.1)
              ]
            ])
        go none k more = tt
        go (some (pos zero, l')) k more = more l' k
        go (some (pos (suc n), l')) k more = k
        go (some (negsuc n, l')) k more = k

    -- The manager and the configuration behind `load_config`.
    abbrev pub Loaded : Option (ℤ × PluginManager × Config) → Type 0
    Loaded none = Unit
    Loaded (some (ret, m, c)) = IsValid struct addresses m × IsConfigured m c

    -- Whatever a configuration file holds: if the `init` functions of the libraries use the manager by
    -- calls of its interface only, then `load_config`, whether it succeeds or fails, leaves the manager
    -- valid and in each slot of the configuration nothing or a plugin that is registered and made for
    -- that slot, as long as no number in the file makes it throw.
    pub load_config-Loaded :
        (read_file : Bytes → Option Bytes) (filename : Bytes) (m : PluginManager) (c : Config)
        → IsValid struct addresses m
        → IsConfigured m c
        → Loaded (load_config linker read_file filename m c)
    load_config-Loaded read_file filename m c v h =
        unfold load_config in if_ind Loaded c.is_loaded (v, h) (go (read_file filename))
      where
        all : Bytes → Option (ℤ × Loading)
        all file = load_lines linker (lines file) (record { state = 0; manager = m; conf = c })

        out : Option (ℤ × Loading) → Option (ℤ × PluginManager × Config)
        out o = elim o [ none ↦ none | some r ↦ some (r.0, r.1.manager, r.1.conf) ]

        out-Loaded : (o : Option (ℤ × Loading)) → Stands o → Loaded (out o)
        out-Loaded none k = tt
        out-Loaded (some (ret, l)) k = k

        go :
            (o : Option Bytes)
            → Loaded (elim o [ none ↦ some (negsuc 0, m, c) | some file ↦ out (all file) ])
        go none = (v, h)
        go (some file) = out-Loaded (all file) (load_lines-Stands (lines file) _ (v, h))
