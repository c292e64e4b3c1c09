-- ===== src/Recording/Format.antt =====
-- The text of a recording, and the names that can stand in it.
use lau_sim.Base.{
  ℕ, ◌+◌, ◌^◌, ◌<◌, ◌≢◌, List, [], ◌∷◌, ◌++◌, Option, none, some, Bytes, length, All, u64, int32,
}
use lau_sim.FaultManager.{Component, Node, Fault, uniform_node, node_state_unknown}
use lau_sim.Libc.Text.{Lacks}
use lau_sim.Transcribe.{print_tic, print_faults}

-- The sections of the tics from number `k` on.
unfoldable pub print_tics : ℕ → List (List Fault) → Bytes
print_tics k [] = []
print_tics k (fs ∷ fss) = print_tic k ++ (print_faults fs ++ print_tics (u64 (k + 1)) fss)

-- The bytes by which the file is cut up.
abbrev pub reserved : Bytes
reserved = 0 ∷ b',' ∷ b'\n' ∷ b'#' ∷ []

-- A name that may be empty, and one that is not.
abbrev pub IsName : Bytes → Type 0
IsName = Lacks reserved

abbrev pub IsLabel : Bytes → Type 0
IsLabel s = (s ≢ []) × IsName s

-- The count of the components is an `unsigned`.
abbrev pub IsPlainNode : Node → Type 0
IsPlainNode n =
    IsLabel n.name
    × All (λ (c : Component). IsLabel c.name) n.components
    × (length n.components < 2 ^ 32)

abbrev pub IsPlainComponent : Option Bytes → Type 0
IsPlainComponent none = Unit
IsPlainComponent (some c) = IsLabel c

-- The severity is an `unsigned`.
abbrev pub IsPlainFault : Fault → Type 0
IsPlainFault f = IsName f.node × IsPlainComponent f.component × (f.severity < 2 ^ 32)

-- What replaying makes of the components, and of the node with index `i`.
abbrev pub restore_components : List Component → List Component
restore_components [] = []
restore_components (c ∷ cs) = record { name = c.name; severity = 0 } ∷ restore_components cs

abbrev pub restore_nodes : ℕ → List Node → List Node
restore_nodes i [] = []
restore_nodes i (n ∷ ns) =
    record {
      name = n.name;
      id = int32 i;
      node_type = uniform_node;
      state = node_state_unknown;
      components = restore_components n.components;
    }
    ∷ restore_nodes (i + 1) ns

-- The node, the component and the severity are those that were recorded; the ids count on from `id`.
abbrev pub restore_fault : ℕ → Fault → Fault
restore_fault id f = record {
  id = int32 id;
  name = none;
  component = f.component;
  node = f.node;
  severity = f.severity;
}

abbrev pub restore_faults : ℕ → List Fault → List Fault
restore_faults id [] = []
restore_faults id (f ∷ fs) = restore_fault (u64 (id + 1)) f ∷ restore_faults (u64 (id + 1)) fs

-- The id of the last of a list of faults, `id` being the one before them.
abbrev pub last_id : ℕ → List Fault → ℕ
last_id id [] = id
last_id id (f ∷ fs) = last_id (u64 (id + 1)) fs

abbrev pub restore_tics : ℕ → List (List Fault) → List (List Fault)
restore_tics id [] = []
restore_tics id (fs ∷ fss) = restore_faults id fs ∷ restore_tics (last_id id fs) fss
