-- ===== src/Transcribe.antt =====
-- plugins/transcribe/transcribe.c: a fault manager that forwards all calls to a nested one and
-- writes what that returns to a file.
pub mod Start
pub mod Roles
use lau_sim.Base.{
  ℕ, ◌+◌, List, [], ◌∷◌, ◌++◌, Option, none, some, Bytes, codes, length, u64, int32, int64, ℤ,
}
use lau_sim.FaultManager.{
  Run, ok, ◌>>=◌, Answer, success, failure, Component, Node, Fault, FaultManager,
}
use lau_sim.Libc.Number.{print_nat, print_int}

-- `fprintf (file, ",%s", …)` for each component, and the end of the line.
unfoldable pub print_components : List Component → Bytes
print_components [] = b'\n' ∷ []
print_components (c ∷ cs) = b',' ∷ (c.name ++ print_components cs)

-- `fprintf (file, "%s,%u", …)`, and the components.
unfoldable pub print_node : Node → Bytes
unfolding print_components
print_node n = n.name ++ b',' ∷ (print_nat (length n.components) ++ print_components n.components)

unfoldable pub print_nodes : List Node → Bytes
unfolding print_node
print_nodes [] = []
print_nodes (n ∷ ns) = print_node n ++ print_nodes ns

-- `%ld` at a `size_t`
unfoldable pub print_tic : ℕ → Bytes
print_tic k = codes "[tic#" ++ (print_int (int64 k) ++ codes "]\n")

-- `(flt->component == NULL) ? "" : flt->component`
unfoldable pub component_text : Option Bytes → Bytes
component_text none = []
component_text (some c) = c

-- `fprintf (file, "%s,%s,%d\n", …)`; `%d` at an `unsigned`
unfoldable pub print_fault : Fault → Bytes
unfolding component_text
print_fault f =
    f.node
    ++ b',' ∷ (component_text f.component ++ b',' ∷ (print_int (int32 f.severity) ++ b'\n' ∷ []))

unfoldable pub print_faults : List Fault → Bytes
unfolding print_fault
print_faults [] = []
print_faults (f ∷ fs) = print_fault f ++ print_faults fs

-- The variables of the plugin, and those of the nested fault manager.
pub record Transcribe (S : Type 0) : Type 0 where
  pub file : Bytes
  pub tic_num : ℕ
  pub nested : S

-- The variables behind `init`, over the nested manager that `post` looks up.
unfoldable pub fresh : {S : Type 0} → S → Transcribe S
fresh s = record { file = []; tic_num = 0; nested = s }

-- The header of `get_nodes`: the count and the nodes, if the nested call returned 0.
unfoldable pub print_answer : Answer (List Node) → Bytes
unfolding print_nodes
print_answer (success ns) = print_nat (length ns) ++ b'\n' ∷ print_nodes ns
print_answer (failure e) = []

module _ {S : Type 0} (m : FaultManager S) where
  unfoldable pub get_nodes : Transcribe S → Run (Answer (List Node) × Transcribe S)
  unfolding print_answer
  get_nodes t = do
    (a, s) ← m.get_nodes t.nested
    ok (a, record t { file = t.file ++ print_answer a; nested = s })

  -- The line of the tic is written before the nested call.
  unfoldable pub tic : Transcribe S → Run (Transcribe S)
  tic t = do
    s ← m.tic t.nested
    ok (record t {
      file = t.file ++ print_tic t.tic_num;
      tic_num = u64 (t.tic_num + 1);
      nested = s;
    })

  unfoldable pub get_fail : Transcribe S → Run (List Fault × Transcribe S)
  unfolding print_faults
  get_fail t = do
    (fs, s) ← m.get_fail t.nested
    ok (fs, record t { file = t.file ++ print_faults fs; nested = s })

  unfoldable pub inject_fail : Fault → Transcribe S → Run (ℤ × Transcribe S)
  inject_fail f t = do (r, s) ← m.inject_fail f t.nested; ok (r, record t { nested = s })

  abbrev pub manager : FaultManager (Transcribe S)
  manager = record {
    get_nodes = get_nodes;
    tic = tic;
    get_fail = get_fail;
    inject_fail = inject_fail;
  }
