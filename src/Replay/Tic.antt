-- ===== src/Replay/Tic.antt =====
-- plugins/replay/replay.c: `tic`, `get_fail`, `inject_fail`, `init`. The faults of the last tic are
-- replaced as a whole, which is what `free_faults` and the reset of the vector do.
use lau_sim.Base.{
  ℕ, ◌+◌, Bool, true, false, ◌&&◌, not, List, [], ◌∷◌, ◌++◌, Option, none, some, Bytes, codes,
  length, ltb, ◌==◌, if◌then◌else◌, u32, u64, int32, ℤ, pos, negsuc,
}
use lau_sim.FaultManager.{
  Run, ok, ◌>>=◌, Answer, success, failure, Fault, FaultManager, pl_intf_version,
  PluginManagerInterface,
}
use lau_sim.Libc.Text.{c_str, lines, strchr, strstr}
use lau_sim.Libc.Number.{strtoull}
use lau_sim.Replay.State.{Replay, get_tic_num, defined}
use lau_sim.Replay.Nodes.{get_nodes}

-- `if (comp[0] != 0)`: an empty name of a component leaves the field NULL.
unfoldable pub read_component : Bytes → Option Bytes
read_component [] = none
read_component (c ∷ s) = some (c ∷ s)

unfoldable pub make_fault : ℕ → Bytes → Bytes → ℕ → Fault
unfolding read_component
make_fault id name comp severity = record {
  id = int32 id;
  name = none;
  component = read_component comp;
  node = name;
  severity = u32 severity;
}

-- `faults[num_fault - 1]` is the new fault; the counter of the ids is a `size_t`.
unfoldable pub add_fault : Bytes → Bytes → Option ℕ → Replay → Replay
unfolding make_fault
add_fault name comp none r = r
add_fault name comp (some severity) r =
    let id' = u64 (r.id + 1) in
    record r { id = id'; faults = r.faults ++ make_fault id' name comp severity ∷ [] }

-- The text up to the second comma, and the severity behind it.
unfoldable pub read_second : Bytes → Option (Bytes × Bytes) → Replay → Replay
unfolding add_fault
read_second name none r = r
read_second name (some (comp, sev)) r = add_fault name comp (strtoull sev) r

unfoldable pub read_fault : Option (Bytes × Bytes) → Replay → Replay
unfolding read_second
read_fault none r = r
read_fault (some (name, rest)) r = read_second name (strchr rest b',') r

-- The body of the loop of `tic`, behind `getline`. `continue` ends it.
unfoldable pub read_line : Bytes → Replay → Run Replay
unfolding read_fault defined get_tic_num
read_line l r =
    if length l == 0
    then ok r
    else if strstr (c_str l) (codes "tic#")
    then (do n ← defined (get_tic_num (c_str l)); ok (record r { nxt_tic = n }))
    else ok (read_fault (strchr (c_str l) b',') r)

-- `while (nxt_tic < tic_num && !done)` over the lines that are left.
unfoldable pub tic_loop : List Bytes → Replay → Run Replay
tic_loop [] r = ok (
    if ltb r.nxt_tic r.tic_num && not r.done
    then record r { file = []; done = true }
    else record r { file = [] })
tic_loop (l ∷ ls) r =
    let rest = read_line l r >>= tic_loop ls in
    if ltb r.nxt_tic r.tic_num && not r.done then rest else ok (record r { file = l ∷ ls })

-- `tic_num++ < nxt_tic` compares the old value.
unfoldable pub tic : Replay → Run Replay
tic r =
    let cleared = record r { faults = [] } in
    let next = record cleared { tic_num = u64 (r.tic_num + 1) } in
    let rest = tic_loop r.file next in
    if r.done then ok cleared else if ltb r.tic_num r.nxt_tic then ok next else rest

unfoldable pub get_fail : Replay → Run (List Fault × Replay)
get_fail r = ok (r.faults, r)

-- Faults cannot be injected.
unfoldable pub inject_fail : Fault → Replay → Run (ℤ × Replay)
inject_fail f r = ok (pos 1, r)

abbrev pub manager : (ℕ → ℕ → Bool) → FaultManager Replay
manager calloc = record {
  get_nodes = get_nodes calloc;
  tic = tic;
  get_fail = get_fail;
  inject_fail = inject_fail;
}

-- The variables that C sets to zero at the start, and the opened file.
unfoldable pub fresh : Bytes → Replay
unfolding lines
fresh text = record {
  file = lines text;
  tic_num = 0;
  nxt_tic = 0;
  id = 0;
  done = false;
  nodes = [];
  faults = [];
}

-- `fopen (name, "r")` is the argument `fopen`; the result of the registration is not read.
unfoldable pub init :
    {M : Type 0}
    → PluginManagerInterface M
    → (Bytes → Option Bytes)
    → List Bytes
    → M
    → Answer Replay × M
unfolding fresh
init inter fopen argv m =
    if not (inter.version == pl_intf_version) then (failure (pos 1), m) else elim argv [
      | [] ↦ (failure (negsuc 0), m)
      | name ∷ _ ↦ elim (fopen name) [
        | none ↦ (failure (negsuc 0), m)
        | some text ↦ (success (fresh text), (inter.register_plugin (codes "replay") m).1)
      ]
    ]
