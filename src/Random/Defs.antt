-- ===== src/Random/Defs.antt =====
-- plugins/random/random.c and random.h: the variables and the functions of the plugin. `rand` is a
-- parameter, with its state; so is what the allocator grants (what it does not is NULL). The log is
-- not modelled.
use lau_sim.Base.{
  ℕ, zero, suc, ◌+◌, ◌*◌, ◌/◌, Bool, true, false, ◌&&◌, ◌||◌, List, [], ◌∷◌, ◌++◌, none, some,
  Bytes, codes, length, ltb, ◌==◌, if◌then◌else◌, ℤ, pos, negsuc, is_negative, nat_part, to_int,
}
use lau_sim.FaultManager.{
  Run, ok, undefined, ◌>>=◌, Answer, success, failure, uniform_node, Node, Fault, FaultManager,
  node_state_unknown, pl_intf_version, PluginManagerInterface,
}
use lau_sim.Libc.Number.{strtol, int_or_zero, print_nat}

-- `mynode`
pub record MyNode : Type 0 where
  pub p : Node
  pub healthy : Bool

pub record Random (G : Type 0) : Type 0 where
  pub num : ℤ
  pub nodes : List MyNode
  pub faults : List Fault
  pub generator : G

abbrev pub rand_max : ℕ
rand_max = 2147483647

-- `RAND_MAX / 10`
abbrev pub prob : ℕ
prob = rand_max / 10

abbrev pub base_nodes : List MyNode → List Node
base_nodes [] = []
base_nodes (x ∷ xs) = x.p ∷ base_nodes xs

unfoldable pub get_nodes : {G : Type 0} → Random G → Run (Answer (List Node) × Random G)
get_nodes r =
    if is_negative r.num || nat_part r.num == 0
    then ok (failure (negsuc 0), r)
    else ok (success (base_nodes r.nodes), r)

-- The fault of a node that has just failed.
unfoldable pub node_failed : Node → Fault
node_failed n = record {
  id = n.id;
  name = some (codes "node-failed");
  component = none;
  node = n.name;
  severity = 100;
}

module _ {G : Type 0} (rand : G → ℕ × G) (calloc : ℕ → ℕ → Bool) (realloc : ℕ → Bool) where
  -- The body of the loop of `tic`, with the faults so far; false: the vector could not grow, and the
  -- function returns. `rand` is called for healthy nodes only.
  unfoldable pub tic_node : MyNode → List Fault → G → Run (MyNode × List Fault × G × Bool)
  unfolding node_failed
  tic_node x fs g =
      if x.healthy
      then (let (v, g') = rand g in
          if ltb v prob
          then (let x' = record x { healthy = false } in
              if realloc ((length fs + 1) * 8)
              then (if calloc 1 40
                  then ok (x', fs ++ node_failed x.p ∷ [], g', true)
                  else undefined)
              else ok (x', [], g', false))
          else ok (x, fs, g', true))
      else ok (x, fs, g, true)

  unfoldable pub tic_loop : List MyNode → List Fault → G → Run (List MyNode × List Fault × G)
  unfolding tic_node
  tic_loop [] fs g = ok ([], fs, g)
  tic_loop (x ∷ xs) fs g = tic_node x fs g >>= λ (x', fs', g', more).
      if more
      then tic_loop xs fs' g' >>= (λ (xs', fs₁, g₁). ok (x' ∷ xs', fs₁, g₁))
      else ok (x' ∷ xs, fs', g')

  -- The faults of the last tic are freed first.
  unfoldable pub tic : Random G → Run (Random G)
  unfolding tic_loop
  tic r = do
    (xs, fs, g) ← tic_loop r.nodes [] r.generator
    ok (record r { nodes = xs; faults = fs; generator = g })

unfoldable pub get_fail : {G : Type 0} → Random G → Run (List Fault × Random G)
get_fail r = ok (r.faults, r)

unfoldable pub inject_fail : {G : Type 0} → Fault → Random G → Run (ℤ × Random G)
inject_fail f r = ok (pos 1, r)

abbrev pub manager :
    {G : Type 0} → (G → ℕ × G) → (ℕ → ℕ → Bool) → (ℕ → Bool) → FaultManager (Random G)
manager rand calloc realloc = record {
  get_nodes = get_nodes;
  tic = tic rand calloc realloc;
  get_fail = get_fail;
  inject_fail = inject_fail;
}

-- `snprintf (…, 0x40, "node%d", i)`: an `int` has ten digits at most, so nothing is cut off.
unfoldable pub node_name : ℕ → Bytes
node_name i = codes "node" ++ print_nat i

-- The fields of a new node that `init` does not set are zero.
unfoldable pub new_node : ℕ → MyNode
unfolding node_name
new_node i = record {
  p = record {
    name = node_name i;
    id = pos 0;
    node_type = uniform_node;
    state = node_state_unknown;
    components = [];
  };
  healthy = true;
}

module _ (calloc : ℕ → ℕ → Bool) (malloc : ℕ → Bool) where
  -- The loop of `init` from `i` on, `k` rounds.
  unfoldable pub make_nodes : ℕ → ℕ → Answer (List MyNode)
  unfolding new_node
  make_nodes zero i = success []
  make_nodes (suc k) i =
      let rest = make_nodes k (i + 1) in
      if calloc 1 40 && malloc 0x40
      then elim rest [ success xs ↦ success (new_node i ∷ xs) | failure e ↦ failure e ]
      else failure (negsuc 0)

  unfoldable pub started : {G : Type 0} → ℕ → G → Answer (List MyNode) → Answer (Random G)
  started n g (failure e) = failure e
  started n g (success xs) =
      success (record { num = pos n; nodes = xs; faults = []; generator = g })

  -- The vector is written without a test for NULL.
  unfoldable pub init_nodes : {G : Type 0} → ℕ → G → Run (Answer (Random G))
  unfolding make_nodes started
  init_nodes n g = if n == 0 || calloc n 8 then ok (started n g (make_nodes n 0)) else undefined

  unfoldable pub init_count : {G : Type 0} → ℤ → G → Run (Answer (Random G))
  unfolding init_nodes
  init_count (negsuc n) g = ok (failure (negsuc 0))
  init_count (pos n) g = init_nodes n g

  unfoldable pub register : {M A : Type 0} → PluginManagerInterface M → M → Answer A → Answer A × M
  register inter m (failure e) = (failure e, m)
  register inter m (success a) = (success a, (inter.register_plugin (codes "random") m).1)

  -- The number of nodes is a `long` that is stored as an `int`; a text that is no number is 0. The
  -- plugin is registered at the end.
  unfoldable pub init :
      {M G : Type 0} → PluginManagerInterface M → List Bytes → G → M → Run (Answer (Random G) × M)
  unfolding init_count register
  init inter [] g m =
      if inter.version == pl_intf_version
      then ok (failure (negsuc 0), m)
      else ok (failure (pos 1), m)
  init inter (arg ∷ argv) g m =
      if inter.version == pl_intf_version
      then (do a ← init_count (to_int (int_or_zero (strtol arg))) g; ok (register inter m a))
      else ok (failure (pos 1), m)
