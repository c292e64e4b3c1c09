-- ===== src/Random/Memory.antt =====
-- plugins/random/random.c: the blocks of memory that the plugin holds, from `init` to `cleanup`, where each
-- request is granted. What is stored in them is the matter of Defs.
pub mod Freed
pub mod Cleanup
use lau_sim.Base.{ℕ, zero, suc, ◌+◌, Bool, true, false, List, [], ◌∷◌, ◌==◌, if◌then◌else◌}
use lau_sim.FaultManager.{Run, ok, undefined, ◌>>=◌}

-- The vector `nodes`, its nodes and their names, the vector `faults` and its faults.
pub data Block : Type 0 where
  node_vector fault_vector : Block
  node name fault : ℕ → Block

unfoldable pub same : Block → Block → Bool
same node_vector node_vector = true
same fault_vector fault_vector = true
same (node i) (node j) = i == j
same (name i) (name j) = i == j
same (fault i) (fault j) = i == j
same _ _ = false

-- Whether a block is allocated.
abbrev pub Heap : Type 0
Heap = Block → Bool

-- `calloc`, `malloc` and `realloc`, and `free` of a pointer that is not NULL: of a block that is not
-- allocated it is undefined behaviour.
unfoldable pub allocate : Block → Heap → Heap
unfolding same
allocate b h c = if same c b then true else h c

unfoldable pub free : Block → Heap → Run Heap
unfolding same
free b h = if h b then ok (λ c. if same c b then false else h c) else undefined

-- `num`, `num_fault`, `faults != NULL`, and the heap.
pub record Memory : Type 0 where
  pub num : ℕ
  pub num_fault : ℕ
  pub faults : Bool
  pub heap : Heap

-- The loop of `free_faults`, `k` rounds from `i` on.
unfoldable pub free_each : ℕ → ℕ → Heap → Run Heap
unfolding free
free_each zero i h = ok h
free_each (suc k) i h = do h₁ ← free (fault i) h; free_each k (i + 1) h₁

unfoldable pub free_faults : Memory → Run Heap
unfolding free_each free
free_faults m = do
  h ← free_each m.num_fault 0 m.heap
  if m.faults then free fault_vector h else ok h

-- The faults of a tic in which `k` nodes fail.
unfoldable pub add_faults : ℕ → Memory → Memory
unfolding allocate
add_faults zero m = m
add_faults (suc k) m = add_faults k (record m {
  num_fault = m.num_fault + 1;
  faults = true;
  heap = allocate (fault m.num_fault) (allocate fault_vector m.heap);
})

unfoldable pub tic : ℕ → Memory → Run Memory
unfolding free_faults add_faults
tic k m = do
  h ← free_faults m
  ok (add_faults k (record m { num_fault = 0; faults = false; heap = h }))

unfoldable pub tics : List ℕ → Memory → Run Memory
unfolding tic
tics [] m = ok m
tics (k ∷ ks) m = do m₁ ← tic k m; tics ks m₁

-- The loop of `init`, `k` rounds from `i` on.
unfoldable pub make_nodes : ℕ → ℕ → Heap → Heap
unfolding allocate
make_nodes zero i h = h
make_nodes (suc k) i h = make_nodes k (i + 1) (allocate (name i) (allocate (node i) h))

unfoldable pub init : ℕ → Memory
unfolding make_nodes
init n = record {
  num = n;
  num_fault = 0;
  faults = false;
  heap = make_nodes n 0 (allocate node_vector (λ b. false));
}

-- The loop of `cleanup`.
unfoldable pub free_nodes : ℕ → ℕ → Heap → Run Heap
unfolding free
free_nodes zero i h = ok h
free_nodes (suc k) i h = do h₁ ← free (name i) h; h₂ ← free (node i) h₁; free_nodes k (i + 1) h₂

unfoldable pub cleanup : Memory → Run Heap
unfolding free_faults free_nodes free
cleanup m = do h ← free_faults m; h₁ ← free_nodes m.num 0 h; free node_vector h₁
