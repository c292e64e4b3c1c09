-- ===== src/Random/Memory/Cleanup.antt =====
-- What plugins/random/random.c allocates, it frees once.
use lau_sim.Base.{ℕ, ◌≡◌, Bool, true, false}
use lau_sim.Random.Memory.{Heap, Memory}
use lau_sim.Random.Memory.Freed.{Held, held}

-- `n` nodes and `k` faults.
abbrev full : ℕ → ℕ → Bool → Held
full n k faults = record {
  nodes_from = 0;
  nodes_to = n;
  names_from = 0;
  names_to = n;
  faults_from = 0;
  faults_to = k;
  nodes = true;
  faults = faults;
}

-- The heap has the nodes, and the vector and the faults where there is one.
abbrev IsHeld : Memory → Type 0
IsHeld m = (m.heap ≡ held (full m.num m.num_fault m.faults)) × (m.faults ≡ false → m.num_fault ≡ 0)

abbrev pub nothing : Heap
nothing b = false
