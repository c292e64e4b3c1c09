-- ===== src/Random/Memory/Freed.antt =====
-- The blocks that plugins/random/random.c allocates and frees one by one.
use mathlib.Core.Path.{fun_ext}
use lau_sim.Base.{
  ℕ, ◌+◌, ◌≤◌, ◌<◌, ◌≡◌, refl, ap, Bool, true, false, ◌&&◌, if◌then◌else◌, leb, ltb, arith,
}
use lau_sim.FaultManager.{ok}
use lau_sim.Random.Memory.{
  Block, node_vector, fault_vector, node, name, fault, same, Heap, allocate, free,
}

abbrev pub in_range : ℕ → ℕ → ℕ → Bool
in_range lo hi i = leb lo i && ltb i hi

-- A heap with the nodes, the names and the faults of three ranges, and perhaps the two vectors.
pub record Held : Type 0 where
  pub nodes_from : ℕ
  pub nodes_to : ℕ
  pub names_from : ℕ
  pub names_to : ℕ
  pub faults_from : ℕ
  pub faults_to : ℕ
  pub nodes : Bool
  pub faults : Bool

abbrev pub held : Held → Heap
held s node_vector = s.nodes
held s fault_vector = s.faults
held s (node i) = in_range s.nodes_from s.nodes_to i
held s (name i) = in_range s.names_from s.names_to i
held s (fault i) = in_range s.faults_from s.faults_to i

free_lem :
    (b : Block) (h h' : Heap)
    → h b ≡ true
    → ((c : Block) → (if same c b then false else h c) ≡ h' c)
    → free b h ≡ ok h'
unfolding free
free_lem b h h' e f = rw e (ap ok (fun_ext f))

pub free-fault :
    (s : Held)
    → s.faults_from < s.faults_to
    → free (fault s.faults_from) (held s) ≡ ok (held (record s { faults_from = s.faults_from + 1 }))
unfolding same
free-fault s h = free_lem (fault s.faults_from) (held s) _ (ground arith) go
  where
    go :
        (c : Block)
        → (if same c (fault s.faults_from) then false else held s c)
          ≡ held (record s { faults_from = s.faults_from + 1 }) c
    go node_vector = refl
    go fault_vector = refl
    go (node i) = refl
    go (name i) = refl
    go (fault i) = ground arith

pub free-node :
    (s : Held)
    → s.nodes_from < s.nodes_to
    → free (node s.nodes_from) (held s) ≡ ok (held (record s { nodes_from = s.nodes_from + 1 }))
unfolding same
free-node s h = free_lem (node s.nodes_from) (held s) _ (ground arith) go
  where
    go :
        (c : Block)
        → (if same c (node s.nodes_from) then false else held s c)
          ≡ held (record s { nodes_from = s.nodes_from + 1 }) c
    go node_vector = refl
    go fault_vector = refl
    go (node i) = ground arith
    go (name i) = refl
    go (fault i) = refl

pub free-name :
    (s : Held)
    → s.names_from < s.names_to
    → free (name s.names_from) (held s) ≡ ok (held (record s { names_from = s.names_from + 1 }))
unfolding same
free-name s h = free_lem (name s.names_from) (held s) _ (ground arith) go
  where
    go :
        (c : Block)
        → (if same c (name s.names_from) then false else held s c)
          ≡ held (record s { names_from = s.names_from + 1 }) c
    go node_vector = refl
    go fault_vector = refl
    go (node i) = refl
    go (name i) = ground arith
    go (fault i) = refl

pub allocate-node :
    (s : Held)
    → s.nodes_from ≤ s.nodes_to
    → allocate (node s.nodes_to) (held s) ≡ held (record s { nodes_to = s.nodes_to + 1 })
unfolding allocate same
allocate-node s h = fun_ext go
  where
    go :
        (c : Block)
        → allocate (node s.nodes_to) (held s) c ≡ held (record s { nodes_to = s.nodes_to + 1 }) c
    go node_vector = refl
    go fault_vector = refl
    go (node i) = ground arith
    go (name i) = refl
    go (fault i) = refl

pub allocate-name :
    (s : Held)
    → s.names_from ≤ s.names_to
    → allocate (name s.names_to) (held s) ≡ held (record s { names_to = s.names_to + 1 })
unfolding allocate same
allocate-name s h = fun_ext go
  where
    go :
        (c : Block)
        → allocate (name s.names_to) (held s) c ≡ held (record s { names_to = s.names_to + 1 }) c
    go node_vector = refl
    go fault_vector = refl
    go (node i) = refl
    go (name i) = ground arith
    go (fault i) = refl

pub allocate-fault :
    (s : Held)
    → s.faults_from ≤ s.faults_to
    → allocate (fault s.faults_to) (held s) ≡ held (record s { faults_to = s.faults_to + 1 })
unfolding allocate same
allocate-fault s h = fun_ext go
  where
    go :
        (c : Block)
        → allocate (fault s.faults_to) (held s) c
          ≡ held (record s { faults_to = s.faults_to + 1 }) c
    go node_vector = refl
    go fault_vector = refl
    go (node i) = refl
    go (name i) = refl
    go (fault i) = ground arith

pub allocate-fault_vector :
    (s : Held) → allocate fault_vector (held s) ≡ held (record s { faults = true })
unfolding allocate same
allocate-fault_vector s = fun_ext go
  where
    go : (c : Block) → allocate fault_vector (held s) c ≡ held (record s { faults = true }) c
    go node_vector = refl
    go fault_vector = refl
    go (node i) = refl
    go (name i) = refl
    go (fault i) = refl

pub free-fault_vector :
    (s : Held)
    → s.faults ≡ true
    → free fault_vector (held s) ≡ ok (held (record s { faults = false }))
unfolding same
free-fault_vector s h = free_lem fault_vector (held s) _ h go
  where
    go :
        (c : Block)
        → (if same c fault_vector then false else held s c) ≡ held (record s { faults = false }) c
    go node_vector = refl
    go fault_vector = refl
    go (node i) = refl
    go (name i) = refl
    go (fault i) = refl

pub free-node_vector :
    (s : Held) → s.nodes ≡ true → free node_vector (held s) ≡ ok (held (record s { nodes = false }))
unfolding same
free-node_vector s h = free_lem node_vector (held s) _ h go
  where
    go :
        (c : Block)
        → (if same c node_vector then false else held s c) ≡ held (record s { nodes = false }) c
    go node_vector = refl
    go fault_vector = refl
    go (node i) = refl
    go (name i) = refl
    go (fault i) = refl
