-- ===== src/Random/Health.antt =====
-- What a tic of the random plugin does to the health of the nodes, where the allocator grants all
-- requests: plugins/random/random.c.
use lau_sim.Base.{
  ℕ, zero, suc, ◌+◌, ◌≡◌, refl, ◌⊎◌, inl, inr, Bool, true, false, List, [], ◌∷◌, ◌++◌, append-nil,
  append_assoc, length, ltb, if◌then◌else◌, Bool-cases, arith,
}
use lau_sim.FaultManager.{ok, Fault, observe}
use lau_sim.Random.Defs.{
  MyNode, Random, prob, node_failed, tic_node, tic_loop, tic, get_fail, manager,
}

-- The nodes before a tic, the faults of the tic, and the nodes behind it: a node stays as it is with
-- no fault, or it was healthy, is not any more, and has one fault.
pub data Outcome : List MyNode → List Fault → List MyNode → Type 0 where
  nothing : Outcome [] [] []
  keep :
      {xs ys : List MyNode} {fs : List Fault} (x : MyNode)
      → Outcome xs fs ys
      → Outcome (x ∷ xs) fs (x ∷ ys)
  fail :
      {xs ys : List MyNode} {fs : List Fault} (x : MyNode)
      → x.healthy ≡ true
      → Outcome xs fs ys
      → Outcome (x ∷ xs) (node_failed x.p ∷ fs) (record x { healthy = false } ∷ ys)

unfoldable pub count_healthy : List MyNode → ℕ
count_healthy [] = 0
count_healthy (x ∷ xs) = (if x.healthy then 1 else 0) + count_healthy xs

Outcome-count_healthy :
    {xs ys : List MyNode} {fs : List Fault}
    → Outcome xs fs ys
    → count_healthy xs ≡ count_healthy ys + length fs
unfolding count_healthy
Outcome-count_healthy nothing = refl
Outcome-count_healthy (keep x o) = omega (arith, Outcome-count_healthy o)
Outcome-count_healthy (fail x h o) = rw h (omega (arith, Outcome-count_healthy o))

-- The number of faults of several tics.
unfoldable pub count_faults : List (List Fault) → ℕ
count_faults [] = 0
count_faults (fs ∷ fss) = length fs + count_faults fss

module _ {G : Type 0} (rand : G → ℕ × G) (calloc : ℕ → ℕ → Bool) (realloc : ℕ → Bool)
    (calloc_grants : (n size : ℕ) → calloc n size ≡ true)
    (realloc_grants : (n : ℕ) → realloc n ≡ true) where
  tic_node-cases :
      (x : MyNode) (fs : List Fault) (g : G)
      → ((g' : G) × (tic_node rand calloc realloc x fs g ≡ ok (x, fs, g', true)))
        ⊎ ((g' : G) × (x.healthy ≡ true)
            × (tic_node rand calloc realloc x fs g
                ≡ ok (record x { healthy = false }, fs ++ node_failed x.p ∷ [], g', true)))
  unfolding tic_node
  tic_node-cases x fs g = elim (Bool-cases x.healthy) [
    | inr sick ↦ inl (g, simp sick)
    | inl well ↦ elim (Bool-cases (ltb (rand g).0 prob)) [
      | inr above ↦ inl ((rand g).1, simp (well, above))
      | inl below ↦ inr ((rand g).1, well, simp (well, below, calloc_grants, realloc_grants))
    ]
  ]

  tic_loop-Outcome :
      (xs : List MyNode) (fs : List Fault) (g : G)
      → (ys : List MyNode) × (new : List Fault) × (g' : G) × (tic_loop rand calloc realloc xs fs g
          ≡ ok (ys, fs ++ new, g'))
        × Outcome xs new ys
  unfolding tic_loop
  tic_loop-Outcome [] fs g = ([], [], g, rw append-nil, nothing)
  tic_loop-Outcome (x ∷ xs) fs g = elim (tic_node-cases x fs g) [
    | inl (g₁, e) ↦
        let (ys, new, g', e', o) = tic_loop-Outcome xs fs g₁ in
        (x ∷ ys, new, g', rw (e, e'), keep x o)
    | inr (g₁, well, e) ↦
        let (ys, new, g', e', o) = tic_loop-Outcome xs (fs ++ node_failed x.p ∷ []) g₁ in
        (
          record x { healthy = false } ∷ ys,
          node_failed x.p ∷ new,
          g',
          rw (e, e', append_assoc),
          fail x well o,
        )
  ]

  -- A tic is defined, whatever numbers are drawn, if the allocator grants all requests; its faults are those of the nodes that it lets
  -- fail, one for each and in their order, and all else of a node stays.
  pub tic-Outcome :
      (r : Random G)
      → (r' : Random G) × (tic rand calloc realloc r ≡ ok r')
        × Outcome r.nodes r'.faults r'.nodes
        × (r'.num ≡ r.num)
  unfolding tic
  tic-Outcome r =
      let (ys, new, g, e, o) = tic_loop-Outcome r.nodes [] r.generator in
      (record r { nodes = ys; faults = new; generator = g }, rw e, o, refl)

  -- In a run of any number of tics, if the allocator grants all requests, each fault uses up a healthy node for good: the healthy nodes at
  -- the start are those at the end and one for each fault.
  pub observe-count_healthy :
      (n : ℕ) (r : Random G)
      → (fss : List (List Fault)) × (r' : Random G) × (observe (manager rand calloc realloc) n r
          ≡ ok (fss, r'))
        × (count_healthy r.nodes ≡ count_healthy r'.nodes + count_faults fss)
  unfolding observe get_fail count_faults
  observe-count_healthy zero r = ([], r, refl, omega arith)
  observe-count_healthy (suc n) r =
      let (r₁, e, o, _) = tic-Outcome r in
      let (fss, r', e', c) = observe-count_healthy n r₁ in
      (r₁.faults ∷ fss, r', rw (e, e'), omega (arith, Outcome-count_healthy o))
