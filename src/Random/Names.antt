-- ===== src/Random/Names.antt =====
-- The nodes and the faults of the random plugin have names that a recording keeps apart.
use lau_sim.Base.{
  ℕ, zero, suc, ◌+◌, ◌<◌, ◌≡◌, refl, ap, Bool, true, false, ◌||◌, ◌==◌, pos, List, [], ◌∷◌, length,
  All, All-append, codes, arith,
}
use lau_sim.FaultManager.{ok, success, Fault, observe, session}
use lau_sim.Libc.Text.{one_of}
use lau_sim.Libc.Number.{print_nat}
use lau_sim.Libc.Number.Chars.{print_nat-IsNumeric}
use lau_sim.Recording.Format.{IsLabel, IsPlainNode, IsPlainFault}
use lau_sim.Recording.Names.{numeric-IsName}
use lau_sim.Random.Defs.{
  MyNode, Random, base_nodes, node_failed, node_name, new_node, make_nodes, init_nodes, started,
  get_fail, get_nodes, manager,
}
use lau_sim.Random.Health.{Outcome, nothing, keep, fail, tic-Outcome}

IsPlain : List MyNode → Type 0
IsPlain xs = All IsPlainNode (base_nodes xs)

node_name-IsLabel : (i : ℕ) → IsLabel (node_name i)
unfolding node_name
node_name-IsLabel i = (
  cc,
  All-append _ (codes "node") (print_nat i) (unfold one_of in (refl, (refl, (refl, (refl, tt)))))
      (numeric-IsName _ (print_nat-IsNumeric i)),
)

abbrev pub new_nodes : ℕ → ℕ → List MyNode
new_nodes zero i = []
new_nodes (suc k) i = new_node i ∷ new_nodes k (i + 1)

new_nodes-IsPlain : (k i : ℕ) → IsPlain (new_nodes k i)
unfolding IsPlain new_node
new_nodes-IsPlain zero i = tt
new_nodes-IsPlain (suc k) i = ((node_name-IsLabel i, tt, omega arith), new_nodes-IsPlain k (i + 1))

pub length-new_nodes : (k i : ℕ) → length (base_nodes (new_nodes k i)) ≡ k
length-new_nodes zero i = refl
length-new_nodes (suc k) i = ap suc (length-new_nodes k (i + 1))

Outcome-IsPlain :
    {xs ys : List MyNode} {fs : List Fault}
    → Outcome xs fs ys
    → IsPlain xs
    → IsPlain ys × All IsPlainFault fs
unfolding IsPlain node_failed
Outcome-IsPlain nothing h = (tt, tt)
Outcome-IsPlain (keep x o) (hx, h) = let (a, b) = Outcome-IsPlain o h in ((hx, a), b)
Outcome-IsPlain (fail x w o) (hx, h) =
    let (a, b) = Outcome-IsPlain o h in ((hx, a), ((hx.0.1, tt, omega arith), b))

or_true : (b : Bool) → (b || true) ≡ true
or_true true = refl
or_true false = refl

pos_test : (k : ℕ) → 0 < k → (k == 0) ≡ false
pos_test k h = ground arith

module _ {G : Type 0} (rand : G → ℕ × G) (calloc : ℕ → ℕ → Bool) (malloc realloc : ℕ → Bool)
    (calloc_grants : (n size : ℕ) → calloc n size ≡ true)
    (malloc_grants : (n : ℕ) → malloc n ≡ true) (realloc_grants : (n : ℕ) → realloc n ≡ true) where
  make_nodes_lem : (k i : ℕ) → make_nodes calloc malloc k i ≡ success (new_nodes k i)
  unfolding make_nodes
  make_nodes_lem zero i = refl
  make_nodes_lem (suc k) i = rw (make_nodes_lem k (i + 1), calloc_grants, malloc_grants)

  observe-IsPlain :
      (n : ℕ) (r : Random G)
      → IsPlain r.nodes
      → (fss : List (List Fault)) × (r' : Random G) × (observe (manager rand calloc realloc) n r
          ≡ ok (fss, r'))
        × All (All IsPlainFault) fss
        × (length fss ≡ n)
  unfolding observe get_fail
  observe-IsPlain zero r h = ([], r, refl, tt, refl)
  observe-IsPlain (suc n) r h =
      let (r₁, e, o, _) = tic-Outcome rand calloc realloc calloc_grants realloc_grants r in
      let (h₁, p) = Outcome-IsPlain o h in
      let (fss, r', e', q, l) = observe-IsPlain n r₁ h₁ in
      (r₁.faults ∷ fss, r', rw (e, e'), (p, q), ap suc l)

  -- `init` makes the nodes node0, node1, …, and a run of any length has plain names only.
  pub session-random :
      (k n : ℕ) (g : G)
      → 0 < k
      → (r : Random G) × (init_nodes calloc malloc k g ≡ ok (success r))
        × (fss : List (List Fault)) × (r' : Random G) × (session (manager rand calloc realloc) n r
            ≡ ok (success (base_nodes (new_nodes k 0)), fss, r'))
        × All IsPlainNode (base_nodes (new_nodes k 0))
        × All (All IsPlainFault) fss
        × (length fss ≡ n)
  unfolding init_nodes started session get_nodes IsPlain
  session-random k n g h =
      let r : Random G = record {
        num = pos k;
        nodes = new_nodes k 0;
        faults = [];
        generator = g;
      } in
      let (fss, r', e, q, l) = observe-IsPlain n r (new_nodes-IsPlain k 0) in
      (
        r,
        rw (make_nodes_lem k 0, calloc_grants, or_true (k == 0)),
        fss,
        r',
        rw (pos_test k h, e),
        new_nodes-IsPlain k 0,
        q,
        l,
      )
