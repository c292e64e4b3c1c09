-- ===== src/Replay/Nodes.antt =====
-- plugins/replay/replay.c: `get_nodes`. A list stands for an array and its length; what a failing
-- call has filled in is not kept, since the server gives up then. The log is not modelled.
use lau_sim.Base.{
  ℕ, zero, suc, ◌+◌, Bool, ◌&&◌, List, [], ◌∷◌, Option, none, some, Bytes, codes, length,
  if◌then◌else◌, u32, int32, pos,
}
use lau_sim.FaultManager.{
  Run, ok, undefined, ◌>>=◌, Answer, success, failure, uniform_node, Component, Node,
  node_state_unknown,
}
use lau_sim.Libc.Text.{c_str, strstr, tokens}
use lau_sim.Libc.Number.{strtoull, or_zero}
use lau_sim.Replay.State.{Replay, get_tic_num, defined}

unfoldable pub add_component : Bytes → Answer (List Component) → Answer (List Component)
add_component name (failure e) = failure e
add_component name (success cs) = success (record { name = name; severity = 0 } ∷ cs)

unfoldable pub make_node : ℕ → Bytes → Answer (List Component) → Answer Node
make_node i name (failure e) = failure e
make_node i name (success cs) = success (record {
  name = name;
  id = int32 i;
  node_type = uniform_node;
  state = node_state_unknown;
  components = cs;
})

unfoldable pub add_node : Answer Node → Answer (List Node) → Answer (List Node)
add_node (failure e) ns = failure e
add_node (success n) (failure e) = failure e
add_node (success n) (success ns) = success (n ∷ ns)

-- The line behind the nodes, if there is one: the number of the first tic.
unfoldable pub read_first_tic : Replay → List Bytes → Run Replay
unfolding defined get_tic_num
read_first_tic r [] = ok (record r { file = [] })
read_first_tic r (l ∷ ls) =
    if strstr (c_str l) (codes "tic")
    then (do n ← defined (get_tic_num (c_str l)); ok (record r { file = ls; nxt_tic = n }))
    else ok (record r { file = ls })

-- What follows the loop over the nodes.
unfoldable pub finish_nodes :
    Replay → Answer (List Node) → List Bytes → Run (Answer (List Node) × Replay)
unfolding read_first_tic
finish_nodes r (failure e) ls = ok (failure e, record r { file = ls })
finish_nodes r (success ns) ls = do
  r' ← read_first_tic (record r { nodes = ns }) ls
  ok (success ns, r')

-- `calloc n size` says whether the allocator grants a request; what is not granted is NULL.
module _ (calloc : ℕ → ℕ → Bool) where
  -- The loop over `j`: the next tokens are the names of the components. The arrays (`granted`) and
  -- the copies of the names are written with no test for NULL.
  unfoldable pub read_components : Bool → ℕ → List Bytes → Run (Answer (List Component))
  unfolding add_component
  read_components granted zero ts = ok (success [])
  read_components granted (suc k) [] = ok (failure (pos 1))
  read_components granted (suc k) (t ∷ ts) =
      let rest = read_components granted k ts >>= λ a. ok (add_component t a) in
      if granted && calloc (length t + 1) 1 then rest else undefined

  -- The tokens of the `i`-th node's line. `strlen` of a name that is not there reads through NULL.
  unfoldable pub read_node : ℕ → List Bytes → Run (Answer Node)
  unfolding make_node read_components
  read_node i [] = undefined
  read_node i (name ∷ ts) =
      if calloc 1 (length name + 1)
      then elim ts [
        | [] ↦ ok (failure (pos 1))
        | count ∷ ts ↦ do
          let n = u32 (or_zero (strtoull count))
          a ← read_components (calloc n 8 && calloc n 16) n ts
          ok (make_node i name a)
      ]
      else ok (failure (pos 1))

  -- The loop over `i`, with the lines that are left behind it. It returns at the first failure.
  unfoldable pub read_nodes : ℕ → ℕ → List Bytes → Run (Answer (List Node) × List Bytes)
  unfolding add_node read_node
  read_nodes zero i ls = ok (success [], ls)
  read_nodes (suc k) i [] = ok (failure (pos 1), [])
  read_nodes (suc k) i (l ∷ ls) =
      let rest = read_nodes k (i + 1) ls in
      read_node i (tokens (codes ",\n") (c_str l)) >>= elim [
        | failure e ↦ ok (failure e, ls)
        | success n ↦ do (ns, ls') ← rest; ok (add_node (success n) ns, ls')
      ]

  unfoldable pub read_body : Replay → Option ℕ → List Bytes → Run (Answer (List Node) × Replay)
  unfolding read_nodes finish_nodes
  read_body r none ls = ok (failure (pos 1), record r { file = ls })
  read_body r (some n) ls =
      if calloc n 32 && calloc n 8
      then (do (a, ls') ← read_nodes n 0 ls; finish_nodes r a ls')
      else ok (failure (pos 1), record r { file = ls })

  unfoldable pub read_header : Replay → List Bytes → Run (Answer (List Node) × Replay)
  unfolding read_body
  read_header r [] = ok (failure (pos 1), r)
  read_header r (l ∷ ls) = read_body r (strtoull (c_str l)) ls

  unfoldable pub get_nodes : Replay → Run (Answer (List Node) × Replay)
  unfolding read_header
  get_nodes r = read_header r r.file
