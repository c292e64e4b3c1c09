-- ===== src/Recording/Nodes.antt =====
-- The nodes of a recording are read back.
use lau_sim.Base.{
  ℕ, ◌+◌, ◌^◌, ◌<◌, ◌≡◌, refl, ap, ◌∙◌, List, [], ◌∷◌, ◌++◌, append_assoc, Bytes, codes, length,
  All, u32, arith, Bool, true,
}
use lau_sim.FaultManager.{ok, success, Component, Node}
use lau_sim.Libc.Text.{one_of, tokens, tokens-append, lines, c_str}
use lau_sim.Libc.Number.{print_nat, strtoull, or_zero}
use lau_sim.Libc.Number.Chars.{print_nat-IsNumeric, print_nat-ne-nil}
use lau_sim.Libc.Number.RoundTrip.{strtoull_number}
use lau_sim.Transcribe.{print_components, print_node, print_nodes}
use lau_sim.Replay.{read_components, read_node, read_nodes, make_node, add_node}
use lau_sim.Recording.Lines.{
  IsLine, IsName-IsLine, append-IsLine, comma-IsLine, IsPrinted, lines-printed, c_str-printed,
}
use lau_sim.Recording.Names.{IsName-commas, numeric-IsName}
use lau_sim.Recording.Format.{IsLabel, IsPlainNode, restore_components, restore_nodes}

names : List Component → List Bytes
names [] = []
names (c ∷ cs) = c.name ∷ names cs

tokens-print_components :
    (w : Bytes) (cs : List Component)
    → IsLabel w
    → All (λ (c : Component). IsLabel c.name) cs
    → tokens (codes ",\n") (w ++ print_components cs) ≡ w ∷ names cs
unfolding print_components names
tokens-print_components w [] (ne, h) hs =
    tokens-append (codes ",\n") w [] b'\n' ne (IsName-commas w h) (unfold one_of in refl)
    ∙ unfold tokens in refl
tokens-print_components w (c ∷ cs) (ne, h) (hc, hs) =
    tokens-append (codes ",\n") w (c.name ++ print_components cs) b',' ne (IsName-commas w h)
      (unfold one_of in refl)
    ∙ ap (λ ts. w ∷ ts) (tokens-print_components c.name cs hc hs)

pub print_nat-IsLabel : (n : ℕ) → IsLabel (print_nat n)
print_nat-IsLabel n = (print_nat-ne-nil n, numeric-IsName (print_nat n) (print_nat-IsNumeric n))

tokens-print_node :
    (n : Node)
    → IsPlainNode n
    → tokens (codes ",\n") (print_node n)
      ≡ n.name ∷ print_nat (length n.components) ∷ names n.components
unfolding print_node
tokens-print_node n (name, cs, _) =
    tokens-append (codes ",\n") n.name _ b',' name.0 (IsName-commas _ name.1)
      (unfold one_of in refl)
    ∙ ap (λ ts. n.name ∷ ts)
        (tokens-print_components (print_nat (length n.components)) n.components
          (print_nat-IsLabel _) cs)

-- The line of a node without its end.
components_line : List Component → Bytes
components_line [] = []
components_line (c ∷ cs) = b',' ∷ (c.name ++ components_line cs)

components_line_lem :
    (cs : List Component) (s : Bytes) → print_components cs ++ s ≡ components_line cs ++ b'\n' ∷ s
unfolding print_components components_line
components_line_lem [] s = refl
components_line_lem (c ∷ cs) s = simp (append_assoc, components_line_lem cs s)

components_line-IsLine :
    (cs : List Component) → All (λ (c : Component). IsLabel c.name) cs → IsLine (components_line cs)
unfolding components_line
components_line-IsLine [] h = (tt, tt)
components_line-IsLine (c ∷ cs) (hc, h) =
    comma-IsLine [] (c.name ++ components_line cs) (tt, tt)
      (append-IsLine c.name (components_line cs) (IsName-IsLine c.name hc.1)
        (components_line-IsLine cs h))

node_line : Node → Bytes
node_line n = n.name ++ b',' ∷ (print_nat (length n.components) ++ components_line n.components)

node_line_lem : (n : Node) (s : Bytes) → print_node n ++ s ≡ node_line n ++ b'\n' ∷ s
unfolding print_node node_line
node_line_lem n s = simp (append_assoc, components_line_lem)

node_line-IsLine : (n : Node) → IsPlainNode n → IsLine (node_line n)
unfolding node_line
node_line-IsLine n (name, cs, _) = comma-IsLine n.name _ (IsName-IsLine _ name.1) (
    append-IsLine _ _ (IsName-IsLine _ (print_nat-IsLabel (length n.components)).1)
      (components_line-IsLine n.components cs))

node-IsPrinted : (n : Node) → IsPlainNode n → IsPrinted (print_node n)
node-IsPrinted n h = (node_line n, node_line_lem n, node_line-IsLine n h)

read_components-names :
    (calloc : ℕ → ℕ → Bool) (cs : List Component)
    → ((n size : ℕ) → calloc n size ≡ true)
    → read_components calloc true (length cs) (names cs) ≡ ok (success (restore_components cs))
unfolding read_components names
read_components-names calloc [] h = refl
read_components-names calloc (c ∷ cs) h = rw (h, read_components-names calloc cs h)

strtoull_count : (k : ℕ) → k < 2 ^ 32 → u32 (or_zero (strtoull (print_nat k))) ≡ k
strtoull_count k h = rw (strtoull_number k (omega arith)) (omega arith)

read_node-print_node :
    (calloc : ℕ → ℕ → Bool) (i : ℕ) (n : Node)
    → ((n size : ℕ) → calloc n size ≡ true)
    → IsPlainNode n
    → read_node calloc i (tokens (codes ",\n") (c_str (print_node n)))
      ≡ ok (make_node i n.name (success (restore_components n.components)))
unfolding read_node
read_node-print_node calloc i n h p = rw (
  c_str-printed _ (node-IsPrinted n p),
  tokens-print_node n p,
  h,
  strtoull_count _ p.2,
  h,
  h,
  read_components-names calloc n.components h,
)

pub read_nodes-print_nodes :
    (calloc : ℕ → ℕ → Bool) (i : ℕ) (ns : List Node) (s : Bytes)
    → ((n size : ℕ) → calloc n size ≡ true)
    → All IsPlainNode ns
    → read_nodes calloc (length ns) i (lines (print_nodes ns ++ s))
      ≡ ok (success (restore_nodes i ns), lines s)
unfolding read_nodes print_nodes make_node add_node
read_nodes-print_nodes calloc i [] s h p = refl
read_nodes-print_nodes calloc i (n ∷ ns) s h (pn, p) = rw (
  append_assoc,
  lines-printed _ (print_nodes ns ++ s) (node-IsPrinted n pn),
  read_node-print_node calloc i n h pn,
  read_nodes-print_nodes calloc (i + 1) ns s h p,
)
