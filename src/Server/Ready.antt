-- ===== src/Server/Ready.antt =====
-- When the nodes of srv/server.cpp are all ready.
use lau_sim.Base.{
  ◌≡◌, ◌≢◌, refl, ap, Bool, true, false, ◌||◌, List, [], ◌∷◌, Bytes, if◌then◌else◌, Bool-cases, inl,
  inr, All,
}
use lau_sim.Libc.Text.{str_eq, str_eq-apart}
use lau_sim.FaultManager.{Node}
use lau_sim.Server.{node_state_ready, all_nodes_ready, set_node_state}

-- The nodes behind reports that nodes are ready.
unfoldable pub report_ready : List Bytes → List Node → List Node
report_ready [] ns = ns
report_ready (r ∷ rs) ns = report_ready rs (set_node_state r node_state_ready ns).1

unfoldable pub has_reported : Bytes → List Bytes → Bool
has_reported name [] = false
has_reported name (r ∷ rs) = str_eq r name || has_reported name rs

unfoldable other_reports : Bytes → List Bytes → List Bytes
other_reports name [] = []
other_reports name (r ∷ rs) =
    let rest = other_reports name rs in if str_eq r name then rest else r ∷ rest

abbrev pub IsUnique : List Node → Type 0
IsUnique [] = Unit
IsUnique (n ∷ ns) = All (λ (x : Node). x.name ≢ n.name) ns × IsUnique ns

if_same : {A : Type 0} (b : Bool) (x : A) → (if b then x else x) ≡ x
if_same true x = refl
if_same false x = refl

or_right : (x y : Bool) → x ≡ false → (x || y) ≡ true → y ≡ true
or_right true y e h = cc
or_right false y e h = h

report_ready-nil : (rs : List Bytes) → report_ready rs [] ≡ []
unfolding report_ready set_node_state
report_ready-nil [] = refl
report_ready-nil (r ∷ rs) = report_ready-nil rs

-- The node at the head takes its own reports, and the others go on.
report_ready-cons :
    (rs : List Bytes) (n : Node) (ns : List Node)
    → report_ready rs (n ∷ ns)
      ≡ (if has_reported n.name rs then record n { state = node_state_ready } else n)
        ∷ report_ready (other_reports n.name rs) ns
unfolding report_ready has_reported other_reports set_node_state
report_ready-cons [] n ns = refl
report_ready-cons (r ∷ rs) n ns = elim (Bool-cases (str_eq r n.name)) [
  | inl here ↦
      rw (here, report_ready-cons rs)
        (ap (λ x. x ∷ report_ready (other_reports n.name rs) ns)
          (if_same (has_reported n.name rs) _))
  | inr other ↦ rw (other, report_ready-cons rs) refl
]

other_reports-has_reported :
    (a b : Bytes) (rs : List Bytes)
    → a ≢ b
    → has_reported a rs ≡ true
    → has_reported a (other_reports b rs) ≡ true
unfolding has_reported other_reports
other_reports-has_reported a b [] ne h = h
other_reports-has_reported a b (r ∷ rs) ne h = elim (Bool-cases (str_eq r b)) [
  | inl same ↦ rw same (
      other_reports-has_reported a b rs ne
        (or_right (str_eq r a) (has_reported a rs) (str_eq-apart a b r ne same) h))
  | inr other ↦ rw other (elim (Bool-cases (str_eq r a)) [
    | inl here ↦ rw here refl
    | inr far ↦
        rw far
          (other_reports-has_reported a b rs ne (or_right (str_eq r a) (has_reported a rs) far h))
  ])
]

reported-after :
    (n : Node) (rs : List Bytes) (ns : List Node)
    → All (λ (x : Node). x.name ≢ n.name) ns
    → All (λ (x : Node). has_reported x.name rs ≡ true) ns
    → All (λ (x : Node). has_reported x.name (other_reports n.name rs) ≡ true) ns
reported-after n rs [] u h = tt
reported-after n rs (x ∷ ns) (ne, u) (hx, h) =
    (other_reports-has_reported x.name n.name rs ne hx, reported-after n rs ns u h)

-- If no two nodes have the same name, then behind reports that nodes are ready, in any order and
-- perhaps repeated, among which each node's name is, the server finds all nodes ready.
pub report_ready-all_nodes_ready :
    (ns : List Node) (rs : List Bytes)
    → IsUnique ns
    → All (λ (n : Node). has_reported n.name rs ≡ true) ns
    → all_nodes_ready (report_ready rs ns) ≡ true
unfolding all_nodes_ready
report_ready-all_nodes_ready [] rs u h = ap all_nodes_ready (report_ready-nil rs)
report_ready-all_nodes_ready (n ∷ ns) rs (un, u) (hn, h) =
    rw (report_ready-cons rs n ns, hn)
      (report_ready-all_nodes_ready ns (other_reports n.name rs) u (reported-after n rs ns un h))
