-- ===== src/Server/Nodes.antt =====
-- The states of the nodes in srv/server.cpp.
use lau_sim.Base.{
  ℕ, ◌≡◌, refl, true, false, List, [], ◌∷◌, ◌++◌, Bytes, Bool-cases, inl, inr, ◌⊎◌, All, pos, ap,
}
use lau_sim.Libc.Text.{str_eq}
use lau_sim.FaultManager.{Node}
use lau_sim.Server.{set_node_state}

-- No node has the name.
abbrev pub IsAbsent : Bytes → List Node → Type 0
IsAbsent name = All (λ (n : Node). str_eq name n.name ≡ false)

-- `set_node_state`: either no node has the name, and it returns 1 and changes nothing; or it returns 0
-- and has changed the state of the first node with the name, and nothing else.
pub set_node_state-cases :
    (name : Bytes) (state : ℕ) (ns : List Node)
    → (IsAbsent name ns × (set_node_state name state ns ≡ (pos 1, ns)))
      ⊎ ((before after : List Node) × (n : Node) × (ns ≡ before ++ n ∷ after)
          × IsAbsent name before
          × (str_eq name n.name ≡ true)
          × (set_node_state name state ns ≡ (pos 0, before ++ record n { state = state } ∷ after)))
unfolding set_node_state
set_node_state-cases name state [] = inl (tt, refl)
set_node_state-cases name state (n ∷ ns) = elim (Bool-cases (str_eq name n.name)) [
  | inl here ↦ inr ([], ns, n, refl, tt, here, rw here refl)
  | inr other ↦ elim (set_node_state-cases name state ns) [
    | inl (absent, e) ↦ inl ((other, absent), rw (other, e) refl)
    | inr (before, after, x, e, absent, found, r) ↦
        inr (n ∷ before, after, x, ap (λ l. n ∷ l) e, (other, absent), found, rw (other, r) refl)
  ]
]
