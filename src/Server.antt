-- ===== src/Server.antt =====
-- srv/server.h and srv/server.cpp: what the server does with the faults of a tic and with the states of
-- the nodes. The communication plugins are represented by what they are called with.
pub mod Nodes
pub mod Ready
pub mod Tics
pub mod Messages
pub mod Start
pub mod Reception
pub mod Hooks
pub mod Clock
pub mod Connected
use lau_sim.Base.{
  ℕ, ◌+◌, Bool, true, false, ◌&&◌, List, [], ◌∷◌, ◌++◌, Option, none, some, Bytes, ◌==◌,
  if◌then◌else◌, u64, ℤ, pos,
}
use lau_sim.Libc.Text.{str_eq}
use lau_sim.FaultManager.{Run, ok, ◌>>=◌, Node, Fault, FaultManager}

-- A call of `com_actor->notify_fail`; `none` is a NULL pointer.
pub record Notice : Type 0 where
  pub target : Bytes
  pub component : Option Bytes
  pub severity : ℕ

-- `laik_ext_msg`, as far as it is filled.
pub record ExternMessage : Type 0 where
  pub spare_nodes : List Bytes
  pub failing_nodes : List Bytes

-- `tic`, and the calls of `notify_fail` and `notify_extern` so far.
pub record Server : Type 0 where
  pub tic : ℕ
  pub notices : List Notice
  pub messages : List ExternMessage

abbrev pub node_state_ready : ℕ
node_state_ready = 1

unfoldable pub all_nodes_ready : List Node → Bool
all_nodes_ready [] = true
all_nodes_ready (n ∷ ns) = n.state == node_state_ready && all_nodes_ready ns

-- The first node with the name; 1 if there is none.
unfoldable pub set_node_state : Bytes → ℕ → List Node → ℤ × List Node
set_node_state name state [] = (pos 1, [])
set_node_state name state (n ∷ ns) =
    let (ret, ns') = set_node_state name state ns in
    if str_eq name n.name then (pos 0, record n { state = state } ∷ ns) else (ret, n ∷ ns')

abbrev pub notice : Fault → Notice
notice f = record { target = f.node; component = f.component; severity = f.severity }

-- The loop of `send_synced_signal`.
abbrev pub synced_notice : Node → Notice
synced_notice n = record { target = n.name; component = none; severity = 0 }

unfoldable pub send_synced_signal : List Node → Server → Server
send_synced_signal [] s = s
send_synced_signal (n ∷ ns) s =
    send_synced_signal ns (record s { notices = s.notices ++ synced_notice n ∷ [] })

-- The fault of a whole node goes into the message.
unfoldable pub add_node : Fault → ExternMessage → ExternMessage
add_node f msg = elim f.component [
  | some c ↦ msg
  | none ↦
      if f.severity == 0
      then record msg { spare_nodes = msg.spare_nodes ++ f.node ∷ [] }
      else record msg { failing_nodes = msg.failing_nodes ++ f.node ∷ [] }
]

-- The loop of `manage_fails`.
unfoldable pub notify_all : List Fault → ExternMessage → Server → ExternMessage × Server
unfolding add_node
notify_all [] msg s = (msg, s)
notify_all (f ∷ fs) msg s =
    notify_all fs (add_node f msg) (record s { notices = s.notices ++ notice f ∷ [] })

abbrev pub empty_message : ExternMessage
empty_message = record { spare_nodes = []; failing_nodes = [] }

-- `manage_fails` behind `get_fail`.
unfoldable pub manage_fails : List Fault → Server → Server
unfolding notify_all
manage_fails [] s = s
manage_fails (f ∷ fs) s =
    let (msg, s') = notify_all (f ∷ fs) empty_message s in
    record s' { messages = s'.messages ++ msg ∷ [] }

-- `skip` is the number of tics that the clock says are missed.
unfoldable pub skip_to_end_of_tic : ℕ → ℕ → Server → Server
skip_to_end_of_tic tic_length skip s =
    if tic_length == 0
    then record s { tic = u64 (s.tic + 1) }
    else record s { tic = u64 (u64 (s.tic + 1) + skip) }

module _ {S : Type 0} (m : FaultManager S) (tic_length : ℕ) where
  unfoldable pub do_tic : ℕ → Server → S → Run (Server × S)
  unfolding manage_fails skip_to_end_of_tic
  do_tic skip s st = do
    st₁ ← m.tic st
    (failed, st₂) ← m.get_fail st₁
    ok (skip_to_end_of_tic tic_length skip (manage_fails failed s), st₂)

  -- The loop of `main` (srv/main.cpp), with what the clock says in each tic.
  unfoldable pub do_tics : List ℕ → Server → S → Run (Server × S)
  unfolding do_tic
  do_tics [] s st = ok (s, st)
  do_tics (skip ∷ skips) s st = do (s₁, st₁) ← do_tic skip s st; do_tics skips s₁ st₁
