-- ===== src/Server/Reception.antt =====
-- The way of a node's report from the MQTT plugin (plugins/mosquitto/com_mosquitto.cpp) to the state of
-- the node (srv/server.cpp).
use lau_sim.Base.{◌≡◌, refl, ap, ◌∙◌, true, List, [], ◌∷◌, map, Option, none, some, Bytes, All}
use lau_sim.Libc.Text.{c_str}
use lau_sim.FaultManager.{Node}
use lau_sim.Server.{all_nodes_ready, set_node_state, node_state_ready}
use lau_sim.Server.Ready.{report_ready, has_reported, IsUnique, report_ready-all_nodes_ready}
use lau_sim.Server.Messages.{
  Backchannel, status, st_ready, Reception, log_line, take_status, state_of, take_message,
  on_message,
}
use lau_sim.Mosquitto.Plugin
use lau_sim.Mosquitto.Plugin.{ComMosquitto}

-- The report of a node that it is ready.
abbrev pub IsReady : Backchannel → Type 0
IsReady b = (b.type ≡ status) × (b.new_status ≡ some st_ready)

abbrev pub reporter : Backchannel → Bytes
reporter b = c_str b.node_name

-- Messages that come in one after the other.
unfoldable pub receive :
    {W : Type 0}
    → List Bytes
    → ComMosquitto W (Bytes → Reception → Reception)
    → Reception
    → Reception
receive [] s r = r
receive (m ∷ ms) s r = receive ms s (Plugin.on_message m s r)

take_message-nodes :
    (msg : Bytes) (b : Backchannel) (r : Reception)
    → IsReady b
    → (take_message msg b r).nodes ≡ (set_node_state (reporter b) node_state_ready r.nodes).1
unfolding take_message take_status log_line state_of
take_message-nodes msg b r (t, n) = rw (t, n) refl

module _ {W : Type 0} (parse : Bytes → Option Backchannel) (required : parse [] ≡ none)
    (s : ComMosquitto W (Bytes → Reception → Reception))
    (set : s.lausim_callback ≡ some (on_message parse)) where
  on_message-nodes :
      (msg : Bytes) (b : Backchannel) (r : Reception)
      → parse msg ≡ some b
      → IsReady b
      → (Plugin.on_message msg s r).nodes ≡ (set_node_state (reporter b) node_state_ready r.nodes).1
  unfolding Plugin.on_message on_message
  on_message-nodes [] b r e h = cc
  on_message-nodes (c ∷ msg) b r e h = rw (set, e, on_message) (take_message-nodes (c ∷ msg) b r h)

  receive-nodes :
      (ms : List Bytes) (bs : List Backchannel) (r : Reception)
      → map parse ms ≡ map some bs
      → All IsReady bs
      → (receive ms s r).nodes ≡ report_ready (map reporter bs) r.nodes
  unfolding receive report_ready
  receive-nodes [] [] r e h = refl
  receive-nodes [] (b ∷ bs) r e h = cc
  receive-nodes (m ∷ ms) [] r e h = cc
  receive-nodes (m ∷ ms) (b ∷ bs) r e (hb, h) =
      let head : parse m ≡ some b = cc in
      let tail : map parse ms ≡ map some bs = cc in
      receive-nodes ms bs (Plugin.on_message m s r) tail h
      ∙ ap (report_ready (map reporter bs)) (on_message-nodes m b r head hb)

  -- Where the server's callback is set at the MQTT plugin, no two nodes have the same name, and protobuf
  -- refuses an empty message: behind messages that it reads as reports that nodes are ready, in any
  -- order and perhaps repeated, one of each node at least, the server finds all nodes ready.
  pub receive-all_nodes_ready :
      (ms : List Bytes) (bs : List Backchannel) (r : Reception)
      → map parse ms ≡ map some bs
      → All IsReady bs
      → IsUnique r.nodes
      → All (λ (n : Node). has_reported n.name (map reporter bs) ≡ true) r.nodes
      → all_nodes_ready (receive ms s r).nodes ≡ true
  receive-all_nodes_ready ms bs r e h u reported =
      ap all_nodes_ready (receive-nodes ms bs r e h)
      ∙ report_ready-all_nodes_ready r.nodes (map reporter bs) u reported
