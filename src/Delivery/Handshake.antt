-- ===== src/Delivery/Handshake.antt =====
-- The start of a run: from the clients (client/src/client.c) by the MQTT plugin to the server, which waits
-- for them (srv/server.cpp).
use lau_sim.Base.{◌≡◌, refl, true, List, [], ◌∷◌, map, Option, none, some, Bytes, All}
use lau_sim.Libc.Text.{c_str_lem, Lacks}
use lau_sim.FaultManager.{Node}
use lau_sim.Server.{all_nodes_ready}
use lau_sim.Server.Ready.{has_reported, IsUnique}
use lau_sim.Server.Messages.{Backchannel, Reception, on_message}
use lau_sim.Server.Reception.{IsReady, reporter, receive, receive-all_nodes_ready}
use lau_sim.Mosquitto.Plugin.{ComMosquitto}
use lau_sim.Client.Start.{ready_message}

reporters :
    (names : List Bytes)
    → All (Lacks (0 ∷ [])) names
    → map reporter (map ready_message names) ≡ names
reporters [] h = refl
reporters (n ∷ names) (hn, h) = λ i. c_str_lem n hn i ∷ reporters names h i

ready_message-IsReady : (names : List Bytes) → All IsReady (map ready_message names)
ready_message-IsReady [] = tt
ready_message-IsReady (n ∷ names) = ((refl, refl), ready_message-IsReady names)

module _ {W : Type 0} (parse : Bytes → Option Backchannel) (pack : Backchannel → Bytes)
    (required : parse [] ≡ none) (packed : (b : Backchannel) → parse (pack b) ≡ some b)
    (s : ComMosquitto W (Bytes → Reception → Reception))
    (set : s.lausim_callback ≡ some (on_message parse)) where
  parsed :
      (names : List Bytes)
      → map parse (map (λ n. pack (ready_message n)) names) ≡ map some (map ready_message names)
  parsed [] = refl
  parsed (n ∷ names) = λ i. packed (ready_message n) i ∷ parsed names i

  -- Where protobuf reads back what it has packed and refuses an empty message, and the server's callback is
  -- set at its MQTT plugin: if no two nodes have the same name, and among the clients whose messages
  -- arrive, in any order and perhaps repeated, there is one with the name of each node, then the server
  -- finds all nodes ready.
  pub receive-ready_message :
      (names : List Bytes) (r : Reception)
      → All (Lacks (0 ∷ [])) names
      → IsUnique r.nodes
      → All (λ (n : Node). has_reported n.name names ≡ true) r.nodes
      → all_nodes_ready (receive (map (λ n. pack (ready_message n)) names) s r).nodes ≡ true
  receive-ready_message names r texts u reported =
      receive-all_nodes_ready parse required s set (map (λ n. pack (ready_message n)) names)
        (map ready_message names) r (parsed names) (ready_message-IsReady names) u
        (rw (reporters names texts) reported)
