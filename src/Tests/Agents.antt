-- ===== src/Tests/Agents.antt =====
-- The agent of com/laik/laik_intf.c at concrete messages.
use lau_sim.Server.Tics.{summaries}
use mathlib.Core.List.{flatten}
use lau_sim.Base.{
  ◌+◌, ◌==◌, if◌then◌else◌, ℕ, ◌≡◌, refl, List, [], ◌∷◌, ◌++◌, map, Option, none, some, Bytes,
  codes, pos,
}
use lau_sim.FaultManager.{ok, failure, Fault, FaultManager, observe}
use lau_sim.Server.{Server, do_tics, ExternMessage, manage_fails}
use lau_sim.Laik.{AgentLibrary, Agent, returned, aborted, receive, client_id}
use lau_sim.Laik.Memory.{HasRoom, client_id-not-HasRoom}
use lau_sim.Laik.Messages.{informed, do_tics-informed, manage_fails-aborted}
use lau_sim.Tests.Servers.{idle}

client_id-not-HasRoom_example : ¬ HasRoom (client_id (codes "localhost"))
client_id-not-HasRoom_example = client_id-not-HasRoom (codes "localhost")

-- Messages with one failing node.
abbrev serialize : ExternMessage → Bytes
serialize m = flatten m.failing_nodes

abbrev unpack : Bytes → Option ExternMessage
unpack b = some (record { spare_nodes = []; failing_nodes = b ∷ [] })

abbrev lib : AgentLibrary ℕ ExternMessage
lib = record {
  hostname = codes "localhost";
  topic = codes "envelope/lausim";
  mqtt_init = λ id addr port keepalive w. (pos 0, w);
  mqtt_subscribe = λ topic w. w;
  mqtt_cleanup = λ w. w;
  unpack = unpack;
}

-- The application keeps what it gets.
abbrev agent : Agent ℕ ExternMessage (List (Option ExternMessage))
agent = record { laik_fp = λ m x. x ++ m ∷ []; laik_cleanup = none; client = 0 }

abbrev fault : Fault
fault = record {
  id = pos 1;
  name = none;
  component = some (codes "net");
  node = codes "alpha";
  severity = 16;
}

-- A manager with a node that fails in its first tic.
abbrev manager : FaultManager ℕ
manager = record {
  get_nodes = λ n. ok (failure (pos 1), n);
  tic = λ n. ok (n + 1);
  get_fail = λ n. ok (if n == 1 then record fault { component = none } ∷ [] else [], n);
  inject_fail = λ f n. ok (pos 1, n);
}

do_tics-informed_example :
    (s : Server) × (do_tics manager 0 (0 ∷ 0 ∷ []) idle 0 ≡ ok (s, 2))
    × (receive lib (map serialize s.messages) agent []
        ≡ returned (
            informed agent.laik_fp
              (summaries ((record fault { component = none } ∷ []) ∷ [] ∷ []))
              []))
unfolding summaries flatten observe
do_tics-informed_example =
    do_tics-informed lib serialize manager 0 (0 ∷ 0 ∷ []) idle 0 2
      ((record fault { component = none } ∷ []) ∷ [] ∷ []) agent [] refl refl (((cc), refl), tt)

manage_fails-aborted_example :
    (m : ExternMessage) × ((manage_fails (fault ∷ []) idle).messages ≡ idle.messages ++ m ∷ [])
    × (receive lib (serialize m ∷ []) agent [] ≡ aborted)
unfolding flatten
manage_fails-aborted_example =
    manage_fails-aborted lib serialize fault [] idle agent [] ((codes "net", refl), tt) refl
