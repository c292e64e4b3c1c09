-- ===== src/Tests/Servers.antt =====
-- The server (srv/server.cpp), with the replay plugin behind it, and the way of its faults to a node.
use mathlib.Core.List.{flatten}
use lau_sim.Base.{Bytes, ◌≡◌, List, [], ◌∷◌, ◌++◌, map, length, codes, pos, ℕ}
use lau_sim.FaultManager.{ok, ◌>>=◌, observe, Node, uniform_node}
use lau_sim.Replay
use lau_sim.Server.{Server, notice, do_tics}
use lau_sim.Server.Tics.{count_tics, summaries, do_tics-observe}
use lau_sim.Client
use lau_sim.Backend
use lau_sim.Backend.{net, mem, pwr}
use lau_sim.Preload
use lau_sim.Delivery.Fifo.{Command}
use lau_sim.Tests.Data.{grants, recording}

abbrev pub idle : Server
idle = record { tic = 0; notices = []; messages = [] }

abbrev skips : List ℕ
skips = 0 ∷ 2 ∷ 0 ∷ []

do_tics-observe_example :
    do_tics (Replay.manager grants) 1000 skips idle (Replay.fresh recording) ≡ (
      observe (Replay.manager grants) (length skips) (Replay.fresh recording) >>= λ r. ok (
        record {
          tic = count_tics 1000 skips idle.tic;
          notices = idle.notices ++ map notice (flatten r.0);
          messages = idle.messages ++ summaries r.0;
        },
        r.1,
      ))
do_tics-observe_example =
    do_tics-observe (Replay.manager grants) 1000 skips idle (Replay.fresh recording)

abbrev reports : List Bytes
reports = codes "beta" ∷ codes "gamma" ∷ codes "alpha" ∷ codes "beta" ∷ []

abbrev alpha : Node
alpha = record {
  name = codes "alpha";
  id = pos 0;
  node_type = uniform_node;
  state = 1;
  components = [];
}

abbrev commands : List Command
commands = (net, 3) ∷ (mem, 10) ∷ []

abbrev batches : List (List Command)
batches = [] ∷ ((net, 0) ∷ (pwr, 100) ∷ []) ∷ []
