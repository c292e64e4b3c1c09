-- ===== src/Tests/Plugins.antt =====
-- The fault managers of plugins/: replay, transcribe and random.
use lau_sim.Random.Memory
use lau_sim.Tests.Servers.{idle}
use lau_sim.Server.{Server}
use lau_sim.Recording.Served.{served, served-replay}
use lau_sim.Libc.Number.{strtoull}
use lau_sim.Base.{
  int32, pos, none, some, ◌+◌, ℕ, ◌≡◌, refl, ◌++◌, [], ◌∷◌, List, All, codes, false, arith,
}
use lau_sim.FaultManager.{PluginManagerInterface, ok, success, Fault, session, ◌>>=◌, observe}
use lau_sim.Libc.Text.{strstr, c_str, strchr, tokens}
use lau_sim.Replay
use lau_sim.Replay.{Replay}
use lau_sim.Transcribe
use lau_sim.Transcribe.{Transcribe, print_answer}
use lau_sim.Recording.Format.{reserved, IsPlainNode, IsPlainFault, restore_nodes, print_tics}
use lau_sim.Recording.Transcript.{written, session-transcribe}
use lau_sim.Random
use lau_sim.Random.{Random}
use lau_sim.Random.Init.{IsRegistered, init-IsRegistered}
use lau_sim.Random.Names.{new_nodes}
use lau_sim.Random.Health.{Outcome, count_healthy, count_faults, tic-Outcome, observe-count_healthy}
use lau_sim.Recording.OfRandom.{replay-random}
use lau_sim.Replay.Settled.{IsSettled, IsRest, tic-IsSettled}
use lau_sim.Recording.Replayed.{played, replay-transcribe, session-recording}
use lau_sim.Tests.Data.{
  grants, grants_all, grants_one, grants_one_all, rand, recording, nodes, faults, replayed, label,
  lacks, lacks-Lacks,
}

replay_run :
    session (Replay.manager grants) 3 (Replay.fresh recording)
    ≡ ok (success nodes, faults, replayed)
unfolding session Replay.fresh Replay.get_nodes Replay.tic Replay.get_fail strtoull c_str tokens
    strstr Replay.tic_loop Replay.read_line strchr int32
replay_run = refl

nodes-IsPlainNode : All IsPlainNode nodes
unfolding lacks
nodes-IsPlainNode = (
  (
    label (codes "alpha") (cc) refl,
    (label (codes "net") (cc) refl, (label (codes "memory") (cc) refl, tt)),
    omega arith,
  ),
  ((label (codes "beta") (cc) refl, tt, omega arith), tt),
)

faults-IsPlainFault : All (All IsPlainFault) faults
unfolding lacks
faults-IsPlainFault = (
  ((lacks-Lacks reserved (codes "alpha") refl, label (codes "net") (cc) refl, omega arith), tt),
  (
    tt,
    (
      (
        (lacks-Lacks reserved (codes "beta") refl, tt, omega arith),
        (
          (
            lacks-Lacks reserved (codes "alpha") refl,
            label (codes "memory") (cc) refl,
            omega arith,
          ),
          tt,
        ),
      ),
      tt,
    ),
  ),
)

-- The recording, recorded in its turn, and replayed for four tics.
replay-transcribe_example :
    (t : Transcribe Replay) × (r : Replay) × (session
        (Transcribe.manager (Replay.manager grants))
        3
        (Transcribe.fresh (Replay.fresh recording))
      ≡ ok (success nodes, faults, t))
    × (session (Replay.manager grants) 4 (Replay.fresh t.file)
        ≡ ok (success (restore_nodes 0 nodes), played 4 0 faults, r))
replay-transcribe_example =
    replay-transcribe (Replay.manager grants) grants 3 4 (Replay.fresh recording) replayed nodes
      faults replay_run grants_all (omega arith) nodes-IsPlainNode (omega arith) faults-IsPlainFault

-- Six tics of which the recording has three.
session-recording_example :
    (r : Replay) × (session
        (Replay.manager grants)
        6
        (Replay.fresh (print_answer (success nodes) ++ print_tics 0 faults))
      ≡ ok (success (restore_nodes 0 nodes), played 6 0 faults, r))
session-recording_example =
    session-recording grants 6 nodes faults grants_all (omega arith) nodes-IsPlainNode (omega arith)
      faults-IsPlainFault

session-transcribe_example :
    session
      (Transcribe.manager (Replay.manager grants))
      3
      (Transcribe.fresh (Replay.fresh recording))
    ≡ (session (Replay.manager grants) 3 (Transcribe.fresh (Replay.fresh recording)).nested >>= λ r.
        ok (
          r.0,
          r.1,
          written
              (Replay.manager grants)
              (Transcribe.fresh (Replay.fresh recording))
              (print_answer r.0
                ++ print_tics (Transcribe.fresh (Replay.fresh recording)).tic_num r.1)
              3
              r.2,
        ))
session-transcribe_example =
    session-transcribe (Replay.manager grants) 3 (Transcribe.fresh (Replay.fresh recording))

replay-random_example :
    (r : Random ℕ) × (fss : List (List Fault)) × (t : Transcribe (Random ℕ)) × (q : Replay)
    × (Random.init_nodes grants grants_one 5 7 ≡ ok (success r))
    × (session (Transcribe.manager (Random.manager rand grants grants_one)) 20 (Transcribe.fresh r)
        ≡ ok (success (Random.base_nodes (new_nodes 5 0)), fss, t))
    × (session (Replay.manager grants) 20 (Replay.fresh t.file)
        ≡ ok (success (restore_nodes 0 (Random.base_nodes (new_nodes 5 0))), played 20 0 fss, q))
replay-random_example =
    replay-random rand grants grants_one grants_one grants_all grants_one_all grants_one_all 5 20 7
      (omega arith) (omega arith) (omega arith)

-- Three nodes, of which one has failed before.
abbrev three : Random ℕ
three = record {
  num = pos 3;
  nodes =
      record (Random.new_node 0) { healthy = false } ∷ Random.new_node 1 ∷ Random.new_node 2 ∷ [];
  faults = [];
  generator = 4;
}

observe-count_healthy_example :
    (fss : List (List Fault)) × (r : Random ℕ) × (observe
        (Random.manager rand grants grants_one)
        9
        three
      ≡ ok (fss, r))
    × (count_healthy three.nodes ≡ count_healthy r.nodes + count_faults fss)
observe-count_healthy_example =
    observe-count_healthy rand grants grants_one grants_all grants_one_all 9 three

tic-Outcome_example :
    (r : Random ℕ) × (Random.tic rand grants grants_one three ≡ ok r)
    × Outcome three.nodes r.faults r.nodes
    × (r.num ≡ three.num)
tic-Outcome_example = tic-Outcome rand grants grants_one grants_all grants_one_all three

-- The variables behind the header and the nodes, and behind a tic more.
abbrev opened : Replay
opened = record (Replay.fresh recording) {
  file = codes "alpha,net,0x10\n" ∷ codes "no fault\n" ∷ codes "[tic#2]\n" ∷ codes "beta,,7\n" ∷ [];
}

abbrev second : Replay
second = record (Replay.fresh recording) {
  file = codes "beta,,7\n" ∷ [];
  tic_num = 1;
  nxt_tic = 2;
  id = 1;
  faults =
      record {
        id = pos 1;
        name = none;
        component = some (codes "net");
        node = codes "alpha";
        severity = 16;
      }
      ∷ [];
}

first_tic : Replay.tic opened ≡ ok second
unfolding Replay.tic Replay.fresh Replay.tic_loop Replay.read_line strstr c_str strchr strtoull
    tokens int32
first_tic = refl

tic-IsSettled_example : IsSettled second × IsRest second.file opened.file
tic-IsSettled_example = tic-IsSettled opened second first_tic

-- The third tic is due behind two.
abbrev early : Replay
early = record second { tic_num = 0; nxt_tic = 2 }

-- A plugin manager that counts the plugins.
abbrev counting : PluginManagerInterface ℕ
counting = record { version = 7; register_plugin = λ name n. (pos 0, n + 1) }

init-IsRegistered_example :
    IsRegistered grants grants_one {G = ℕ} counting 0
      (Random.init grants grants_one counting (codes "3" ∷ []) 7 0)
init-IsRegistered_example = init-IsRegistered grants grants_one counting (codes "3" ∷ []) 7 0

-- A server with one skipped tic, whose manager is the recording.
served-replay_example :
    (s' : Server) × (t : Transcribe Replay) × (r : Replay) × (served
        (Replay.manager grants)
        1000
        (0 ∷ 1 ∷ 0 ∷ [])
        idle
        (Replay.fresh recording)
      ≡ ok (success nodes, s', replayed))
    × (served
          (Transcribe.manager (Replay.manager grants))
          1000
          (0 ∷ 1 ∷ 0 ∷ [])
          idle
          (Transcribe.fresh (Replay.fresh recording))
        ≡ ok (success nodes, s', t))
    × (served (Replay.manager grants) 1000 (0 ∷ 1 ∷ 0 ∷ []) idle (Replay.fresh t.file)
        ≡ ok (success (restore_nodes 0 nodes), s', r))
served-replay_example =
    served-replay (Replay.manager grants) grants 1000 (0 ∷ 1 ∷ 0 ∷ []) idle (Replay.fresh recording)
      replayed nodes faults replay_run grants_all (omega arith) nodes-IsPlainNode (omega arith)
      faults-IsPlainFault
