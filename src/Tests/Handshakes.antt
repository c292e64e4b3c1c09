-- ===== src/Tests/Handshakes.antt =====
-- The start of a run, at concrete inputs: client/src/client.c, client/src/mqtt.c, srv/server.cpp and
-- srv/main.cpp.
use lau_sim.Base.{
  ℕ, zero, suc, ◌≡◌, refl, Bool, true, false, List, [], ◌∷◌, ◌++◌, map, Option, none, some, Bytes,
  codes, pos, ◌*◌, ltb, ◌==◌, if◌then◌else◌,
}
use lau_sim.Libc.Text.{str_eq}
use lau_sim.FaultManager.{Node}
use lau_sim.Replay
use lau_sim.Replay.{Replay}
use lau_sim.Server.{all_nodes_ready}
use lau_sim.Server.Ready.{report_ready, has_reported}
use lau_sim.Server.Messages.{
  Backchannel, MsgType, log, error, status, other, NodeStatus, st_ready, st_error, st_finished,
  Reception, on_message,
}
use lau_sim.Server.Reception.{receive}
use lau_sim.Mosquitto.Plugin.{ComMosquitto}
use lau_sim.Mqtt.Start.{ClientLibrary, Connection}
use lau_sim.Client.Start.{ready_message, start}
use lau_sim.Client.Reported.{Outcome, start-HasReported}
use lau_sim.Delivery.Handshake.{receive-ready_message}
use lau_sim.Tests.Data.{nodes, lacks-Lacks, lacks}
use lau_sim.Server.Clock.{Clock}

-- A library that keeps the topics and messages that are published.
abbrev client_mosq : ClientLibrary (List (Bytes × Bytes))
client_mosq = record {
  lib_init = λ w. w;
  new_client = λ name w. (true, w);
  will_set = λ topic name w. (pos 0, w);
  connect = λ host port w. (pos 0, w);
  subscribe = λ topic w. (pos 0, w);
  publish = λ topic payload retain w. (pos 0, w ++ (topic, payload) ∷ []);
  disconnect = λ w. w;
  lib_cleanup = λ w. w;
}

abbrev apart : Connection (List (Bytes × Bytes))
apart = record { con = false; node_specific_back_topic = []; lib = [] }

-- A packing without loss: the type, the status, the name with a 1 before each byte and a 0 behind it, and
-- the text.
abbrev of_type : MsgType → ℕ
of_type log = 0
of_type error = 1
of_type status = 2
of_type other = 3

abbrev to_type : ℕ → MsgType
to_type zero = log
to_type (suc zero) = error
to_type (suc (suc zero)) = status
to_type (suc (suc (suc _))) = other

of_type-to_type : (t : MsgType) → to_type (of_type t) ≡ t
of_type-to_type log = refl
of_type-to_type error = refl
of_type-to_type status = refl
of_type-to_type other = refl

abbrev of_status : Option NodeStatus → ℕ
of_status none = 0
of_status (some st_ready) = 1
of_status (some st_error) = 2
of_status (some st_finished) = 3

abbrev to_status : ℕ → Option NodeStatus
to_status zero = none
to_status (suc zero) = some st_ready
to_status (suc (suc zero)) = some st_error
to_status (suc (suc (suc _))) = some st_finished

of_status-to_status : (st : Option NodeStatus) → to_status (of_status st) ≡ st
of_status-to_status none = refl
of_status-to_status (some st_ready) = refl
of_status-to_status (some st_error) = refl
of_status-to_status (some st_finished) = refl

abbrev of_text : Option Bytes → Bytes
of_text none = []
of_text (some s) = 1 ∷ s

abbrev to_text : Bytes → Option Bytes
to_text [] = none
to_text (_ ∷ s) = some s

of_text-to_text : (t : Option Bytes) → to_text (of_text t) ≡ t
of_text-to_text none = refl
of_text-to_text (some s) = refl

abbrev of_name : Bytes → Bytes → Bytes
of_name [] r = 0 ∷ r
of_name (c ∷ s) r = 1 ∷ c ∷ of_name s r

abbrev to_name : Bytes → Option (Bytes × Bytes)
to_name [] = none
to_name (zero ∷ r) = some ([], r)
to_name (suc _ ∷ []) = none
to_name (suc _ ∷ c ∷ r) = elim (to_name r) [ none ↦ none | some p ↦ some (c ∷ p.0, p.1) ]

of_name-to_name : (s r : Bytes) → to_name (of_name s r) ≡ some (s, r)
of_name-to_name [] r = refl
of_name-to_name (c ∷ s) r = rw (of_name-to_name s r) refl

abbrev pack : Backchannel → Bytes
pack b = of_type b.type ∷ of_status b.new_status ∷ of_name b.node_name (of_text b.log_err_msg)

abbrev parse : Bytes → Option Backchannel
parse [] = none
parse (t ∷ []) = none
parse (t ∷ st ∷ r) = elim (to_name r) [
  | none ↦ none
  | some p ↦ some (record {
    node_name = p.0;
    type = to_type t;
    log_err_msg = to_text p.1;
    new_status = to_status st;
  })
]

packed : (b : Backchannel) → parse (pack b) ≡ some b
packed b =
    rw
      (
        of_name-to_name b.node_name (of_text b.log_err_msg),
        of_type-to_type b.type,
        of_status-to_status b.new_status,
        of_text-to_text b.log_err_msg,
        parse,
      )
      refl

abbrev listening : ComMosquitto Bytes (Bytes → Reception → Reception)
listening = record {
  id = codes "lausim";
  is_init = true;
  lausim_callback = some (on_message parse);
  lib = [];
}

abbrev waiting : Reception
waiting = record { nodes = nodes; logged = []; other_cb = false; forwarded = [] }

abbrev names : List Bytes
names = codes "beta" ∷ codes "alpha" ∷ codes "beta" ∷ []

receive-ready_message_example :
    all_nodes_ready (receive (map (λ n. pack (ready_message n)) names) listening waiting).nodes
    ≡ true
unfolding has_reported str_eq lacks
receive-ready_message_example =
    receive-ready_message parse pack refl packed listening refl names waiting
      (
        lacks-Lacks (0 ∷ []) (codes "beta") refl,
        (lacks-Lacks (0 ∷ []) (codes "alpha") refl, (lacks-Lacks (0 ∷ []) (codes "beta") refl, tt)),
      )
      (((cc), tt), (tt, tt)) (refl, (refl, tt))

-- The nodes are ready in round 1, and nobody asks for an end.
abbrev states : ℕ → List Node
states zero = nodes
states (suc _) = report_ready (codes "alpha" ∷ codes "beta" ∷ []) nodes

abbrev never : ℕ → Bool
never n = false

-- A clock that is on time for ten tics, and stands still then.
abbrev clock : ℕ → ℕ
clock i = if ltb i 10 then 1000 * i else 10000

-- What the actors do at the signal to start is left out: the recording knows no actors.
abbrev unsignalled : List Node → Replay → Replay
unsignalled ns r = r

-- The end is requested in the third round.
abbrev third_round : ℕ → Bool
third_round n = n == 2

start-HasReported_example :
    Outcome client_mosq pack true
      (codes "alpha" ∷ codes "broker" ∷ codes "1883" ∷ [])
      apart
      (start client_mosq pack true (codes "alpha" ∷ codes "broker" ∷ codes "1883" ∷ []) apart)
start-HasReported_example =
    start-HasReported client_mosq pack true (codes "alpha" ∷ codes "broker" ∷ codes "1883" ∷ [])
      apart
