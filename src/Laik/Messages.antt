-- ===== src/Laik/Messages.antt =====
-- The messages of the server (srv/server.cpp) at the agent.
use mathlib.Core.List.{flatten}
use lau_sim.Base.{
  ℕ, length, ◌≡◌, ◌≢◌, refl, ap, ◌∙◌, List, [], ◌∷◌, ◌++◌, map, Option, some, Bytes, All,
}
use lau_sim.FaultManager.{ok, Fault, FaultManager, observe}
use lau_sim.Server.{notice, ExternMessage, Server, do_tics, empty_message, manage_fails}
use lau_sim.Server.Tics.{
  count_tics, recovered, failed, summary, summaries, manage_fails_lem, do_tics-observe,
}
use lau_sim.Laik.{AgentLibrary, Agent, returned, aborted, msg_cb, receive}

-- The application behind messages that are unpacked.
unfoldable pub informed : {M X : Type 0} → (Option M → X → X) → List M → X → X
informed fp [] x = x
informed fp (m ∷ ms) x = informed fp ms (fp (some m) x)

-- The fault of a component.
abbrev pub IsOfComponent : Fault → Type 0
IsOfComponent f = (c : Bytes) × (f.component ≡ some c)

components-recovered : (fs : List Fault) → All IsOfComponent fs → recovered fs ≡ []
unfolding recovered
components-recovered [] h = refl
components-recovered (f ∷ fs) ((c, e), h) = rw e (components-recovered fs h)

components-failed : (fs : List Fault) → All IsOfComponent fs → failed fs ≡ []
unfolding failed
components-failed [] h = refl
components-failed (f ∷ fs) ((c, e), h) = rw e (components-failed fs h)

module _ {W X : Type 0} (lib : AgentLibrary W ExternMessage)
    (serialize : ExternMessage → Bytes) where
  msg_cb-informed :
      (b : Bytes) (m : ExternMessage) (agent : Agent W ExternMessage X) (x : X)
      → b ≢ []
      → lib.unpack b ≡ some m
      → msg_cb lib b agent x ≡ returned (agent.laik_fp (some m) x)
  unfolding msg_cb
  msg_cb-informed [] m agent x h e = absurd (h refl)
  msg_cb-informed (c ∷ b) m agent x h e = ap (λ o. returned (agent.laik_fp o x)) e

  -- An agent hands the application each message of the server once, in their order, if the messages are
  -- unpacked to what they were and none is serialized to no bytes.
  receive-informed :
      (ms : List ExternMessage) (agent : Agent W ExternMessage X) (x : X)
      → All (λ m. (serialize m ≢ []) × (lib.unpack (serialize m) ≡ some m)) ms
      → receive lib (map serialize ms) agent x ≡ returned (informed agent.laik_fp ms x)
  unfolding receive informed
  receive-informed [] agent x k = refl
  receive-informed (m ∷ ms) agent x ((b, h), k) =
      rw (msg_cb-informed (serialize m) m agent x b h, receive) (receive-informed ms agent _ k)

  -- A whole run of the server, with any fault manager and clock, from a state without a message: if the
  -- manager is defined and has these faults, so is the run, and the agent hands the application one
  -- message for each tic with a fault, in their order, of the nodes that recover and those that fail as
  -- a whole; provided that a message is unpacked to what it was, and is not serialized to no bytes.
  pub do_tics-informed :
      {S : Type 0} (m : FaultManager S) (tic_length : ℕ) (skips : List ℕ) (s : Server) (st st' : S)
      (fss : List (List Fault)) (agent : Agent W ExternMessage X) (x : X)
      → s.messages ≡ []
      → observe m (length skips) st ≡ ok (fss, st')
      → All (λ m. (serialize m ≢ []) × (lib.unpack (serialize m) ≡ some m)) (summaries fss)
      → (s' : Server) × (do_tics m tic_length skips s st ≡ ok (s', st'))
        × (receive lib (map serialize s'.messages) agent x
            ≡ returned (informed agent.laik_fp (summaries fss) x))
  do_tics-informed m tic_length skips s st st' fss agent x none_yet run plain =
      let sent : s.messages ++ summaries fss ≡ summaries fss =
        ap (λ ms. ms ++ summaries fss) none_yet in
      (
        record {
          tic = count_tics tic_length skips s.tic;
          notices = s.notices ++ map notice (flatten fss);
          messages = s.messages ++ summaries fss;
        },
        do_tics-observe m tic_length skips s st ∙ rw run refl,
        ap (λ ms. receive lib (map serialize ms) agent x) sent
            ∙ receive-informed (summaries fss) agent x plain,
      )

  -- A tic with faults of which none is of a whole node: the server sends a message without a node, and if
  -- that is serialized to no bytes, as protobuf does it, the agent ends the application by its
  -- `assert`.
  pub manage_fails-aborted :
      (f : Fault) (fs : List Fault) (s : Server) (agent : Agent W ExternMessage X) (x : X)
      → All IsOfComponent (f ∷ fs)
      → serialize empty_message ≡ []
      → (m : ExternMessage) × ((manage_fails (f ∷ fs) s).messages ≡ s.messages ++ m ∷ [])
        × (receive lib (serialize m ∷ []) agent x ≡ aborted)
  unfolding summary receive
  manage_fails-aborted f fs s agent x h e = (
    empty_message,
    ap (λ (t : Server). t.messages) (manage_fails_lem (f ∷ fs) s)
        ∙ ap (λ m. s.messages ++ m ∷ [])
            (λ i. record {
              spare_nodes = components-recovered (f ∷ fs) h i;
              failing_nodes = components-failed (f ∷ fs) h i;
            }),
    unfold msg_cb in rw e refl,
  )
