-- ===== src/Server/Tics.antt =====
-- The tics of srv/server.cpp: every fault of the fault manager is dispatched once, in its tic.
use mathlib.Core.List.{map-append, flatten}
use mathlib.Core.Path.{fun_ext}
use lau_sim.Base.{
  ℕ, ◌≡◌, ap, List, [], ◌∷◌, ◌++◌, map, append-nil, append_assoc, length, none, some, Bytes, ◌==◌,
  if◌then◌else◌, arith, u64, ◌+◌,
}
use lau_sim.FaultManager.{ok, ◌>>=◌, Fault, FaultManager, observe, bind_assoc}
use lau_sim.Server.{
  ExternMessage, Server, notice, add_node, notify_all, empty_message, manage_fails,
  skip_to_end_of_tic, do_tic, do_tics,
}

-- The nodes that come back, and those that fail as a whole.
unfoldable pub recovered : List Fault → List Bytes
recovered [] = []
recovered (f ∷ fs) = elim f.component [
  | some c ↦ recovered fs
  | none ↦ if f.severity == 0 then f.node ∷ recovered fs else recovered fs
]

unfoldable pub failed : List Fault → List Bytes
failed [] = []
failed (f ∷ fs) = elim f.component [
  | some c ↦ failed fs
  | none ↦ if f.severity == 0 then failed fs else f.node ∷ failed fs
]

-- The messages to the application: one for each tic that has a fault.
unfoldable pub summary : List Fault → List ExternMessage
unfolding recovered failed
summary [] = []
summary (f ∷ fs) = record { spare_nodes = recovered (f ∷ fs); failing_nodes = failed (f ∷ fs) } ∷ []

unfoldable pub summaries : List (List Fault) → List ExternMessage
unfolding summary
summaries [] = []
summaries (fs ∷ fss) = summary fs ++ summaries fss

add_node-spare :
    (f : Fault) (fs : List Fault) (msg : ExternMessage)
    → (add_node f msg).spare_nodes ++ recovered fs ≡ msg.spare_nodes ++ recovered (f ∷ fs)
unfolding recovered add_node
add_node-spare f fs msg = ground (arith, append_assoc msg.spare_nodes (f.node ∷ []) (recovered fs))

add_node-failing :
    (f : Fault) (fs : List Fault) (msg : ExternMessage)
    → (add_node f msg).failing_nodes ++ failed fs ≡ msg.failing_nodes ++ failed (f ∷ fs)
unfolding failed add_node
add_node-failing f fs msg = ground (arith, append_assoc msg.failing_nodes (f.node ∷ []) (failed fs))

pub notify_all_lem :
    (fs : List Fault) (msg : ExternMessage) (s : Server)
    → notify_all fs msg s ≡ (
      record {
        spare_nodes = msg.spare_nodes ++ recovered fs;
        failing_nodes = msg.failing_nodes ++ failed fs;
      },
      record s { notices = s.notices ++ map notice fs },
    )
unfolding notify_all
notify_all_lem [] msg s = unfold recovered failed in simp append-nil
notify_all_lem (f ∷ fs) msg s = rw (
  notify_all_lem fs,
  add_node-spare f fs msg,
  add_node-failing f fs msg,
  append_assoc s.notices (notice f ∷ []) (map notice fs),
)

-- What is dispatched in a tic.
pub manage_fails_lem :
    (fs : List Fault) (s : Server)
    → manage_fails fs s
      ≡ record s { notices = s.notices ++ map notice fs; messages = s.messages ++ summary fs }
unfolding manage_fails summary
manage_fails_lem [] s = simp append-nil
manage_fails_lem (f ∷ fs) s = rw (notify_all_lem (f ∷ fs) empty_message s)

-- The counter of the tics behind one, and behind several, with those that are skipped.
unfoldable pub next_tic : ℕ → ℕ → ℕ → ℕ
next_tic tic_length skip k = if tic_length == 0 then u64 (k + 1) else u64 (u64 (k + 1) + skip)

unfoldable pub count_tics : ℕ → List ℕ → ℕ → ℕ
count_tics tic_length [] k = k
count_tics tic_length (skip ∷ skips) k = count_tics tic_length skips (next_tic tic_length skip k)

skip_to_end_of_tic_lem :
    (tic_length skip : ℕ) (s : Server)
    → skip_to_end_of_tic tic_length skip s ≡ record s { tic = next_tic tic_length skip s.tic }
unfolding skip_to_end_of_tic next_tic
skip_to_end_of_tic_lem tic_length skip s = ground arith

-- The server behind a tic with these faults.
unfoldable pub dispatch : ℕ → ℕ → List Fault → Server → Server
dispatch tic_length skip fs s = record {
  tic = next_tic tic_length skip s.tic;
  notices = s.notices ++ map notice fs;
  messages = s.messages ++ summary fs;
}

pub dispatch_lem :
    (tic_length skip : ℕ) (fs : List Fault) (s : Server)
    → skip_to_end_of_tic tic_length skip (manage_fails fs s) ≡ dispatch tic_length skip fs s
unfolding dispatch
dispatch_lem tic_length skip fs s =
    rw (manage_fails_lem fs s) (skip_to_end_of_tic_lem tic_length skip _)

module _ {S : Type 0} (m : FaultManager S) (tic_length : ℕ) where
  pub do_tic_lem :
      (skip : ℕ) (s : Server) (st : S)
      → do_tic m tic_length skip s st
        ≡ (m.tic st >>= λ st₁. m.get_fail st₁ >>= λ r. ok (dispatch tic_length skip r.0 s, r.1))
  unfolding do_tic
  do_tic_lem skip s st =
      ap (λ k. m.tic st >>= k)
        (fun_ext (λ st₁.
          ap (λ k. m.get_fail st₁ >>= k)
            (fun_ext (λ (r : List Fault × S).
              ap (λ x. ok (x, r.1)) (dispatch_lem tic_length skip r.0 s)))))

  -- A run of the server's loop, with any fault manager and any clock, is the run of the manager: it is
  -- defined if that is; each fault is handed to the actors once, in its order, and each tic with a fault
  -- sends one message, of the nodes that recover and those that fail as a whole.
  pub do_tics-observe :
      (skips : List ℕ) (s : Server) (st : S)
      → do_tics m tic_length skips s st ≡ (
          observe m (length skips) st >>= λ r. ok (
            record {
              tic = count_tics tic_length skips s.tic;
              notices = s.notices ++ map notice (flatten r.0);
              messages = s.messages ++ summaries r.0;
            },
            r.1,
          ))
  unfolding do_tics observe count_tics flatten summaries dispatch
  do_tics-observe [] s st = simp append-nil
  do_tics-observe (skip ∷ skips) s st =
      simp (do_tic_lem, bind_assoc, do_tics-observe skips, append_assoc, map-append)
