-- ===== src/Recording/Served.antt =====
-- The server (srv/server.cpp) behind a recording: its calls are those of the run that was recorded.
use mathlib.Core.List.{map-append, flatten}
use lau_sim.Base.{
  ℕ, zero, suc, ◌+◌, ◌^◌, ◌<◌, ◌≡◌, refl, sym, ap, ◌∙◌, List, [], ◌∷◌, ◌++◌, map, length, Bool,
  true, All, u64, arith,
}
use lau_sim.FaultManager.{
  Run, ok, ◌>>=◌, bind_assoc, >>=-ok, Answer, success, Node, Fault, FaultManager, observe, session,
}
use lau_sim.Server.{Server, notice, do_tics}
use lau_sim.Server.Tics.{recovered, failed, summary, summaries, count_tics, do_tics-observe}
use lau_sim.Replay
use lau_sim.Replay.{Replay}
use lau_sim.Transcribe
use lau_sim.Transcribe.{Transcribe}
use lau_sim.Recording.Format.{restore_nodes, restore_faults, last_id, IsPlainNode, IsPlainFault}
use lau_sim.Recording.Replayed.{played, replay-transcribe}

-- The server's use of a fault manager: the nodes in `init`, and then the tics.
unfoldable pub served :
    {S : Type 0} → FaultManager S → ℕ → List ℕ → Server → S → Run (Answer (List Node) × Server × S)
unfolding do_tics
served m tic_length skips s st = do
  (nodes, st₁) ← m.get_nodes st
  (s', st₂) ← do_tics m tic_length skips s st₁
  ok (nodes, s', st₂)

-- The server behind tics with these faults.
abbrev pub behind : ℕ → List ℕ → List (List Fault) → Server → Server
behind tic_length skips fss s = record {
  tic = count_tics tic_length skips s.tic;
  notices = s.notices ++ map notice (flatten fss);
  messages = s.messages ++ summaries fss;
}

served-session :
    {S : Type 0} (m : FaultManager S) (tic_length : ℕ) (skips : List ℕ) (s : Server) (st : S)
    → served m tic_length skips s st
      ≡ (session m (length skips) st >>= λ r. ok (r.0, behind tic_length skips r.1 s, r.2))
unfolding served session
served-session m tic_length skips s st = simp (do_tics-observe, bind_assoc)

length-observe :
    {S : Type 0} (m : FaultManager S) (n : ℕ) (st st' : S) (fss : List (List Fault))
    → observe m n st ≡ ok (fss, st')
    → length fss ≡ n
unfolding observe
length-observe m zero st st' fss h = let e : fss ≡ [] = cc in ap length e
length-observe m (suc n) st st' fss h =
    let (st₁, h₁, _) = >>=-ok _ (m.tic st) h in
    let (r, h₂, _) = >>=-ok _ (m.get_fail st₁) h₁ in
    let (q, h₃, e) = >>=-ok _ (observe m n r.1) h₂ in
    let front : fss ≡ r.0 ∷ q.0 = cc in ap length front ∙ ap suc (length-observe m n r.1 q.1 q.0 e)

length-session :
    {S : Type 0} (m : FaultManager S) (n : ℕ) (st st' : S) (nodes : Answer (List Node))
    (fss : List (List Fault))
    → session m n st ≡ ok (nodes, fss, st')
    → length fss ≡ n
unfolding session
length-session m n st st' nodes fss h =
    let (r, h₁, _) = >>=-ok _ (m.get_nodes st) h in
    let (q, h₂, e) = >>=-ok _ (observe m n r.1) h₁ in
    let same : fss ≡ q.0 = cc in ap length same ∙ length-observe m n r.1 q.1 q.0 e

-- Replaying keeps what the server makes of a fault.
notice-restore_faults :
    (fs : List Fault) (id : ℕ) → map notice (restore_faults id fs) ≡ map notice fs
notice-restore_faults [] id = refl
notice-restore_faults (f ∷ fs) id = ap (λ ns. notice f ∷ ns) (notice-restore_faults fs _)

recovered-restore_faults :
    (fs : List Fault) (id : ℕ) → recovered (restore_faults id fs) ≡ recovered fs
unfolding recovered
recovered-restore_faults [] id = refl
recovered-restore_faults (f ∷ fs) id = ground (arith, recovered-restore_faults fs (u64 (id + 1)))

failed-restore_faults : (fs : List Fault) (id : ℕ) → failed (restore_faults id fs) ≡ failed fs
unfolding failed
failed-restore_faults [] id = refl
failed-restore_faults (f ∷ fs) id = ground (arith, failed-restore_faults fs (u64 (id + 1)))

summary-restore_faults : (fs : List Fault) (id : ℕ) → summary (restore_faults id fs) ≡ summary fs
unfolding summary
summary-restore_faults [] id = refl
summary-restore_faults (f ∷ fs) id =
    let r = recovered-restore_faults (f ∷ fs) id in
    let q = failed-restore_faults (f ∷ fs) id in
    λ i. record { spare_nodes = r i; failing_nodes = q i } ∷ []

notices-played :
    (n id : ℕ) (fss : List (List Fault))
    → length fss ≡ n
    → map notice (flatten (played n id fss)) ≡ map notice (flatten fss)
unfolding flatten
notices-played zero id [] h = refl
notices-played zero id (fs ∷ fss) h = absurd (omega arith)
notices-played (suc n) id [] h = absurd (omega arith)
notices-played (suc n) id (fs ∷ fss) h =
    map-append notice (restore_faults id fs) (flatten (played n (last_id id fs) fss))
    ∙ rw (notice-restore_faults fs id, notices-played n (last_id id fs) fss (omega arith))
        (sym (map-append notice fs (flatten fss)))

summaries-played :
    (n id : ℕ) (fss : List (List Fault))
    → length fss ≡ n
    → summaries (played n id fss) ≡ summaries fss
unfolding summaries
summaries-played zero id [] h = refl
summaries-played zero id (fs ∷ fss) h = absurd (omega arith)
summaries-played (suc n) id [] h = absurd (omega arith)
summaries-played (suc n) id (fs ∷ fss) h =
    rw (summary-restore_faults fs id, summaries-played n (last_id id fs) fss (omega arith)) refl

-- A server whose fault manager is recorded, and one that replays the written file, with the same clock:
-- if the recorded run itself is defined, with nodes and faults whose names are plain, then recording
-- changes nothing for the server, and the replay takes it to the same state: the same calls for the
-- actors in the same order, the same messages to the application, and the same counter of the tics.
-- There are fewer than 2^64 nodes and tics, and the allocator grants all requests of the replay.
pub served-replay :
    {S : Type 0} (m : FaultManager S) (calloc : ℕ → ℕ → Bool) (tic_length : ℕ) (skips : List ℕ)
    (s : Server) (st st' : S) (ns : List Node) (fss : List (List Fault))
    → session m (length skips) st ≡ ok (success ns, fss, st')
    → ((n size : ℕ) → calloc n size ≡ true)
    → length ns < 2 ^ 64
    → All IsPlainNode ns
    → length skips < 2 ^ 64
    → All (All IsPlainFault) fss
    → (s' : Server) × (t : Transcribe S) × (r : Replay) × (served m tic_length skips s st
        ≡ ok (success ns, s', st'))
      × (served (Transcribe.manager m) tic_length skips s (Transcribe.fresh st)
          ≡ ok (success ns, s', t))
      × (served (Replay.manager calloc) tic_length skips s (Replay.fresh t.file)
          ≡ ok (success (restore_nodes 0 ns), s', r))
served-replay m calloc tic_length skips s st st' ns fss run grants few plain l faults =
    let n : ℕ = length skips in
    let len : length fss ≡ n = length-session m n st st' (success ns) fss run in
    let (t, r, recorded, replayed) =
      replay-transcribe m calloc n n st st' ns fss run grants few plain (omega (arith, len))
        faults in
    (
      behind tic_length skips fss s,
      t,
      r,
      served-session m tic_length skips s st ∙ rw run,
      served-session (Transcribe.manager m) tic_length skips s (Transcribe.fresh st) ∙ rw recorded,
      served-session (Replay.manager calloc) tic_length skips s (Replay.fresh t.file)
          ∙ rw (replayed, notices-played n 0 fss len, summaries-played n 0 fss len) refl,
    )
