-- ===== src/Recording/Replayed.antt =====
-- A recording is replayed: the same nodes, and the same faults in the same tics.
use lau_sim.Recording.Transcript.{written, session-transcribe}
use lau_sim.Libc.Number.RoundTrip.{strtoull-print_nat}
use lau_sim.Base.{
  ℕ, zero, suc, ◌+◌, ◌^◌, ◌<◌, ◌≡◌, refl, ap, ◌∙◌, List, [], ◌∷◌, ◌++◌, append_assoc, Bytes, length,
  All, u64, arith, Bool, true,
}
use lau_sim.FaultManager.{FaultManager, ok, success, Node, Fault, observe, session}
use lau_sim.Libc.Text.{lines}
use lau_sim.Libc.Number.{digit, print_nat}
use lau_sim.Transcribe.{Transcribe, print_tic, print_faults, print_nodes, print_answer}
use lau_sim.Replay
use lau_sim.Transcribe
use lau_sim.Replay.{tic_loop, finish_nodes, Replay, tic, get_nodes, fresh}
use lau_sim.Recording.Format.{
  IsPlainNode, IsPlainFault, print_tics, restore_nodes, restore_faults, last_id,
}
use lau_sim.Recording.Lines.{IsPrinted, IsName-IsLine, lines-printed, c_str-printed}
use lau_sim.Recording.Nodes.{print_nat-IsLabel, read_nodes-print_nodes}
use lau_sim.Recording.Tics.{tic-IsPrinted, strstr-print_tic, get_tic_num-print_tic}
use lau_sim.Recording.Sections.{before, ended, tic-before-last, tic-before}

-- The faults of `n` tics: those of the recording, with new ids, and then none.
abbrev pub played : ℕ → ℕ → List (List Fault) → List (List Fault)
played zero id fss = []
played (suc n) id [] = [] ∷ played n id []
played (suc n) id (fs ∷ fss) = restore_faults id fs ∷ played n (last_id id fs) fss

module _ (calloc : ℕ → ℕ → Bool) where
  tic-done : (r : Replay) → r.done ≡ true → tic r ≡ ok (record r { faults = [] })
  unfolding tic
  tic-done r d = simp d

  -- Behind the end of the file no tic has a fault.
  observe-done :
      (n id : ℕ) (r : Replay)
      → r.done ≡ true
      → (r' : Replay) × (observe (Replay.manager calloc) n r ≡ ok (played n id [], r'))
  unfolding observe Replay.get_fail
  observe-done zero id r d = (r, refl)
  observe-done (suc n) id r d =
      let (r', e) = observe-done n id (record r { faults = [] }) d in (r', rw (tic-done r d, e))

  observe-before :
      (n k id : ℕ) (ns : List Node) (last fs : List Fault) (fss : List (List Fault))
      → k + suc (length fss) < 2 ^ 64
      → All IsPlainFault fs
      → All (All IsPlainFault) fss
      → (r' : Replay) × (observe (Replay.manager calloc) n (before ns k id last fs fss)
          ≡ ok (played n id (fs ∷ fss), r'))
  unfolding observe Replay.get_fail
  observe-before zero k id ns last fs fss h p ps = (_, refl)
  observe-before (suc n) k id ns last fs [] h p ps =
      let (r', e) =
        observe-done n (last_id id fs) (ended ns k (last_id id fs) (restore_faults id fs)) refl in
      (r', rw (tic-before-last ns k id last fs h p, e))
  observe-before (suc n) k id ns last fs (gs ∷ fss) h p (pg, ps) =
      let (r', e) =
        observe-before n (k + 1) (last_id id fs) ns (restore_faults id fs) gs fss (omega arith) pg
          ps in
      (r', rw (tic-before ns k id last fs gs fss (omega arith) p, e))

  -- The first tic of an empty recording meets the end of the file.
  observe-empty :
      (n : ℕ) (ns : List Node)
      → (r' : Replay) × (observe (Replay.manager calloc) n (record (fresh []) { nodes = ns })
          ≡ ok (played n 0 [], r'))
  unfolding observe Replay.get_fail
  observe-empty zero ns = (_, refl)
  observe-empty (suc n) ns =
      let r : Replay = record (fresh []) { nodes = ns } in
      let r₁ = record r { file = []; tic_num = 1; done = true } in
      let (r', e) = observe-done n 0 r₁ refl in (r', unfold fresh tic tic_loop in rw e)

  header-IsPrinted : (n : ℕ) → IsPrinted (print_nat n ++ b'\n' ∷ [])
  header-IsPrinted n =
      (print_nat n, (λ s. simp append_assoc), IsName-IsLine _ (print_nat-IsLabel n).1)

  -- The variables behind `get_nodes`.
  abbrev opened : List Node → List (List Fault) → Replay
  opened ns [] = record (fresh []) { nodes = ns }
  opened ns (fs ∷ fss) = before ns 0 0 [] fs fss

  observe-opened :
      (n : ℕ) (ns : List Node) (fss : List (List Fault))
      → length fss < 2 ^ 64
      → All (All IsPlainFault) fss
      → (r : Replay) × (observe (Replay.manager calloc) n (opened ns fss) ≡ ok (played n 0 fss, r))
  observe-opened n ns [] h p = observe-empty n ns
  observe-opened n ns (fs ∷ fss) h (pf, p) = observe-before n 0 0 ns [] fs fss (omega arith) pf p

  lines-header :
      (ns : List Node) (s : Bytes)
      → lines (print_answer (success ns) ++ s)
        ≡ (print_nat (length ns) ++ b'\n' ∷ []) ∷ lines (print_nodes ns ++ s)
  unfolding print_answer
  lines-header ns s =
      ap lines (simp append_assoc)
      ∙ lines-printed (print_nat (length ns) ++ b'\n' ∷ []) (print_nodes ns ++ s)
          (header-IsPrinted (length ns))

  -- The line of the first tic, if there is one, is read with the nodes.
  finish-print_tics :
      (ls : List Bytes) (ns : List Node) (fss : List (List Fault))
      → finish_nodes (record (fresh []) { file = ls }) (success ns) (lines (print_tics 0 fss))
        ≡ ok (success ns, opened ns fss)
  unfolding finish_nodes print_tics lines fresh
  finish-print_tics ls ns [] = refl
  finish-print_tics ls ns (fs ∷ fss) = rw (
    lines-printed _ (print_faults fs ++ print_tics (u64 1) fss) (tic-IsPrinted 0),
    c_str-printed _ (tic-IsPrinted 0),
    (strstr-print_tic 0).1,
    get_tic_num-print_tic 0 (omega arith),
  )

  get_nodes-recording :
      (ns : List Node) (fss : List (List Fault))
      → ((n size : ℕ) → calloc n size ≡ true)
      → length ns < 2 ^ 64
      → All IsPlainNode ns
      → get_nodes calloc (fresh (print_answer (success ns) ++ print_tics 0 fss))
        ≡ ok (success (restore_nodes 0 ns), opened (restore_nodes 0 ns) fss)
  unfolding get_nodes fresh
  get_nodes-recording ns fss grants h p =
      rw
        (
          lines-header ns (print_tics 0 fss),
          c_str-printed _ (header-IsPrinted (length ns)),
          strtoull-print_nat (length ns) (b'\n' ∷ []) h (unfold digit in refl),
          grants,
          grants,
          read_nodes-print_nodes calloc 0 ns (print_tics 0 fss) grants p,
        )
        (finish-print_tics [] (restore_nodes 0 ns) fss)

  -- A run over a recording, with any number of tics: the nodes have the recorded names and
  -- components, and each tic the faults that were recorded for it, with the same node, component
  -- and severity; the tics behind the recorded ones have none. The names are plain, there are fewer
  -- than 2^64 nodes and recorded tics, and the allocator grants all requests.
  pub session-recording :
      (n : ℕ) (ns : List Node) (fss : List (List Fault))
      → ((n size : ℕ) → calloc n size ≡ true)
      → length ns < 2 ^ 64
      → All IsPlainNode ns
      → length fss < 2 ^ 64
      → All (All IsPlainFault) fss
      → (r : Replay) × (session
            (Replay.manager calloc)
            n
            (fresh (print_answer (success ns) ++ print_tics 0 fss))
          ≡ ok (success (restore_nodes 0 ns), played n 0 fss, r))
  unfolding session
  session-recording n ns fss grants h p k q =
      let (r, e) = observe-opened n (restore_nodes 0 ns) fss k q in
      (r, rw (get_nodes-recording ns fss grants h p, e))

-- A run of any fault manager that is recorded, and then replayed from the written file: if the run
-- itself is defined, with nodes and faults whose names are plain, then recording does not change it,
-- and the replay has the same nodes and, tic by tic, the same faults. There are fewer than 2^64 nodes
-- and recorded tics, and the allocator grants all requests of the replay.
pub replay-transcribe :
    {S : Type 0} (m : FaultManager S) (calloc : ℕ → ℕ → Bool) (n k : ℕ) (s s' : S) (ns : List Node)
    (fss : List (List Fault))
    → session m n s ≡ ok (success ns, fss, s')
    → ((n size : ℕ) → calloc n size ≡ true)
    → length ns < 2 ^ 64
    → All IsPlainNode ns
    → length fss < 2 ^ 64
    → All (All IsPlainFault) fss
    → (t : Transcribe S) × (r : Replay) × (session (Transcribe.manager m) n (Transcribe.fresh s)
        ≡ ok (success ns, fss, t))
      × (session (Replay.manager calloc) k (fresh t.file)
          ≡ ok (success (restore_nodes 0 ns), played k 0 fss, r))
unfolding Transcribe.fresh
replay-transcribe m calloc n k s s' ns fss run grants h p l q =
    let (r, e) = session-recording calloc k ns fss grants h p l q in
    let t = written m (Transcribe.fresh s) (print_answer (success ns) ++ print_tics 0 fss) n s' in
    (t, r, session-transcribe m n (Transcribe.fresh s) ∙ rw run, e)
