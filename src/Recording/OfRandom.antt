-- ===== src/Recording/OfRandom.antt =====
-- A run of the random plugin (plugins/random/random.c), recorded and replayed.
use lau_sim.Base.{ℕ, ◌^◌, ◌<◌, ◌≡◌, List, Bool, true, arith}
use lau_sim.FaultManager.{ok, success, Fault, session}
use lau_sim.Random
use lau_sim.Random.{Random}
use lau_sim.Random.Names.{new_nodes, length-new_nodes, session-random}
use lau_sim.Replay
use lau_sim.Replay.{Replay}
use lau_sim.Transcribe
use lau_sim.Transcribe.{Transcribe}
use lau_sim.Recording.Format.{restore_nodes}
use lau_sim.Recording.Replayed.{played, replay-transcribe}

module _ {G : Type 0} (rand : G → ℕ × G) (calloc : ℕ → ℕ → Bool) (malloc realloc : ℕ → Bool)
    (calloc_grants : (n size : ℕ) → calloc n size ≡ true)
    (malloc_grants : (n : ℕ) → malloc n ≡ true) (realloc_grants : (n : ℕ) → realloc n ≡ true) where
  -- Whatever numbers are drawn, if the allocator grants all requests: the plugin starts with `k`
  -- nodes, 0 < k < 2^31, and a run of `n` < 2^64 tics, recorded by the transcribe plugin, is replayed
  -- from the written file with the same nodes and faults.
  pub replay-random :
      (k n : ℕ) (g : G)
      → 0 < k
      → k < 2 ^ 31
      → n < 2 ^ 64
      → (r : Random G) × (fss : List (List Fault)) × (t : Transcribe (Random G)) × (q : Replay)
        × (Random.init_nodes calloc malloc k g ≡ ok (success r))
        × (session (Transcribe.manager (Random.manager rand calloc realloc)) n (Transcribe.fresh r)
            ≡ ok (success (Random.base_nodes (new_nodes k 0)), fss, t))
        × (session (Replay.manager calloc) n (Replay.fresh t.file)
            ≡ ok (success (restore_nodes 0 (Random.base_nodes (new_nodes k 0))), played n 0 fss, q))
  replay-random k n g h hk hn =
      let (r, e, fss, r', run, p, q, l) =
        session-random rand calloc malloc realloc calloc_grants malloc_grants realloc_grants k n g
          h in
      let (t, u, a, b) =
        replay-transcribe (Random.manager rand calloc realloc) calloc n n r r' _ fss run
          calloc_grants (omega (arith, length-new_nodes k 0)) p (omega arith) q in
      (r, fss, t, u, e, a, b)
