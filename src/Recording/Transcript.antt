-- ===== src/Recording/Transcript.antt =====
-- The transcribe plugin is transparent, and writes down all that it hands on.
use lau_sim.Base.{ℕ, zero, suc, ◌+◌, ◌≡◌, ◌++◌, append-nil, append_assoc, Bytes, u64}
use lau_sim.FaultManager.{ok, ◌>>=◌, bind_assoc, FaultManager, observe, session}
use lau_sim.Transcribe
use lau_sim.Transcribe.{Transcribe, print_tic, print_faults, print_answer}
use lau_sim.Recording.Format.{print_tics}

-- The counter of the tics after `n` tics more.
abbrev pub advance : ℕ → ℕ → ℕ
advance zero k = k
advance (suc n) k = advance n (u64 (k + 1))

module _ {S : Type 0} (m : FaultManager S) where
  -- The variables behind a run of `n` tics that had these faults.
  abbrev pub written : Transcribe S → Bytes → ℕ → S → Transcribe S
  written t text n s = record { file = t.file ++ text; tic_num = advance n t.tic_num; nested = s }

  observe-transcribe :
      (n : ℕ) (t : Transcribe S)
      → observe (Transcribe.manager m) n t
        ≡ (observe m n t.nested >>= λ r. ok (r.0, written t (print_tics t.tic_num r.0) n r.1))
  unfolding observe Transcribe.tic Transcribe.get_fail print_tics
  observe-transcribe zero t = simp append-nil
  observe-transcribe (suc n) t = simp (bind_assoc, observe-transcribe n, append_assoc)

  -- A session of any length, with any fault manager behind the plugin: the server sees the same
  -- nodes, faults and undefined behaviour as without the plugin, the nested manager ends in the same
  -- state, and the file has grown by the nodes (none if they were refused) and the faults of each
  -- tic under its number.
  pub session-transcribe :
      (n : ℕ) (t : Transcribe S)
      → session (Transcribe.manager m) n t ≡ (
          session m n t.nested >>= λ r.
          ok (r.0, r.1, written t (print_answer r.0 ++ print_tics t.tic_num r.1) n r.2))
  unfolding session Transcribe.get_nodes
  session-transcribe n t = simp (bind_assoc, observe-transcribe n, append_assoc)
