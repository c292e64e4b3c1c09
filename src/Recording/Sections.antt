-- ===== src/Recording/Sections.antt =====
-- The sections of a recording are replayed, one at each tic.
use lau_sim.Base.{
  u64_lem, ℕ, ◌+◌, ◌^◌, ◌<◌, ◌≤◌, ◌≡◌, refl, ◌∙◌, List, [], ◌∷◌, ◌++◌, append-nil, append_assoc,
  Bytes, All, u64, arith, true, false, lt→ltb, ltb-false,
}
use lau_sim.FaultManager.{ok, Node, Fault}
use lau_sim.Libc.Text.{lines}
use lau_sim.Transcribe.{print_faults}
use native.Mathlib.Nat.{le_refl}
use lau_sim.Replay.{Replay, read_line, tic_loop, tic}
use lau_sim.Recording.Format.{IsPlainFault, print_tics, restore_faults, last_id}
use lau_sim.Recording.Lines.{lines-printed}
use lau_sim.Recording.Tics.{
  tic-IsPrinted, read_line-print_tic, fault-IsPrinted, read_line-print_fault,
}

-- A round of the loop.
tic_loop-step :
    (l : Bytes) (ls : List Bytes) (r r' : Replay)
    → r.nxt_tic < r.tic_num
    → r.done ≡ false
    → read_line l r ≡ ok r'
    → tic_loop (l ∷ ls) r ≡ tic_loop ls r'
unfolding tic_loop
tic_loop-step l ls r r' lt d e = rw (e, lt→ltb _ _ lt, d)

-- The loop ends at the tic that is due later.
tic_loop-stop :
    (ls : List Bytes) (r : Replay)
    → r.tic_num ≤ r.nxt_tic
    → tic_loop ls r ≡ ok (record r { file = ls })
unfolding tic_loop
tic_loop-stop [] r h = rw (ltb-false _ _ h)
tic_loop-stop (l ∷ ls) r h = rw (ltb-false _ _ h)

-- The fault lines of a section, read while the section's tic lies behind.
tic_loop-print_faults :
    (fs : List Fault) (s : Bytes) (r : Replay)
    → All IsPlainFault fs
    → r.nxt_tic < r.tic_num
    → r.done ≡ false
    → tic_loop (lines (print_faults fs ++ s)) r
      ≡ tic_loop
          (lines s)
          (record r { id = last_id r.id fs; faults = r.faults ++ restore_faults r.id fs })
unfolding print_faults
tic_loop-print_faults [] s r h lt d = rw append-nil
tic_loop-print_faults (f ∷ fs) s r (hf, h) lt d =
    rw (append_assoc, lines-printed _ (print_faults fs ++ s) (fault-IsPrinted f hf))
      (tic_loop-step _ _ r _ lt d (read_line-print_fault f r hf)
        ∙ tic_loop-print_faults fs s _ h lt d
        ∙ rw append_assoc)

-- A tic that reads the file.
pub tic-start :
    (r : Replay)
    → r.done ≡ false
    → r.nxt_tic ≤ r.tic_num
    → tic r ≡ tic_loop r.file (record r { faults = []; tic_num = u64 (r.tic_num + 1) })
unfolding tic
tic-start r d h = simp (d, ltb-false _ _ h)

pub tic_loop-end :
    (r : Replay)
    → r.nxt_tic < r.tic_num
    → r.done ≡ false
    → tic_loop [] r ≡ ok (record r { file = []; done = true })
unfolding tic_loop
tic_loop-end r lt d = simp (d, lt→ltb _ _ lt)

module _ (ns : List Node) where
  -- Between two tics: the line of the next section, number `k`, has been read.
  abbrev pub before : (k id : ℕ) → List Fault → List Fault → List (List Fault) → Replay
  before k id last fs fss = record {
    file = lines (print_faults fs ++ print_tics (u64 (k + 1)) fss);
    tic_num = k;
    nxt_tic = k;
    id = id;
    done = false;
    nodes = ns;
    faults = last;
  }

  -- The end of the file has been met in tic `k`.
  abbrev pub ended : (k id : ℕ) → List Fault → Replay
  ended k id last = record {
    file = [];
    tic_num = k + 1;
    nxt_tic = k;
    id = id;
    done = true;
    nodes = ns;
    faults = last;
  }

  pub tic-before-last :
      (k id : ℕ) (last fs : List Fault)
      → k + 1 < 2 ^ 64
      → All IsPlainFault fs
      → tic (before k id last fs []) ≡ ok (ended k (last_id id fs) (restore_faults id fs))
  unfolding print_tics lines
  tic-before-last k id last fs h p =
      tic-start (before k id last fs []) refl (le_refl k)
      ∙ tic_loop-print_faults fs [] _ p (omega arith) refl
      ∙ tic_loop-end _ (omega arith) refl
      ∙ rw (u64_lem (k + 1) h)

  pub tic-before :
      (k id : ℕ) (last fs gs : List Fault) (fss : List (List Fault))
      → k + 1 < 2 ^ 64
      → All IsPlainFault fs
      → tic (before k id last fs (gs ∷ fss))
        ≡ ok (before (k + 1) (last_id id fs) (restore_faults id fs) gs fss)
  unfolding print_tics
  tic-before k id last fs gs fss h p =
      tic-start (before k id last fs (gs ∷ fss)) refl (le_refl k)
      ∙ tic_loop-print_faults fs _ _ p (omega arith) refl
      ∙ rw
          (
            u64_lem (k + 1) h,
            lines-printed _ (print_faults gs ++ print_tics (u64 (k + 1 + 1)) fss)
                (tic-IsPrinted (k + 1)),
          )
          (tic_loop-step _ _ _ _ (omega arith) refl (read_line-print_tic (k + 1) _ h)
            ∙ tic_loop-stop _ _ (le_refl (k + 1)))
