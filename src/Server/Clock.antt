-- ===== src/Server/Clock.antt =====
-- srv/server.cpp: `timestamp` and the clock of the tics. `now i` is the `i`-th reading of the clock, in
-- nanoseconds, and `duration` is `tic_length`; the log and the sleep are not modelled.
pub mod Readings
pub mod Step
pub mod Spans
use lau_sim.Base.{ℕ, zero, suc, ◌+◌, Option, none, some, ltb, ◌==◌, if◌then◌else◌, u32}
use lau_sim.FaultManager.{Run, ok, ◌>>=◌, FaultManager}
use lau_sim.Server
use lau_sim.Server.{Server, manage_fails}

-- `timestamp`, and the number of readings so far.
pub record Clock : Type 0 where
  pub timestamp : ℕ
  pub reads : ℕ

-- The clock before its first reading.
abbrev pub unread : Clock
unread = record { timestamp = 0; reads = 0 }

abbrev pub one_read : Clock → Clock
one_read c = record c { reads = c.reads + 1 }

abbrev pub one_later : ℕ → Clock → Clock
one_later duration c = record c { timestamp = c.timestamp + duration }

module _ (now : ℕ → ℕ) (duration : ℕ) where
  -- The loop of `skip_to_end_of_tic`, from its test on; `none`: the fuel is used up.
  unfoldable pub catch_up : ℕ → ℕ → Clock → Option (ℕ × Clock)
  catch_up zero skip c = none
  catch_up (suc fuel) skip c =
      let rest = catch_up fuel (u32 (skip + 1)) (one_later duration (one_read c)) in
      if ltb c.timestamp (now c.reads) then rest else some (skip, one_read c)

  -- `skip_to_end_of_tic`
  unfoldable pub skip_to_end_of_tic : ℕ → Server → Clock → Option (Server × Clock)
  unfolding catch_up Server.skip_to_end_of_tic
  skip_to_end_of_tic fuel s c =
      if duration == 0
      then some (Server.skip_to_end_of_tic 0 0 s, c)
      else elim (catch_up fuel 0 (one_later duration c)) [
        | none ↦ none
        | some (skip, c') ↦ some (Server.skip_to_end_of_tic duration skip s, c')
      ]

  -- In the first tic `do_tic` reads the clock.
  unfoldable pub start_clock : ℕ → Clock → Clock
  start_clock tic c = if tic == 0 then record (one_read c) { timestamp = now c.reads } else c

  module _ {S : Type 0} (m : FaultManager S) where
    abbrev pub ended : S → Option (Server × Clock) → Run (Option (Server × Clock × S))
    ended st none = ok none
    ended st (some (s, c)) = ok (some (s, c, st))

    -- `do_tic`
    unfoldable pub do_tic : ℕ → Server → Clock → S → Run (Option (Server × Clock × S))
    unfolding manage_fails skip_to_end_of_tic start_clock
    do_tic fuel s c st = do
      st₁ ← m.tic st
      (failed, st₂) ← m.get_fail st₁
      ended st₂ (skip_to_end_of_tic fuel (manage_fails failed s) (start_clock s.tic c))

    -- `n` rounds of the loop of `main` (srv/main.cpp).
    unfoldable pub do_tics : ℕ → ℕ → Server → Clock → S → Run (Option (Server × Clock × S))
    unfolding do_tic
    do_tics fuel zero s c st = ok (some (s, c, st))
    do_tics fuel (suc n) s c st = do
      r ← do_tic fuel s c st
      elim r [ none ↦ ok none | some (s', c', st') ↦ do_tics fuel n s' c' st' ]
