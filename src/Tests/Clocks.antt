-- ===== src/Tests/Clocks.antt =====
-- The clock of srv/server.cpp, at a concrete input: a tic of the length 1000, and readings that are 700
-- apart up to a last one.
use lau_sim.Base.{ℕ, ◌+◌, ◌*◌, ltb, if◌then◌else◌}
use lau_sim.Replay
use lau_sim.Server
use lau_sim.Server.Clock
use lau_sim.Server.Clock.{Clock}

abbrev now : ℕ → ℕ
now i = if ltb i 10 then 500 + i * 700 else 7000
