-- ===== src/Main/Synced.antt =====
-- The run of srv/main.cpp: the wait for the nodes, the signal to start, and the tics.
use lau_sim.Base.{ℕ, ◌≡◌, Bool, false, List}
use lau_sim.FaultManager.{Node, FaultManager}
use lau_sim.Server.{Server, all_nodes_ready}
use lau_sim.Server.Clock.{Clock}

-- In round `n` the server goes on waiting.
abbrev pub Waits : (ℕ → Bool) → (ℕ → List Node) → ℕ → Type 0
Waits stop nodes n = (stop n ≡ false) × (all_nodes_ready (nodes n) ≡ false)
