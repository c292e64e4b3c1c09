-- ===== src/Privileged.antt =====
-- client/src/privileged.c: the backend that runs as a process of its own. It only keeps the state of
-- the network so far.
pub mod Start
use lau_sim.Base.{ℕ, ◌&&◌, not, ◌==◌, if◌then◌else◌, pos}
use lau_sim.Backend.{Subsys, net, mem, pwr, Effect, returned, exited, Actor}

-- `switch_net`, over the variable `net_status`; it always returns 0.
unfoldable pub switch_net : ℕ → ℕ → ℕ
switch_net severity net_status =
    if net_status == 0 && not (severity == 0)
    then 1
    else if not (net_status == 0) && severity == 0
    then 0
    else net_status

unfoldable pub cleanup : ℕ → ℕ
unfolding switch_net
cleanup net_status = switch_net 0 net_status

-- `lauSim_set_state`
unfoldable pub set_state : Subsys → ℕ → ℕ → Effect ℕ
unfolding switch_net
set_state net severity s = returned (pos 0) (switch_net severity s)
set_state pwr severity s = exited s
set_state mem severity s = returned (pos 0) s

abbrev pub actor : Actor ℕ
actor = record { set_state = set_state; cleanup = cleanup }
