-- ===== src/Tests/Nodes.antt =====
-- The client and the backends of a node: client/src/.
use lau_sim.FaultManager
use lau_sim.Base.{ℕ, ◌*◌, ◌≡◌, refl, [], ◌∷◌, ◌++◌, List, map, none, codes, true, false, arith, pos}
use mathlib.Core.List.{flatten}
use lau_sim.Libc.Text.{lines, str_eq, tokens, c_str}
use lau_sim.Libc.Number.{strtoull}
use lau_sim.Backend
use lau_sim.Backend.{net, mem, pwr, Event, line, nothing, close_request}
use lau_sim.Backend.Finish.{IsCleaned, main-IsCleaned}
use lau_sim.Client
use lau_sim.Client.{ClientFault}
use lau_sim.Preload
use lau_sim.Preload.{Preload, initial, find_sock}
use lau_sim.Preload.View.{Call, opened, accepted, closed, network}
use lau_sim.Preload.Memory.{HasRoom, add_sock_to_list-not-HasRoom}
use lau_sim.Privileged
use lau_sim.Mqtt.{Message, Mqtt}
use lau_sim.Delivery.Fifo.{Command, fault_of, carry_out, main-main}

abbrev start : ClientFault
start = record { component = none; severity = 1 }

-- The network fails and comes back, and then the power is gone.
abbrev commands : List Command
commands = (net, 3) ∷ (mem, 10) ∷ (net, 0) ∷ []

abbrev batches : List (List Command)
batches = [] ∷ ((pwr, 1) ∷ (net, 1) ∷ []) ∷ []

main-main_example :
    Backend.main Preload.actor
      (map line (
        lines (
          Backend.init
            (Client.main ((start ∷ map fault_of commands) ∷ map (map fault_of) batches)))))
      initial
    ≡ carry_out Preload.actor (commands ++ flatten batches) initial
unfolding flatten
main-main_example =
    main-main Preload.actor start commands batches initial
      (omega arith, (omega arith, (omega arith, (omega arith, (omega arith, tt)))))

abbrev message : Message
message = record { topic = codes "envelope/node7/net"; payload = codes "0x10" }

abbrev silent : Mqtt
silent = record { faults = start ∷ []; faults_size = 1; rcv = false }

-- Blocks that hold what the code writes, and blocks of the requested size.
abbrev roomy : ℕ → ℕ
roomy n = 16 * n

abbrev tight : ℕ → ℕ
tight n = n

-- A listening socket, one that it accepts, one of another family, a close, and a fault.
abbrev calls : List Call
calls =
    opened (pos 2) (pos 3)
    ∷ accepted (pos 3) (pos 4)
    ∷ opened (pos 1) (pos 5)
    ∷ closed (pos 3)
    ∷ network 1
    ∷ []

abbrev afterwards : Preload
afterwards = record initial { net_state = 1; fds_freed = true; fds_size = 2; shut = pos 4 ∷ [] }

abbrev events : List Event
events = line (codes "net 1\n") ∷ nothing ∷ line (codes "memory 5\n") ∷ close_request ∷ []

add_sock_to_list-not-HasRoom_example : ¬ HasRoom (Preload.add_sock_to_list roomy (pos 3) initial).1
add_sock_to_list-not-HasRoom_example = add_sock_to_list-not-HasRoom roomy (pos 3) initial refl

ends_up : Backend.main Preload.actor events initial ≡ Backend.finished initial
unfolding Backend.main Backend.read_request tokens c_str str_eq Backend.select_subsys
    Preload.set_state Preload.cleanup strtoull
ends_up = refl

main-IsCleaned_example : IsCleaned Privileged.actor (Backend.main Privileged.actor events 0)
main-IsCleaned_example = main-IsCleaned Privileged.actor events 0
