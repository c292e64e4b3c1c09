-- ===== src/Delivery/Nodes.antt =====
-- The whole way of a fault: from the server (srv/server.cpp) by the MQTT plugin to the client, and from
-- there through the fifo to the backend.
use lau_sim.Base.{◌^◌, ◌<◌, List, Option, Bytes, true}
use lau_sim.Mosquitto.{notify_fail}
use lau_sim.Mqtt.{Message}
use lau_sim.Server.{Notice}
use lau_sim.Client
use lau_sim.Backend
use lau_sim.Backend.{Subsys}
use lau_sim.Delivery.Fifo.{Command, fault_of}

-- What the server's plugin publishes for a call of the server.
abbrev pub publish : Notice → Option Message
publish n = notify_fail true n.target n.component n.severity

-- The call for a command to a node.
abbrev pub notice_of : Bytes → Command → Notice
notice_of name c = record { target = name; component = (fault_of c).component; severity = c.1 }

-- The severities that the fifo carries.
abbrev pub IsSmall : Command → Type 0
IsSmall c = c.1 < 2 ^ 31
