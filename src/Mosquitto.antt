-- ===== src/Mosquitto.antt =====
-- plugins/mosquitto/com_mosquitto.cpp: what `notify_fail` publishes for a fault. The connection and the
-- log are not modelled.
pub mod Plugin
pub mod Runs
use lau_sim.Base.{ℕ, [], ◌∷◌, ◌++◌, Option, none, some, Bool, true, false, Bytes, codes}
use lau_sim.Mqtt.{Message}
use lau_sim.Libc.Number.{print_hex}

-- `topic << "/" << cmp`
unfoldable pub component_topic : Option Bytes → Bytes
component_topic none = []
component_topic (some c) = b'/' ∷ c

-- The message of `notify_fail`, where the connection is initialized; else nothing is published.
unfoldable pub notify_fail : Bool → Bytes → Option Bytes → ℕ → Option Message
unfolding component_topic
notify_fail false target cmp severity = none
notify_fail true target cmp severity = some (record {
  topic = codes "envelope/" ++ (target ++ component_topic cmp);
  payload = codes "0x" ++ print_hex severity;
})
