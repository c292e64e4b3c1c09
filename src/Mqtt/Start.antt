-- ===== src/Mqtt/Start.antt =====
-- client/src/mqtt.c: the connection of a client. The mosquitto library is an argument; `malloc` grants
-- the few bytes of the topic. What is printed is not modelled.
use lau_sim.Base.{ℕ, Bool, true, false, ◌++◌, Bytes, codes, if◌then◌else◌, ℤ, pos, negsuc, ◌==ℤ◌}
use lau_sim.Libc.Format.{print_into}

-- What the client calls of the library, whose state is `W`. `new_client` is false where
-- `mosquitto_new` returns NULL; the last argument of `publish` says whether the message is retained.
pub record ClientLibrary (W : Type 0) : Type 0 where
  pub lib_init : W → W
  pub new_client : Bytes → W → Bool × W
  pub will_set : Bytes → Bytes → W → ℤ × W
  pub connect : Bytes → ℕ → W → ℤ × W
  pub subscribe : Bytes → W → ℤ × W
  pub publish : Bytes → Bytes → Bool → W → ℤ × W
  pub disconnect : W → W
  pub lib_cleanup : W → W

-- Whether `con` is set, `node_specific_back_topic`, and the state of the library.
pub record Connection (W : Type 0) : Type 0 where
  pub con : Bool
  pub node_specific_back_topic : Bytes
  pub lib : W

-- `struct mqtt_opt`
pub record MqttOpt : Type 0 where
  pub hostname : Bytes
  pub port : ℕ

abbrev pub back_prefix : Bytes
back_prefix = codes "envelope/master/"

abbrev pub mosq_err_success : ℤ
mosq_err_success = pos 0

-- The macro `check`: -1 where the call fails.
unfoldable pub check :
    {W : Type 0} → ℤ × W → Connection W → (Connection W → ℤ × Connection W) → ℤ × Connection W
check (ret, w) c more =
    if ret ==ℤ mosq_err_success
    then more (record c { lib = w })
    else (negsuc 0, record c { lib = w })

module _ {W : Type 0} (mosq : ClientLibrary W) where
  -- The last steps of `init`, each behind the success of the one before.
  unfoldable pub subscribe_node : Bytes → Connection W → ℤ × Connection W
  unfolding check print_into
  subscribe_node name c =
      check (mosq.subscribe (print_into 510 (codes "envelope/" ++ (name ++ codes "/#"))) c.lib) c
        (λ c'. (pos 0, c'))

  unfoldable pub connect_node : Bytes → MqttOpt → Connection W → ℤ × Connection W
  unfolding subscribe_node
  connect_node name opt c = check (mosq.connect opt.hostname opt.port c.lib) c (subscribe_node name)

  unfoldable pub set_up : Bytes → MqttOpt → Connection W → ℤ × Connection W
  unfolding connect_node
  set_up name opt c = check (mosq.will_set (codes "last_will") name c.lib) c (connect_node name opt)

  unfoldable pub init : Bytes → MqttOpt → Connection W → ℤ × Connection W
  unfolding set_up
  init name opt c =
      let (made, w) = mosq.new_client name (mosq.lib_init c.lib) in
      if made
      then set_up name opt
          (record { con = true; node_specific_back_topic = back_prefix ++ name; lib = w })
      else (pos 1, record c { con = false; lib = w })

  unfoldable pub send_back : Bytes → Connection W → ℤ × Connection W
  unfolding check
  send_back buf c =
      if c.con
      then check (mosq.publish c.node_specific_back_topic buf true c.lib) c (λ c₁. (pos 0, c₁))
      else (negsuc 0, c)

  unfoldable pub cleanup : Connection W → Connection W
  cleanup c = record c { lib = mosq.lib_cleanup (if c.con then mosq.disconnect c.lib else c.lib) }
