-- ===== src/Mosquitto/Plugin.antt =====
-- plugins/mosquitto/com_mosquitto.h and plugins/mosquitto/com_mosquitto.cpp: the MQTT connection of the
-- server. The mosquitto library is an argument. The log is not modelled, but for the pointer to it.
use lau_sim.Base.{
  ℕ, Bool, true, false, not, ◌||◌, List, [], ◌∷◌, Option, none, some, Bytes, codes, ◌==◌,
  if◌then◌else◌, ℤ, pos, negsuc, int32, u32, bit_or,
}
use lau_sim.Libc.Number.{strtoull, or_zero}
use lau_sim.Mqtt.{Message}
use lau_sim.FaultManager.{Run, ok, undefined, PluginManagerInterface, pl_intf_version}
use lau_sim.PluginManager.{pl_com_actor, pl_com_extern}
use lau_sim.Com.{Com, com_async}
use lau_sim.Mosquitto.{notify_fail}

-- What the plugin calls of the mosquitto library, whose state is `W`; 0 is success.
pub record Library (W : Type 0) : Type 0 where
  pub lib_init : W → ℤ × W
  pub lib_cleanup : W → ℤ × W
  pub connect : Bytes → ℤ → ℤ → W → ℤ × W
  pub subscribe : Bytes → W → ℤ × W
  pub will_set : Bytes → Bytes → W → W
  pub publish : Bytes → Bytes → W → ℤ × W
  pub disconnect : W → W
  pub loop_start : W → W
  pub loop_stop : W → W

-- `ComMosquitto`, with the library that it is connected by; a callback is a `C`.
pub record ComMosquitto (W C : Type 0) : Type 0 where
  pub id : Bytes
  pub is_init : Bool
  pub lausim_callback : Option C
  pub lib : W

-- The result of `init` of the plugin: `init_state`, `instance`, and the manager of the plugins.
pub record Started (W C M : Type 0) : Type 0 where
  pub init_state : Bool
  pub instance : Option (ComMosquitto W C)
  pub lib : W
  pub manager : M

abbrev pub back_topic : Bytes
back_topic = codes "envelope/master/#"

abbrev pub last_will_topic : Bytes
last_will_topic = codes "last_will"

-- `mosquitto_plugin`, but for its functions.
abbrev pub mosquitto_type : ℕ
mosquitto_type = bit_or pl_com_actor pl_com_extern

abbrev pub succeeds : ℤ → Bool
succeeds (pos n) = n == 0
succeeds (negsuc n) = false

module _ {W : Type 0} (mosq : Library W) where
  unfoldable pub init_mosquitto : Bool × W → ℤ × Bool × W
  init_mosquitto (true, w) = (pos 0, true, w)
  init_mosquitto (false, w) = let (ret, w') = mosq.lib_init w in (ret, succeeds ret, w')

  unfoldable pub cleanup_mosquitto : Bool × W → ℤ × Bool × W
  cleanup_mosquitto (true, w) = let (ret, w') = mosq.lib_cleanup w in (ret, true, w')
  cleanup_mosquitto (false, w) = (pos 0, false, w)

  module _ {C : Type 0} where
    -- Behind the connection: a subscription that fails is only logged.
    unfoldable pub listen : ComMosquitto W C → ComMosquitto W C
    listen s =
        let (ret, w) = mosq.subscribe back_topic s.lib in
        record s { is_init = true; lib = mosq.will_set last_will_topic s.id w }

    -- `ComMosquitto::init`
    unfoldable pub connect_instance : Bool → Bytes → ℤ → ℕ → ComMosquitto W C → ℤ × ComMosquitto W C
    unfolding listen
    connect_instance init_state address port keep_alive s =
        if s.is_init || not init_state
        then (negsuc 0, s)
        else (let (msqerr, w) = mosq.connect address port (int32 keep_alive) s.lib in
            if succeeds msqerr
            then (pos 0, listen (record s { lib = w }))
            else (negsuc 0, record s { lib = w }))

    -- What `publish` says of a message that is there.
    unfoldable pub publish_message : Option Message → ComMosquitto W C → ℤ × ComMosquitto W C
    publish_message none s = (pos 0, s)
    publish_message (some m) s =
        let (msqerr, w) = mosq.publish m.topic m.payload s.lib in
        (if succeeds msqerr then pos 0 else negsuc 0, record s { lib = w })

    -- `ComMosquitto::notify_fail`
    unfoldable pub send_fail : Bytes → Option Bytes → ℕ → ComMosquitto W C → ℤ × ComMosquitto W C
    unfolding notify_fail publish_message
    send_fail target cmp severity s = publish_message (notify_fail s.is_init target cmp severity) s

    -- `ComMosquitto::notify_extern`
    unfoldable pub send_extern : Bytes → ComMosquitto W C → ℤ × ComMosquitto W C
    send_extern msg s =
        if s.is_init
        then (pos 0, record s { lib = (mosq.publish (codes "envelope/lausim") msg s.lib).1 })
        else (pos 1, s)

    unfoldable pub set_callback : Option C → ComMosquitto W C → Option C × ComMosquitto W C
    set_callback cb s = (s.lausim_callback, record s { lausim_callback = cb })

    -- `com_interface`
    abbrev pub com_interface : Com (ComMosquitto W C) C
    com_interface = record {
      capabilities = com_async;
      notify_fail = send_fail;
      notify_extern = send_extern;
      set_callback = some set_callback;
    }

    -- `ComMosquitto::cleanup`
    unfoldable pub disconnect_instance : ComMosquitto W C → ComMosquitto W C
    disconnect_instance s =
        if s.is_init then record s { lib = mosq.loop_stop (mosq.disconnect s.lib) } else s

    abbrev pub created : Bytes → W → ComMosquitto W C
    created id w = record { id = id; is_init = false; lausim_callback = none; lib = w }

    -- The `switch` of the plugin's `init` over the arguments behind the id, with the default arguments.
    unfoldable pub connect_args : Bool → List Bytes → ComMosquitto W C → ℤ × ComMosquitto W C
    unfolding connect_instance strtoull
    connect_args init_state [] s = connect_instance init_state (codes "localhost") (pos 1883) 60 s
    connect_args init_state (address ∷ []) s = connect_instance init_state address (pos 1883) 60 s
    connect_args init_state (address ∷ port ∷ []) s =
        connect_instance init_state address (int32 (or_zero (strtoull port))) 60 s
    connect_args init_state (address ∷ port ∷ keep_alive ∷ _) s =
        connect_instance init_state address (int32 (or_zero (strtoull port)))
          (u32 (or_zero (strtoull keep_alive))) s

    module _ {M : Type 0} (inter : PluginManagerInterface M) where
      -- Behind a connection.
      unfoldable pub register_mosquitto : Bool → ComMosquitto W C → M → ℤ × Started W C M
      unfolding cleanup_mosquitto
      register_mosquitto init_state s m =
          let (ret, m') = inter.register_plugin (codes "mosquitto") m in
          if succeeds ret
          then (
            pos 0,
            record { init_state = init_state; instance = some s; lib = s.lib; manager = m' },
          )
          else (let (ret', state, w) = cleanup_mosquitto (init_state, s.lib) in
              (
                pos 1,
                record {
                  init_state = state;
                  instance = some (record s { lib = w });
                  lib = w;
                  manager = m';
                },
              ))

      -- `init` of the plugin, which has not run before: without arguments it logs through NULL.
      unfoldable pub init : List Bytes → W → M → Run (ℤ × Started W C M)
      unfolding init_mosquitto connect_args register_mosquitto
      init [] w m = undefined
      init (id ∷ args) w m =
          if not (inter.version == pl_intf_version)
          then ok (pos 1, record { init_state = false; instance = none; lib = w; manager = m })
          else (let (ret, init_state, w₁) = init_mosquitto (false, w) in
              let (sc, s) = connect_args init_state args (created id w₁) in
              if succeeds sc
              then ok (register_mosquitto init_state s m)
              else ok (
                sc,
                record { init_state = init_state; instance = some s; lib = s.lib; manager = m },
              ))

    unfoldable pub post_init : ComMosquitto W C → ComMosquitto W C
    post_init s = record s { lib = mosq.loop_start s.lib }

    -- `cleanup` of the plugin; the instance is deleted.
    unfoldable pub cleanup : Bool → ComMosquitto W C → Bool × W
    unfolding cleanup_mosquitto disconnect_instance
    cleanup init_state s =
        let (ret, state, w) = cleanup_mosquitto (init_state, (disconnect_instance s).lib) in
        (state, w)

-- A message that comes in goes to the callback; a callback works on an `X`.
unfoldable pub on_message : {W X : Type 0} → Bytes → ComMosquitto W (Bytes → X → X) → X → X
on_message [] s x = x
on_message (c ∷ payload) s x = elim s.lausim_callback [
  | none ↦ x
  | some callback ↦ callback (c ∷ payload) x
]
