-- ===== src/Mosquitto/Runs.antt =====
-- The life of the MQTT plugin of the server: plugins/mosquitto/com_mosquitto.cpp.
use lau_sim.Base.{
  ℕ, ◌≡◌, ◌≢◌, refl, ap, ◌∙◌, ◌⊎◌, inl, inr, Bool, true, false, List, [], ◌∷◌, map, none, some,
  Bytes, codes, ◌==◌, Bool-cases, ℤ, pos, negsuc, arith, if_ind, int32, pos-suc-ne,
}
use lau_sim.Mqtt.{Message}
use lau_sim.FaultManager.{ok, PluginManagerInterface, pl_intf_version}
use lau_sim.Server.{Notice}
use lau_sim.Com.Dispatch.{notified}
use lau_sim.Mosquitto.{notify_fail}
use lau_sim.Mosquitto.Plugin.{
  Library, ComMosquitto, Started, init_mosquitto, listen, connect_instance, publish_message,
  send_fail, com_interface, created, connect_args, register_mosquitto, init, succeeds,
}

succeeds_eq : (z : ℤ) → succeeds z ≡ true → z ≡ pos 0
succeeds_eq (pos n) h = let e : n ≡ 0 = ground arith in ap pos e
succeeds_eq (negsuc n) h = cc

succeeds_ne : (z : ℤ) → succeeds z ≡ false → z ≢ pos 0
succeeds_ne z h e = cc (ap succeeds e)

-- An instance that is connected under the id, where the library is there.
abbrev IsConnected : {W C : Type 0} → Bool → Bytes → ℤ × ComMosquitto W C → Type 0
IsConnected init_state id (ret, s) =
    succeeds ret ≡ true → (s.is_init ≡ true) × (s.id ≡ id) × (init_state ≡ true)

module _ {W C : Type 0} (mosq : Library W) where
  connect_instance-IsConnected :
      (init_state : Bool) (address : Bytes) (port : ℤ) (keep_alive : ℕ) (s : ComMosquitto W C)
      → IsConnected init_state s.id (connect_instance mosq init_state address port keep_alive s)
  unfolding connect_instance listen
  connect_instance-IsConnected false address port keep_alive s = elim (Bool-cases s.is_init) [
    | inl old ↦ rw old (λ h. cc)
    | inr new ↦ rw new (λ h. cc)
  ]
  connect_instance-IsConnected true address port keep_alive s = elim (Bool-cases s.is_init) [
    | inl old ↦ rw old (λ h. cc)
    | inr new ↦ rw new (
        if_ind (IsConnected true s.id)
          (succeeds (mosq.connect address port (int32 keep_alive) s.lib).0)
          (λ h. (refl, refl, refl)) (λ h. cc))
  ]

  connect_args-IsConnected :
      (init_state : Bool) (args : List Bytes) (s : ComMosquitto W C)
      → IsConnected init_state s.id (connect_args mosq init_state args s)
  unfolding connect_args
  connect_args-IsConnected init_state [] s = connect_instance-IsConnected init_state _ _ _ s
  connect_args-IsConnected init_state (a ∷ []) s = connect_instance-IsConnected init_state _ _ _ s
  connect_args-IsConnected init_state (a ∷ p ∷ []) s =
      connect_instance-IsConnected init_state _ _ _ s
  connect_args-IsConnected init_state (a ∷ p ∷ k ∷ r) s =
      connect_instance-IsConnected init_state _ _ _ s

module _ {M : Type 0} (inter : PluginManagerInterface M) where
  abbrev pub registration : M → ℤ × M
  registration m = inter.register_plugin (codes "mosquitto") m

  -- The plugin is connected under its id, and registered.
  abbrev pub IsStarted : {W C : Type 0} → Bytes → M → ℤ × Started W C M → Type 0
  IsStarted {W = W} {C = C} id m (ret, st) =
      (ret ≡ pos 0)
      × (st.init_state ≡ true)
      × ((s : ComMosquitto W C) × (st.instance ≡ some s) × (s.is_init ≡ true) × (s.id ≡ id))
      × (registration m ≡ (pos 0, st.manager))

  -- The start failed: before the registration, or in it.
  abbrev pub IsRefused : {W C : Type 0} → M → ℤ × Started W C M → Type 0
  IsRefused m (ret, st) =
      (ret ≢ pos 0)
      × ((st.manager ≡ m) ⊎ ((registration m).0 ≢ pos 0) × (st.manager ≡ (registration m).1))

  module _ {W C : Type 0} (mosq : Library W) where
    register_mosquitto-IsStarted :
        (init_state : Bool) (id : Bytes) (s : ComMosquitto W C) (m : M)
        → (s.is_init ≡ true) × (s.id ≡ id) × (init_state ≡ true)
        → IsStarted id m (register_mosquitto mosq inter init_state s m)
          ⊎ IsRefused m (register_mosquitto mosq inter init_state s m)
    unfolding register_mosquitto
    register_mosquitto-IsStarted init_state id s m (i, e, l) =
        elim (Bool-cases (succeeds (registration m).0)) [
          | inl new ↦ inl (
              rw new (
                refl,
                l,
                (s, refl, i, e),
                ap (λ z. (z, (registration m).1)) (succeeds_eq (registration m).0 new),
              ))
          | inr known ↦
              inr (rw known (pos-suc-ne 0, inr (succeeds_ne (registration m).0 known, refl)))
        ]

    -- With an id, the start of the plugin is defined, and has one of two ends, whatever the mosquitto
    -- library and the manager do: it returns 0, the library is initialized, the instance is connected
    -- under the id, and the registration of the plugin was accepted; or it returns an error, and the
    -- manager has not been called, or has refused the registration.
    pub init-IsStarted :
        (id : Bytes) (args : List Bytes) (w : W) (m : M)
        → (r : ℤ × Started W C M) × (init mosq inter (id ∷ args) w m ≡ ok r)
          × (IsStarted id m r ⊎ IsRefused m r)
    unfolding init
    init-IsStarted id args w m = elim (Bool-cases (inter.version == pl_intf_version)) [
      | inr other ↦ (
        (pos 1, record { init_state = false; instance = none; lib = w; manager = m }),
        rw other refl,
        inr (pos-suc-ne 0, inl refl),
      )
      | inl same ↦
          let (ret, init_state, w₁) = init_mosquitto mosq (false, w) in
          let (sc, s) = connect_args mosq init_state args (created mosq id w₁) in
          let fine = connect_args-IsConnected mosq init_state args (created mosq id w₁) in
          elim (Bool-cases (succeeds sc)) [
            | inl connected ↦ (
              register_mosquitto mosq inter init_state s m,
              rw (same, connected) refl,
              register_mosquitto-IsStarted init_state id s m (fine connected),
            )
            | inr refused ↦ (
              (sc, record { init_state = init_state; instance = some s; lib = s.lib; manager = m }),
              rw (same, refused) refl,
              inr (succeeds_ne sc refused, inl refl),
            )
          ]
    ]

-- The library behind messages that are published one after the other.
unfoldable pub carry : {W : Type 0} → Library W → List Message → W → W
carry mosq [] w = w
carry mosq (m ∷ ms) w = carry mosq ms (mosq.publish m.topic m.payload w).1

-- A plugin that is connected publishes the messages of the server's calls, each once in their order,
-- whatever the library answers.
pub notified-carry :
    {W C : Type 0} (mosq : Library W) (ns : List Notice) (ms : List Message) (s : ComMosquitto W C)
    → s.is_init ≡ true
    → map (λ (n : Notice). notify_fail true n.target n.component n.severity) ns ≡ map some ms
    → notified (com_interface mosq) ns s ≡ record s { lib = carry mosq ms s.lib }
unfolding notified carry send_fail publish_message
notified-carry mosq [] [] s h e = refl
notified-carry mosq [] (m ∷ ms) s h e = cc
notified-carry mosq (n ∷ ns) [] s h e = cc
notified-carry mosq (n ∷ ns) (m ∷ ms) s h e =
    let head : notify_fail true n.target n.component n.severity ≡ some m = cc in
    let next = record s { lib = (mosq.publish m.topic m.payload s.lib).1 } in
    ap (λ o. notified (com_interface mosq) ns (publish_message mosq o s).1)
      (ap (λ b. notify_fail b n.target n.component n.severity) h ∙ head)
    ∙ notified-carry mosq ns ms next h cc
