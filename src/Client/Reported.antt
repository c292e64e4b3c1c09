-- ===== src/Client/Reported.antt =====
-- What a client (client/src/client.c) has done before its loop.
use lau_sim.Base.{
  ◌%◌, ◌^◌, ◌<◌, Bool, true, false, [], length, arith, Option, List, ◌∷◌, ◌++◌, none, some, Bytes,
  codes, ℤ, pos, negsuc, ◌==ℤ◌, ◌≡◌, refl, ◌⊎◌, inl, inr, Bool-cases, if_ind,
}
use lau_sim.Libc.Format.{print_into}
use lau_sim.Libc.Number.{strtoull, or_zero}
use lau_sim.Server.Messages.{Backchannel}
use lau_sim.Mqtt.Start.{
  ClientLibrary, Connection, MqttOpt, init, set_up, connect_node, subscribe_node, send_back, check,
  back_prefix, mosq_err_success,
}
use lau_sim.Client.Start.{ready_message, report_ready, start}

module _ {W : Type 0} (name : Bytes) where
  -- The connection is there, with the topic of the node.
  abbrev IsLinked : Connection W → Type 0
  IsLinked c = (c.con ≡ true) × (c.node_specific_back_topic ≡ back_prefix ++ name)

  abbrev Succeeds : ℤ × Connection W → Type 0
  Succeeds r = (r.0 ==ℤ pos 0) ≡ true → IsLinked r.1

  check-Succeeds :
      (r : ℤ × W) (c : Connection W) (more : Connection W → ℤ × Connection W)
      → IsLinked c
      → ((c' : Connection W) → IsLinked c' → Succeeds (more c'))
      → Succeeds (check r c more)
  unfolding check
  check-Succeeds r c more h f =
      if_ind Succeeds (r.0 ==ℤ mosq_err_success) (f (record c { lib = r.1 }) h) (λ e. cc)

module _ {W : Type 0} (mosq : ClientLibrary W) (pack : Backchannel → Bytes) where
  set_up-Succeeds :
      (name : Bytes) (opt : MqttOpt) (c : Connection W)
      → IsLinked name c
      → Succeeds name (set_up mosq name opt c)
  unfolding set_up connect_node subscribe_node
  set_up-Succeeds name opt c h =
      check-Succeeds name (mosq.will_set (codes "last_will") name c.lib) c
        (connect_node mosq name opt) h
        λ c₁ h₁.
          check-Succeeds name (mosq.connect opt.hostname opt.port c₁.lib) c₁
            (subscribe_node mosq name) h₁
            λ c₂ h₂.
              check-Succeeds name
                (mosq.subscribe (print_into 510 (codes "envelope/" ++ (name ++ codes "/#"))) c₂.lib)
                c₂ (λ c'. (pos 0, c')) h₂ (λ c₃ h₃ e. h₃)

  init-Succeeds :
      (name : Bytes) (opt : MqttOpt) (c : Connection W) → Succeeds name (init mosq name opt c)
  unfolding init
  init-Succeeds name opt c =
      let (made, w) = mosq.new_client name (mosq.lib_init c.lib) in
      let there : Connection W = record {
        con = true;
        node_specific_back_topic = back_prefix ++ name;
        lib = w;
      } in
      elim (Bool-cases made) [
        | inl made_it ↦ rw made_it (set_up-Succeeds name opt there (refl, refl))
        | inr none_there ↦ rw none_there (λ e. cc)
      ]

  -- The last call of the library was the message that the node is ready, under the topic of the node.
  abbrev pub HasReported : Bytes → Connection W → Type 0
  HasReported name c =
      (w : W) × (c.lib ≡ (mosq.publish (back_prefix ++ name) (pack (ready_message name)) true w).1)

  send_back-HasReported :
      (name : Bytes) (c : Connection W)
      → IsLinked name c
      → HasReported name (send_back mosq (pack (ready_message name)) c).1
  unfolding send_back check
  send_back-HasReported name c (con, topic) = (
    c.lib,
    rw (con, topic)
        (if_ind
          (λ (r : ℤ × Connection W).
            r.1.lib ≡ (mosq.publish (back_prefix ++ name) (pack (ready_message name)) true c.lib).1)
          ((mosq.publish (back_prefix ++ name) (pack (ready_message name)) true c.lib).0
            ==ℤ mosq_err_success)
          refl refl),
  )

  report_ready-HasReported :
      (name : Bytes) (r : ℤ × Connection W)
      → Succeeds name r
      → (((report_ready mosq pack name r).0 ≡ none)
          × HasReported name (report_ready mosq pack name r).1)
        ⊎ ((report_ready mosq pack name r).0 ≡ some (negsuc 1))
  unfolding report_ready
  report_ready-HasReported name (ret, c) h = elim (Bool-cases (ret ==ℤ pos 0)) [
    | inl fine ↦ inl (rw (fine, report_ready) (refl, send_back-HasReported name c (h fine)))
    | inr failed ↦ inr (rw (failed, report_ready) refl)
  ]

  -- How the start of a client ends: with 1, where the fifo cannot be opened, or with -1, where the name, the
  -- host or the port is missing, and then nothing is done with the library; with -2; or in the loop.
  abbrev pub Outcome : Bool → List Bytes → Connection W → Option ℤ × Connection W → Type 0
  Outcome opened args c r =
      ((opened ≡ false) × (r ≡ (some (pos 1), c)))
      ⊎ ((opened ≡ true) × (length args < 3) × (r ≡ (some (negsuc 0), c))
          ⊎ ((opened ≡ true)
              × ((name : Bytes) × (more : List Bytes) × (args ≡ name ∷ more)
                  × (((r.0 ≡ none) × HasReported name r.1) ⊎ (r.0 ≡ some (negsuc 1))))))

  -- A client whose fifo cannot be opened ends with 1, and one without a name, a host and a port with -1, both
  -- before any call of the library. Any other ends before its loop with -2, or it enters its loop, and
  -- then the last that it has done is to publish, retained and under the topic of the node, the message
  -- that the node of that name is ready.
  pub start-HasReported :
      (opened : Bool) (args : List Bytes) (c : Connection W)
      → Outcome opened args c (start mosq pack opened args c)
  unfolding start
  start-HasReported false args c = inl (refl, refl)
  start-HasReported true [] c = inr (inl (refl, omega arith, refl))
  start-HasReported true (name ∷ []) c = inr (inl (refl, omega arith, refl))
  start-HasReported true (name ∷ host ∷ []) c = inr (inl (refl, omega arith, refl))
  start-HasReported true (name ∷ host ∷ port ∷ args) c =
      let opt : MqttOpt = record { hostname = host; port = or_zero (strtoull port) % 2 ^ 16 } in
      let reported =
        report_ready-HasReported name (init mosq name opt c) (init-Succeeds name opt c) in
      inr (inr (refl, (name, host ∷ port ∷ args, refl, reported)))
