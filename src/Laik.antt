-- ===== src/Laik.antt =====
-- com/laik/laik_intf.c: the agent in an application that uses LAIK. The MQTT client, the unpacking of a
-- message and the topic come from headers that are not in the repository, and are arguments. What is
-- printed is not modelled.
pub mod Messages
pub mod Memory
use lau_sim.Base.{
  ℕ, ◌+◌, List, [], ◌∷◌, ◌++◌, Option, none, some, Bytes, codes, length, if◌then◌else◌, ℤ, pos,
  ◌==ℤ◌,
}
use lau_sim.Libc.Text.{c_str}

-- What the agent calls, over the state `W` of the MQTT client; a message is an `M`.
pub record AgentLibrary (W M : Type 0) : Type 0 where
  pub hostname : Bytes
  pub topic : Bytes
  pub mqtt_init : Bytes → Bytes → ℤ → ℤ → W → ℤ × W
  pub mqtt_subscribe : Bytes → W → W
  pub mqtt_cleanup : W → W
  pub unpack : Bytes → Option M

-- The static variables, behind `init_ext_com`. `client` is `com`; `laik_fp` gets a message or NULL; the callbacks work on the state `X` of the
-- application.
pub record Agent (W M X : Type 0) : Type 0 where
  pub laik_fp : Option M → X → X
  pub laik_cleanup : Option (X → X)
  pub client : W

-- A call returns, or an `assert` ends the process.
pub data Checked (A : Type 0) : Type 0 where
  returned : A → Checked A
  aborted : Checked A

-- A string in the memory that `malloc` was asked for.
pub record Allocation : Type 0 where
  pub size : ℕ
  pub text : Bytes

-- `clientid`: the size is `strlen (hostname) + sizeof ("LAIK_") + 1`.
unfoldable pub client_id : Bytes → Allocation
client_id hostname = record { size = length hostname + 6 + 1; text = codes "LAIKpart_" ++ hostname }

module _ {W M X : Type 0} (lib : AgentLibrary W M) where
  -- `init_ext_com`; `user name` and `password` are not used.
  unfoldable pub init_ext_com :
      Option (Option M → X → X) → Option (X → X) → Bytes → ℤ → ℤ → W → Checked (Agent W M X)
  unfolding client_id c_str
  init_ext_com none cleanup addr port keepalive w = aborted
  init_ext_com (some fp) cleanup addr port keepalive w =
      let (ret, w₁) = lib.mqtt_init (client_id (c_str lib.hostname)).text addr port keepalive w in
      if ret ==ℤ pos 0
      then returned (record {
        laik_fp = fp;
        laik_cleanup = cleanup;
        client = lib.mqtt_subscribe lib.topic w₁;
      })
      else aborted

  -- `msg_cb`, with the message's bytes; a message that cannot be unpacked is passed on as NULL.
  unfoldable pub msg_cb : Bytes → Agent W M X → X → Checked X
  msg_cb [] agent x = aborted
  msg_cb (c ∷ msg) agent x = returned (agent.laik_fp (lib.unpack (c ∷ msg)) x)

  unfoldable pub cleanup_ext_com : Agent W M X → X → X × Agent W M X
  cleanup_ext_com agent x =
      let agent' = record agent { client = lib.mqtt_cleanup agent.client } in
      elim agent.laik_cleanup [ none ↦ (x, agent') | some cleanup ↦ (cleanup x, agent') ]

  -- The messages that come in, one after the other.
  unfoldable pub receive : List Bytes → Agent W M X → X → Checked X
  unfolding msg_cb
  receive [] agent x = returned x
  receive (m ∷ ms) agent x = elim (msg_cb m agent x) [
    | aborted ↦ aborted
    | returned x' ↦ receive ms agent x'
  ]
