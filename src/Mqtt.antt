-- ===== src/Mqtt.antt =====
-- client/src/mqtt.c: the faults that reach a client by MQTT. The mosquitto library is not modelled: what
-- one call of `mosquitto_loop` delivers to `on_message`, or its failure, is an argument.
pub mod Start
use lau_sim.Base.{
  ℕ, ◌+◌, ◌*◌, leb, Bool, true, false, List, [], ◌∷◌, ◌++◌, Option, none, some, Bytes, codes,
  length, u32, if◌then◌else◌,
}
use lau_sim.Libc.Text.{c_str, tokens}
use lau_sim.Libc.Number.{strtoull, or_zero}
use lau_sim.Client.{ClientFault}
use lau_sim.FaultManager.{Run, ok, undefined, ◌>>=◌}

-- `struct mosquitto_message`, as far as it is read; the payload is read as a C string.
pub record Message : Type 0 where
  pub topic : Bytes
  pub payload : Bytes

-- The mutex is held over each change. `faults` are those received since the last `get_faults`; its
-- length is `fault_num`, and `faults_size` the number of bytes of the last `realloc`.
pub record Mqtt : Type 0 where
  pub faults : List ClientFault
  pub faults_size : ℕ
  pub rcv : Bool

-- The third part of the topic.
unfoldable pub third : List Bytes → Option Bytes
third (_ ∷ _ ∷ c ∷ _) = some c
third _ = none

unfoldable pub read_fault : Message → ClientFault
unfolding third
read_fault m = record {
  component = third (tokens (codes "/") (c_str m.topic));
  severity = u32 (or_zero (strtoull (c_str m.payload)));
}

-- What `get_faults` hands out: a batch; nothing and NULL, if there is no connection or the loop has failed; or it still waits
-- for the library.
pub data Batch : Type 0 where
  batch : List ClientFault → Batch
  failed : Batch
  waiting : Batch

-- The size of a `fault`: a pointer and an `unsigned`.
abbrev pub sizeof_fault : ℕ
sizeof_fault = 16

-- `room n` is how many bytes may be written to the block that the allocator returns for a request of `n`.
module _ (room : ℕ → ℕ) where
  -- The vector grows by `realloc (faults, ++fault_num)`, and the new fault is written to its end.
  unfoldable pub on_message : Message → Mqtt → Run Mqtt
  unfolding read_fault
  on_message m s =
      let fault_num = length s.faults + 1 in
      if leb (sizeof_fault * fault_num) (room fault_num)
      then ok
          (record { faults = s.faults ++ read_fault m ∷ []; faults_size = fault_num; rcv = true })
      else undefined

  -- The messages of one call of `mosquitto_loop`.
  unfoldable pub deliver : List Message → Mqtt → Run Mqtt
  unfolding on_message
  deliver [] s = ok s
  deliver (m ∷ ms) s = do s' ← on_message m s; deliver ms s'

  -- `do … while (rcv)` over what the calls deliver; `none` is a call that fails. The result has the calls
  -- that are left.
  unfoldable pub receive_faults :
      List (Option (List Message)) → Mqtt → Run (Batch × List (Option (List Message)) × Mqtt)
  unfolding deliver
  receive_faults [] s = ok (waiting, [], s)
  receive_faults (none ∷ cs) s = ok (failed, cs, record s { rcv = false })
  receive_faults (some ms ∷ cs) s = do
    s' ← deliver ms (record s { rcv = false })
    elim s'.rcv [
      | true ↦ receive_faults cs s'
      | false ↦ ok (batch s'.faults, cs, record s' { faults = [] })
    ]

  -- `con` says whether `con` is set.
  unfoldable pub get_faults :
      Bool → List (Option (List Message)) → Mqtt → Run (Batch × List (Option (List Message)) × Mqtt)
  unfolding receive_faults
  get_faults con cs s = if con then receive_faults cs s else ok (failed, cs, s)
