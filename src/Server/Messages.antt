-- ===== src/Server/Messages.antt =====
-- srv/server.cpp: what the server does with the messages of the nodes. What protobuf reads from a
-- message of proto/backchannel.proto is an argument.
use lau_sim.Base.{ℕ, Bool, List, [], ◌∷◌, ◌++◌, Option, none, some, Bytes, codes, if◌then◌else◌}
use lau_sim.Libc.Text.{c_str}
use lau_sim.Libc.Format.{print_into}
use lau_sim.Filelogger.{LogLevel, ll_info, ll_warning, ll_error}
use lau_sim.FaultManager.{Node}
use lau_sim.Server.{node_state_ready, set_node_state}

pub data MsgType : Type 0 where
  log error status other : MsgType

pub data NodeStatus : Type 0 where
  st_ready st_error st_finished : NodeStatus

-- An optional field is `none` where `has_…` is false.
pub record Backchannel : Type 0 where
  pub node_name : Bytes
  pub type : MsgType
  pub log_err_msg : Option Bytes
  pub new_status : Option NodeStatus

abbrev pub node_state_error : ℕ
node_state_error = 2

abbrev pub node_state_finished : ℕ
node_state_finished = 3

-- The nodes, the calls of the logger, whether `other_cb` is set, and its calls.
pub record Reception : Type 0 where
  pub nodes : List Node
  pub logged : List (LogLevel × Bytes)
  pub other_cb : Bool
  pub forwarded : List Bytes

unfoldable pub log_line : LogLevel → Bytes → Reception → Reception
log_line level str r = record r { logged = r.logged ++ (level, str) ∷ [] }

-- A text that is logged where the message has it.
unfoldable pub log_text : LogLevel → Option Bytes → Reception → Reception
unfolding log_line c_str
log_text level none r = r
log_text level (some str) r = log_line level (c_str str) r

unfoldable pub state_of : NodeStatus → ℕ
state_of st_ready = node_state_ready
state_of st_error = node_state_error
state_of st_finished = node_state_finished

unfoldable pub status_name : NodeStatus → Bytes
status_name st_ready = codes "ready"
status_name st_error = codes "error"
status_name st_finished = codes "finished"

-- The case `STATUS`.
unfoldable pub take_status : Bytes → Option NodeStatus → Reception → Reception
unfolding log_line print_into state_of status_name
take_status name none r = log_line ll_warning (codes "status message did not contain a status") r
take_status name (some st) r =
    let nodes' = (set_node_state name (state_of st) r.nodes).1 in
    log_line ll_info (print_into 126 (b'[' ∷ (name ++ (codes "] new status: " ++ status_name st))))
      (record r { nodes = nodes' })

unfoldable pub take_message : Bytes → Backchannel → Reception → Reception
unfolding log_text take_status c_str
take_message msg back r = elim back.type [
  | log ↦ log_text ll_info back.log_err_msg r
  | error ↦ log_text ll_error back.log_err_msg r
  | status ↦ take_status (c_str back.node_name) back.new_status r
  | other ↦ if r.other_cb then record r { forwarded = r.forwarded ++ msg ∷ [] } else r
]

-- `Server::on_message`, where the server is there.
unfoldable pub on_message : (Bytes → Option Backchannel) → Bytes → Reception → Reception
unfolding take_message log_line
on_message parse msg r = elim (parse msg) [
  | none ↦ log_line ll_warning (codes "unable to decode message on backchannel") r
  | some back ↦ take_message msg back r
]
