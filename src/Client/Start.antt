-- ===== src/Client/Start.antt =====
-- client/src/client.c: the start of a client, up to its loop. What protobuf makes of a message is an
-- argument, and so is whether the fifo can be opened.
use lau_sim.Base.{
  ◌%◌, ◌^◌, Bool, true, false, List, ◌∷◌, Option, none, some, Bytes, if◌then◌else◌, ℤ, pos, negsuc,
  ◌==ℤ◌,
}
use lau_sim.Libc.Number.{strtoull, or_zero}
use lau_sim.Server.Messages.{Backchannel, status, st_ready}
use lau_sim.Mqtt.Start.{ClientLibrary, Connection, init, send_back}

-- The message of `main`.
abbrev pub ready_message : Bytes → Backchannel
ready_message name = record {
  node_name = name;
  type = status;
  log_err_msg = none;
  new_status = some st_ready;
}

module _ {W : Type 0} (mosq : ClientLibrary W) (pack : Backchannel → Bytes) where
  -- The result of `send_back` is not read.
  unfoldable pub report_ready : Bytes → ℤ × Connection W → Option ℤ × Connection W
  unfolding send_back
  report_ready name (ret, c) =
      if ret ==ℤ pos 0
      then (none, (send_back mosq (pack (ready_message name)) c).1)
      else (some (negsuc 1), c)

  -- The exit code, where `main` ends before its loop; the arguments are those behind the program's name.
  unfoldable pub start : Bool → List Bytes → Connection W → Option ℤ × Connection W
  unfolding report_ready init strtoull
  start false args c = (some (pos 1), c)
  start true (name ∷ host ∷ port ∷ _) c =
      report_ready name
        (init mosq name (record { hostname = host; port = or_zero (strtoull port) % 2 ^ 16 }) c)
  start true _ c = (some (negsuc 0), c)
