-- ===== src/Tests/Links.antt =====
-- The communication plugins and the loops of the server, at concrete inputs: plugins/echo/echo.c,
-- plugins/mosquitto/com_mosquitto.cpp, srv/main.cpp and srv/server.cpp; and client/launcher/launcher.c.
use mathlib.Core.List.{flatten}
use lau_sim.Base.{
  ℕ, ◌+◌, ◌≡◌, refl, ◌⊎◌, Bool, true, false, List, [], ◌∷◌, ◌++◌, map, Option, none, some, Bytes,
  codes, ◌==◌, if◌then◌else◌, ℤ, pos,
}
use lau_sim.FaultManager.{ok, undefined, failure, PluginManagerInterface}
use lau_sim.Filelogger.Messages.{perform}
use lau_sim.StdoutLog.{standard_log}
use lau_sim.StdoutLog.Same.{calls, on_cerr, calls-perform}
use lau_sim.Mqtt.{Message}
use lau_sim.Server.{Notice, ExternMessage}
use lau_sim.Server.Messages.{Backchannel, status, st_ready, Reception, on_message}
use lau_sim.Server.Start
use lau_sim.Server.Start.{Hooks, connect}
use lau_sim.Server.Hooks.{HooksRun, HookFails, init-HooksRun}
use lau_sim.Com.{Com, notify_plugins}
use lau_sim.Com.Dispatch.{notified, told, notify_plugins-notified}
use lau_sim.Server.Tics.{recovered, failed}
use lau_sim.Mosquitto.Plugin
use lau_sim.Mosquitto.Plugin.{Library, ComMosquitto, Started, com_interface}
use lau_sim.Mosquitto.Runs.{IsStarted, IsRefused, init-IsStarted}
use lau_sim.Launcher.{LauOpts, default_options, set_options, mth_preload}
use lau_sim.Launcher.Supervision.{
  ChildStatus, Target, runner, ends, fails, failing, signalled, supervise, IsJust,
  supervise-stopped,
}
use lau_sim.Launcher.Last.{IsLast, set_options-IsLast}
use lau_sim.PluginManager.{Entry}
use lau_sim.Config.{unset}
use lau_sim.Tests.Data.{nodes, faults}
use lau_sim.Tests.Loggers
use lau_sim.Tests.Loggers.{opened}

calls-perform_example :
    calls standard_log Loggers.calls (on_cerr opened) ≡ on_cerr (perform Loggers.calls opened)
calls-perform_example = calls-perform Loggers.calls opened

-- A library that is connected, and keeps what is published.
abbrev pub mosq : Library (List Message)
mosq = record {
  lib_init = λ w. (pos 0, w);
  lib_cleanup = λ w. (pos 0, w);
  connect = λ address port keep_alive w. (pos 0, w);
  subscribe = λ topic w. (pos 0, w);
  will_set = λ topic id w. w;
  publish = λ topic payload w. (pos 0, w ++ record { topic = topic; payload = payload } ∷ []);
  disconnect = λ w. w;
  loop_start = λ w. w;
  loop_stop = λ w. w;
}

abbrev counter : PluginManagerInterface ℕ
counter = record { version = 7; register_plugin = λ name m. (pos 0, m + 1) }

init-IsStarted_example :
    (r : ℤ × Started (List Message) Bytes ℕ) × (Plugin.init mosq counter
        (codes "lausim" ∷ codes "broker" ∷ codes "1884" ∷ [])
        []
        0
      ≡ ok r)
    × (IsStarted counter (codes "lausim") 0 r ⊎ IsRefused counter 0 r)
init-IsStarted_example =
    init-IsStarted counter mosq (codes "lausim") (codes "broker" ∷ codes "1884" ∷ []) [] 0

abbrev link : ComMosquitto (List Message) Bytes
link = record { id = codes "lausim"; is_init = true; lausim_callback = none; lib = [] }

abbrev notices : List Notice
notices =
    record { target = codes "alpha"; component = some (codes "net"); severity = 16 }
    ∷ record { target = codes "beta"; component = none; severity = 0 }
    ∷ []

abbrev messages : List Message
messages =
    record { topic = codes "envelope/alpha/net"; payload = codes "0x10" }
    ∷ record { topic = codes "envelope/beta"; payload = codes "0x0" }
    ∷ []

abbrev serialize : ExternMessage → Bytes
serialize msg = flatten msg.failing_nodes

-- A plugin for the actors and the application that keeps what it is told.
abbrev both : Com (List Bytes) Bytes
both = record {
  capabilities = 0;
  notify_fail = λ node component severity told. (pos 0, told ++ node ∷ []);
  notify_extern = λ msg told. (pos 0, told ++ msg ∷ []);
  set_callback = none;
}

notify_plugins-notified_example :
    notify_plugins both both serialize (flatten faults) []
    ≡ (both.notify_extern
        (serialize (record {
          spare_nodes = recovered (flatten faults);
          failing_nodes = failed (flatten faults);
        }))
        (notified both (map told (flatten faults)) [])).1
unfolding flatten
notify_plugins-notified_example =
    notify_plugins-notified both both serialize (flatten faults) [] (λ e. cc)

-- A message that is the name of a node is its report that it is ready.
abbrev report : Bytes → Backchannel
report name = record {
  node_name = name;
  type = status;
  log_err_msg = none;
  new_status = some st_ready;
}

abbrev pub parse : Bytes → Option Backchannel
parse [] = none
parse (c ∷ name) = some (report (c ∷ name))

abbrev pub listening : ComMosquitto (List Message) (Bytes → Reception → Reception)
listening = record {
  id = codes "lausim";
  is_init = true;
  lausim_callback = some (on_message parse);
  lib = [];
}

abbrev payloads : List Bytes
payloads = codes "beta" ∷ codes "gamma" ∷ codes "alpha" ∷ []

abbrev pub waiting : Reception
waiting = record { nodes = nodes; logged = []; other_cb = false; forwarded = [] }

-- Plugins whose hooks count.
abbrev hooks : Hooks ℕ Bytes
hooks = record {
  post_init = λ p.
      if p.address == 2 then none else some (λ x. (if p.address == 3 then pos 1 else pos 0, x + 1));
  c = λ p. record {
    capabilities = 0;
    notify_fail = λ node component severity x. (pos 0, x);
    notify_extern = λ msg x. (pos 0, x);
    set_callback = none;
  };
  fm = λ p. record {
    get_nodes = λ x. ok (failure (pos 1), x);
    tic = λ x. ok x;
    get_fail = λ x. ok ([], x);
    inject_fail = λ f x. ok (pos 0, x);
  };
}

abbrev entry : ℕ → Entry
entry a = record {
  role = 0;
  pl = record { address = a; version = 1; pl_type = 3; name = codes "plugin" };
}

abbrev entries : List Entry
entries = entry 1 ∷ entry 2 ∷ entry 3 ∷ entry 4 ∷ []

init-HooksRun_example :
    ((x₁ : ℕ) × HooksRun hooks entries 0 x₁
      × (Start.init hooks (codes "callback") entries unset 0
          ≡ connect hooks (codes "callback") none none none x₁))
    ⊎ ((x₁ : ℕ) × HookFails hooks entries 0 x₁
        × (Start.init hooks (codes "callback") entries unset 0 ≡ ok (failure (pos 1), x₁)))
init-HooksRun_example = init-HooksRun hooks (codes "callback") entries unset 0

abbrev launcher_opts : List (ℕ × Bytes)
launcher_opts =
    (b'n', codes "alpha")
    ∷ (b'c', codes "true")
    ∷ (b'm', codes "PreLoad")
    ∷ (b'c', codes "./solver")
    ∷ (b'l', codes "./libpreload.so")
    ∷ []

abbrev launcher_set : LauOpts
launcher_set = record {
  name = some (codes "alpha");
  server = codes "localhost";
  port = codes "1883";
  methode = mth_preload;
  pre_lib = some (codes "./libpreload.so");
  command = some (codes "./solver");
}

set_options-IsLast_example : IsLast launcher_opts default_options launcher_set
unfolding set_options
set_options-IsLast_example = set_options-IsLast launcher_opts default_options launcher_set refl

supervise-stopped_example :
    ((status : ChildStatus) (req_stop : Bool)
      → (ts : List Target) × (supervise (failing 2 ++ ends status req_stop ∷ [])
          ≡ ok (signalled (ts ++ runner ∷ [])))
        × IsJust status req_stop ts)
    × (supervise (failing 2 ++ fails true ∷ []) ≡ undefined)
supervise-stopped_example = supervise-stopped 2 []
