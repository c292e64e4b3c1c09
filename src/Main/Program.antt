-- ===== src/Main/Program.antt =====
-- srv/main.cpp: `main` from its options to its end, over the plugins' functions, which work on the plugin
-- manager and the variables `X` of all plugins. What the signal handler sets and the states of the nodes
-- are read once in each round. The log is not modelled, but for the table in Main.Table.
use lau_sim.Base.{ℕ, Bool, List, [], Option, none, some, Bytes, ℤ, pos}
use lau_sim.FaultManager.{Run, ok, ◌>>=◌, Answer, success, failure, Node, FaultManager}
use lau_sim.PluginManager.{Plugin, PluginManager, Linker, all_plugins, cleanup}
use lau_sim.Com.{notify_nodes, with_plugins}
use lau_sim.Config.{Config}
use lau_sim.Options.{Options, defaults, parse}
use lau_sim.Server.{Server, ExternMessage}
use lau_sim.Server.Clock.{Clock}
use lau_sim.Server.Start
use lau_sim.Server.Start.{Hooks, Parts}
use lau_sim.Main.{Stage, configure, run}

-- An exit code, an exception, a return behind the loop, or the fuel is used up.
pub data End (X : Type 0) : Type 0 where
  exits : ℤ → PluginManager × X → End X
  thrown : X → End X
  finished : Server → PluginManager × X → End X
  unfinished : End X

-- The server at the start of its tics.
abbrev pub started : Server
started = record { tic = 0; notices = []; messages = [] }

-- The fault manager of the server, with the plugins that are called behind its `get_fail`.
abbrev pub manager_of :
    {V C : Type 0} → Hooks V C → (ExternMessage → Bytes) → Parts → FaultManager V
manager_of hooks serialize parts =
    with_plugins (hooks.c parts.com_actor) (hooks.c parts.com_notify) serialize
      (hooks.fm parts.manager)

module _ {X C : Type 0} (hooks : Hooks (PluginManager × X) C) (serialize : ExternMessage → Bytes)
    (cleanup_fun : Plugin → Option (X → X)) (on_message : C) (stop : ℕ → Bool) (now : ℕ → ℕ)
    (nodes : List Node → ℕ → List Node) (readings fuel : ℕ) where
  -- Behind the tics the plugins are cleaned up.
  unfoldable pub finish : Option (Server × Clock × (PluginManager × X)) → End X
  unfolding cleanup
  finish none = unfinished
  finish (some (s, c, v)) = finished s (cleanup cleanup_fun v.0 v.1)

  -- Behind the initialization of the server.
  unfoldable pub run_server : Config → Options → Answer Parts × (PluginManager × X) → Run (End X)
  unfolding run finish notify_nodes with_plugins
  run_server conf o (failure e, v) = ok (exits (pos 1) v)
  run_server conf o (success parts, v) = do
    r ←
        run stop now (manager_of hooks serialize parts) (notify_nodes (hooks.c parts.com_actor))
          conf.tic_length o.max_tics readings o.sync (nodes parts.nodes) fuel started v
    ok (finish r)

  -- Behind the configuration.
  unfoldable pub start_server : Stage → Options → X → Run (End X)
  unfolding Start.init all_plugins run_server
  start_server st o x = elim st.exit_code [
    | some code ↦ ok (exits code (st.manager, x))
    | none ↦ do
      r ← Start.init hooks on_message (all_plugins st.manager) st.conf (st.manager, x)
      run_server st.conf o r
  ]

  -- `main`; `x` are the variables behind the loading of the libraries.
  unfoldable pub main :
      Linker → (Bytes → Option Bytes) → List (ℕ × Bytes) → PluginManager → Config → X → Run (End X)
  unfolding configure parse start_server
  main linker read_file opts m conf x = elim (configure linker read_file opts m conf) [
    | none ↦ ok (thrown x)
    | some st ↦ start_server st (parse opts defaults).1 x
  ]
