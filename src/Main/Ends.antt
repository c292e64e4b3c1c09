-- ===== src/Main/Ends.antt =====
-- How srv/main.cpp ends.
use lau_sim.Base.{ℕ, ◌≤◌, ◌≡◌, ◌⊎◌, Bool, true, false, List, Option, none, some, Bytes, length}
use lau_sim.FaultManager.{Run, ok, undefined, Answer, success}
use lau_sim.PluginManager.{Plugin, PluginManager, Linker, all_plugins, cleanup}
use lau_sim.Config.{Config, load_config}
use lau_sim.Options.{Options}
use lau_sim.Server.{Server, ExternMessage, do_tics}
use lau_sim.Server.Start
use lau_sim.Server.Start.{Hooks, Parts, connect, listen, take_nodes}
use lau_sim.Main.{Stage, configure}
use lau_sim.Main.Roles.{AreUsed}
use lau_sim.Main.Codes.{IsCode}
use lau_sim.Main.Program
use lau_sim.Main.Program.{End, exits, thrown, finished, unfinished, started, manager_of}

module _ {X C : Type 0} (hooks : Hooks (PluginManager × X) C) (serialize : ExternMessage → Bytes)
    (on_message : C) where
  abbrev V : Type 0
  V = PluginManager × X

  module _ (cleanup_fun : Plugin → Option (X → X)) (stop : ℕ → Bool) (o : Options) where
    -- The end behind the tics, for what the server's `init` has made: the plugins of the three slots are
    -- there, and the server has made the tics up to the limit, or up to the request to end, with the
    -- manager of the configuration.
    abbrev pub IsFinished : Run (Answer Parts × V) → Config → Server → V → Type 0
    IsFinished r c s v =
        (p : Parts) × (k : ℕ) × (js : List ℕ) × (v₁ v₂ : V) × (r ≡ ok (success p, v₁))
        × (c.com_actor ≡ some p.com_actor)
        × (c.com_notify ≡ some p.com_notify)
        × (c.fault_manager ≡ some p.manager)
        × (k ≤ o.max_tics)
        × ((stop k ≡ true) ⊎ (k ≡ o.max_tics))
        × (length js ≡ k)
        × (do_tics (manager_of hooks serialize p) c.tic_length js started v₁ ≡ ok (s, v₂))
        × (v ≡ cleanup cleanup_fun v₂.0 v₂.1)

    abbrev pub IsEnd : Run (Answer Parts × V) → Config → Run (End X) → Type 0
    IsEnd r c undefined = Unit
    IsEnd r c (ok (exits code v)) = IsCode code
    IsEnd r c (ok (thrown x)) = true ≡ false
    IsEnd r c (ok unfinished) = true ≡ false
    IsEnd r c (ok (finished s v)) = IsFinished r c s v

    -- `init` of the server, behind the configuration.
    abbrev pub initialized : Stage → X → Run (Answer Parts × V)
    initialized st x = Start.init hooks on_message (all_plugins st.manager) st.conf (st.manager, x)

    -- The end of `main`: an exception comes from the configuration file.
    abbrev pub Ends :
        Linker
        → (Bytes → Option Bytes)
        → List (ℕ × Bytes)
        → PluginManager
        → Config
        → X
        → Run (End X)
        → Type 0
    Ends linker read_file opts m c x undefined = Unit
    Ends linker read_file opts m c x (ok (thrown y)) =
        (name : Bytes) × (load_config linker read_file name m c ≡ none)
    Ends linker read_file opts m c x (ok (exits code v)) = IsCode code
    Ends linker read_file opts m c x (ok unfinished) = true ≡ false
    Ends linker read_file opts m c x (ok (finished s v)) =
        (st : Stage) × (configure linker read_file opts m c ≡ some st)
        × AreUsed st.conf st.manager
        × IsFinished (initialized st x) st.conf s v
