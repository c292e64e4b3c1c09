-- ===== src/Tests/Managers.antt =====
-- The plugin manager and the configuration of the server (srv/plugin_internal.cpp, srv/config.cpp), at a
-- configuration like examples/config.txt. A library registers the plugin whose address is the length of
-- its name.
use lau_sim.Base.{
  ℕ, ◌+◌, ◌*◌, ◌%◌, ◌≡◌, refl, ap, true, List, [], ◌∷◌, length, Option, none, some, Bytes, codes,
  ◌==◌, if◌then◌else◌, ℤ, pos, negsuc,
}
use mathlib.Core.Path.{subst}
use lau_sim.Libc.Text.{str_eq}
use lau_sim.PluginManager.{Plugin, PluginManager, fresh, register_plugin, set_role, Linker}
use lau_sim.PluginManager.Invariant.{
  registers, sets, perform, Trace, done, step, IsValid, Trace-IsValid,
}
use lau_sim.Config.{Config, unset, load_config}
use lau_sim.Config.Slots.{IsConfigured}
use lau_sim.Config.Loaded.{IsLinked}
use mathlib.Core.List.{flatten}
use lau_sim.FaultManager.{ok, success}
use lau_sim.Server.Start.{Hooks}
use lau_sim.Main.Program
use lau_sim.Main.Ends.{Ends}
use lau_sim.Tests.Data.{nodes, faults}
use lau_sim.Main.{configure}
use lau_sim.Main.Roles.{Outcome, configure-Outcome}

abbrev struct : ℕ → Plugin
struct a = record {
  address = a;
  version = 1;
  pl_type = if a == 6 then 3 else 4;
  name = if a == 6 then codes "echo" else codes "random";
}

abbrev addresses : (a : ℕ) → (struct a).address ≡ a
addresses a = refl

abbrev start_of : Bytes → List Bytes → PluginManager → ℤ × PluginManager
start_of file argv m = register_plugin (struct (length file)) m

abbrev linker : Linker
linker file = some (some (start_of file))

abbrev found :
    Option (Option (List Bytes → PluginManager → ℤ × PluginManager))
    → List Bytes
    → PluginManager
    → ℤ × PluginManager
found (some (some init)) = init
found (some none) = λ argv m. (pos 0, m)
found none = λ argv m. (pos 0, m)

linked : IsLinked struct addresses linker
unfolding perform
linked file init e argv m =
    let call =
      step (registers (length file)) (start_of file argv m).0 (start_of file argv m).1 refl done in
    (
      registers (length file) ∷ [],
      subst (λ f. Trace struct addresses m (registers (length file) ∷ []) (f argv m).1) (ap found e)
          call,
    )

fresh-IsValid : IsValid struct addresses fresh
fresh-IsValid = (tt, tt)

abbrev echo_only : PluginManager
echo_only = (register_plugin (struct 6) fresh).1

abbrev both : PluginManager
both = (register_plugin (struct 8) echo_only).1

session : Trace struct addresses fresh (registers 6 ∷ registers 8 ∷ sets (some 6) 4 ∷ []) both
unfolding perform register_plugin set_role str_eq
session =
    step (registers 6) (pos 0) echo_only refl
      (step (registers 8) (pos 0) both refl (step (sets (some 6) 4) (negsuc 0) both refl done))

Trace-IsValid_example : IsValid struct addresses both
Trace-IsValid_example = Trace-IsValid struct addresses session fresh-IsValid

abbrev config_text : Bytes
config_text =
    codes
      "# comment\n[libs]\n./echo --arg1 -h\n./random 5\n\n[config]\ncom = echo\nFault = random\ntic = 0"

abbrev read_file : Bytes → Option Bytes
read_file name = if str_eq name (codes "config.txt") then some config_text else none

unset-IsConfigured : IsConfigured fresh unset
unset-IsConfigured = record { actor = tt; notify = tt; manager = tt; log = tt }

-- The slots behind the configuration.
abbrev slots : Option (ℤ × PluginManager × Config) → Option (ℤ × Config)
slots none = none
slots (some (ret, m, c)) = some (ret, c)

load_config_run :
    slots (load_config linker read_file (codes "config.txt") fresh unset)
    ≡ some (
      pos 0,
      record {
        com_actor = some (struct 6);
        com_notify = some (struct 6);
        fault_manager = some (struct 8);
        logger = none;
        tic_length = 0;
        is_loaded = true;
      },
    )
unfolding load_config register_plugin
load_config_run = refl

abbrev opts : List (ℕ × Bytes)
opts = (b'c', codes "config.txt") ∷ (b's', []) ∷ (b'n', codes "100") ∷ []

configure-Outcome_example :
    Outcome struct addresses linker linked read_file fresh unset
      (configure linker read_file opts fresh unset)
configure-Outcome_example =
    configure-Outcome struct addresses linker linked read_file opts fresh unset fresh-IsValid
      unset-IsConfigured

-- Plugins that start, and a manager with a fault in each tic.
abbrev hooks : Hooks (PluginManager × ℕ) Bytes
hooks = record {
  post_init = λ p. none;
  c = λ p. record {
    capabilities = 0;
    notify_fail = λ node component severity x. (pos 0, x);
    notify_extern = λ msg x. (pos 0, x);
    set_callback = none;
  };
  fm = λ p. record {
    get_nodes = λ x. ok (success nodes, x);
    tic = λ (m, x). ok (m, x + 1);
    get_fail = λ x. ok (flatten faults, x);
    inject_fail = λ f x. ok (pos 0, x);
  };
}

abbrev both_there : PluginManager
both_there = (register_plugin (struct 7) (register_plugin (struct 6) fresh).1).1

abbrev two_tics : List (ℕ × Bytes)
two_tics = (b'c', codes "config.txt") ∷ (b'n', codes "2") ∷ []

-- A clock that is late by half a tic in each reading.
abbrev late : ℕ → ℕ
late i = 7 + 500 * i % 2000
