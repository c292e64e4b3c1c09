-- ===== src/Main.antt =====
-- srv/main.cpp: the stages of the server, from its options to its last tic. What the signal handler
-- sets and the states of the nodes are read once in each round. The log is not modelled,
-- but for the table of the plugins.
pub mod Roles
pub mod Loop
pub mod Synced
pub mod Program
pub mod Codes
pub mod Table
pub mod Ends
use lau_sim.Base.{
  ℕ, zero, suc, ◌+◌, Bool, true, false, List, [], ◌∷◌, Option, none, some, Bytes, ltb, ◌==◌,
  if◌then◌else◌, ℤ, pos, negsuc, u64,
}
use lau_sim.FaultManager.{Run, ok, ◌>>=◌, Node, FaultManager}
use lau_sim.PluginManager.{
  Plugin, PluginManager, Linker, add_role, pl_com_actor, pl_com_extern, pl_fault_manager, pl_logger,
}
use lau_sim.Config.{Config, load_config}
use lau_sim.Options.{Options, defaults, parse}
use lau_sim.Server.{Server, all_nodes_ready, send_synced_signal}
use lau_sim.Server.Clock.{Clock, unread, do_tic}

-- A call whose result is not read; `none`: an exception ends the program.
unfoldable pub give_role : Option Plugin → ℕ → PluginManager → Option PluginManager
unfolding add_role
give_role pl role m = elim (add_role pl role m) [ none ↦ none | some r ↦ some r.1 ]

-- The four calls of `add_role`.
unfoldable pub give_roles : Config → PluginManager → Option PluginManager
unfolding give_role
give_roles conf m = elim (give_role conf.com_actor pl_com_actor m) [
  | none ↦ none
  | some m₁ ↦ elim (give_role conf.com_notify pl_com_extern m₁) [
    | none ↦ none
    | some m₂ ↦ elim (give_role conf.logger pl_logger m₂) [
      | none ↦ none
      | some m₃ ↦ give_role conf.fault_manager pl_fault_manager m₃
    ]
  ]
]

-- `conf->logger`, where it is set, replaces the standard logger.
unfoldable pub use_logger : Config → PluginManager → PluginManager
use_logger conf m = elim conf.logger [ none ↦ m | some pl ↦ record m { logger_used = some pl } ]

-- What `main` has at the end of a stage, and its exit code, where it ends there.
pub record Stage : Type 0 where
  pub exit_code : Option ℤ
  pub manager : PluginManager
  pub conf : Config

-- Behind `load_config`.
unfoldable pub assign_roles : Option (ℤ × PluginManager × Config) → Option Stage
unfolding give_roles use_logger
assign_roles none = none
assign_roles (some (pos zero, m, conf)) = elim (give_roles conf (use_logger conf m)) [
  | none ↦ none
  | some m' ↦ some (record { exit_code = none; manager = m'; conf = conf })
]
assign_roles (some (ret, m, conf)) =
    some (record { exit_code = some (pos 1); manager = m; conf = conf })

-- `main` up to the roles; the options are the results of `getopt`.
unfoldable pub configure :
    Linker → (Bytes → Option Bytes) → List (ℕ × Bytes) → PluginManager → Config → Option Stage
unfolding parse load_config assign_roles
configure linker read_file opts m conf =
    let (ret, o) = parse opts defaults in
    elim ret [
      | negsuc _ ↦ some (record { exit_code = some (negsuc 0); manager = m; conf = conf })
      | pos _ ↦ elim o.cfile [
        | [] ↦ some (record { exit_code = some (negsuc 0); manager = m; conf = conf })
        | c ∷ name ↦ assign_roles (load_config linker read_file (c ∷ name) m conf)
      ]
    ]

-- `stop n`: `termreq` is set when the loop tests it for the `n`-th time.
module _ (stop : ℕ → Bool) where
  -- The loop that waits for the nodes; `none`: the fuel is used up, else the rounds.
  unfoldable pub wait_loop : (ℕ → List Node) → ℕ → ℕ → Option ℕ
  unfolding all_nodes_ready
  wait_loop nodes zero n = none
  wait_loop nodes (suc fuel) n =
      let rest = wait_loop nodes fuel (n + 1) in
      if stop n then some n else if all_nodes_ready (nodes n) then some n else rest

  -- `now` is the clock, and `readings` bounds how often one tic reads it.
  module _ {S : Type 0} (now : ℕ → ℕ) (m : FaultManager S) (tic_length max_tics readings : ℕ) where
    -- The condition of the loop, and `tic_num` behind it.
    unfoldable pub goes_on : ℕ → ℕ → Bool × ℕ
    goes_on n tic_num =
        if stop n
        then (false, tic_num)
        else if max_tics == 0
        then (true, tic_num)
        else (ltb tic_num max_tics, u64 (tic_num + 1))

    -- The loop of the tics, from its `n`-th round; `none`: the fuel is used up, here or in the loop that
    -- looks for the end of a tic.
    unfoldable pub tic_loop : ℕ → ℕ → ℕ → Server → Clock → S → Run (Option (Server × Clock × S))
    unfolding goes_on do_tic
    tic_loop zero n tic_num s c st = ok none
    tic_loop (suc fuel) n tic_num s c st =
        let (more, tic_num') = goes_on n tic_num in
        elim more [
          | false ↦ ok (some (s, c, st))
          | true ↦ do
            r ← do_tic now tic_length m readings s c st
            elim r [
              | none ↦ ok none
              | some (s₁, c₁, st₁) ↦ tic_loop fuel (n + 1) tic_num' s₁ c₁ st₁
            ]
        ]

-- `main` behind the initialization of the server, with the options `sync` and `max_tics`. The loop of the
-- tics tests `termreq` where the wait has left off. The nodes get the signal to start also where the
-- wait ends for `termreq`; `signal` is what the actors' plugin makes of it.
module _ {S : Type 0} (stop : ℕ → Bool) (now : ℕ → ℕ) (m : FaultManager S)
    (signal : List Node → S → S) (tic_length max_tics readings : ℕ) where
  unfoldable pub run_waited :
      Option ℕ → (ℕ → List Node) → ℕ → Server → S → Run (Option (Server × Clock × S))
  unfolding send_synced_signal tic_loop
  run_waited none nodes fuel s st = ok none
  run_waited (some k) nodes fuel s st =
      tic_loop (λ n. stop (k + 1 + n)) now m tic_length max_tics readings fuel 0 0
        (send_synced_signal (nodes k) s) unread (signal (nodes k) st)

  unfoldable pub run : Bool → (ℕ → List Node) → ℕ → Server → S → Run (Option (Server × Clock × S))
  unfolding wait_loop run_waited tic_loop
  run false nodes fuel s st = tic_loop stop now m tic_length max_tics readings fuel 0 0 s unread st
  run true nodes fuel s st = run_waited (wait_loop stop nodes fuel 0) nodes fuel s st
