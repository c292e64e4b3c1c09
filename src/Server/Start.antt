-- ===== src/Server/Start.antt =====
-- srv/server.cpp: the initialization of the server, over the functions behind the plugins, which work
-- on the variables `X` of all plugins. The log and the clock are not modelled.
use lau_sim.Base.{
  zero, suc, List, [], ◌∷◌, Option, none, some, ◌==◌, if◌then◌else◌, ℤ, pos, negsuc, bit_and,
}
use lau_sim.FaultManager.{Run, ok, undefined, ◌>>=◌, Answer, success, failure, Node, FaultManager}
use lau_sim.PluginManager.{Plugin, Entry}
use lau_sim.Config.{Config}
use lau_sim.Com.{Com, com_async}

-- `post_init`, `c` and `fm` of a plugin; `none` is a NULL pointer.
pub record Hooks (X C : Type 0) : Type 0 where
  pub post_init : Plugin → Option (X → ℤ × X)
  pub c : Plugin → Com X C
  pub fm : Plugin → FaultManager X

-- What `init` sets in the server.
pub record Parts : Type 0 where
  pub com_actor : Plugin
  pub com_notify : Plugin
  pub manager : Plugin
  pub nodes : List Node

module _ {X C : Type 0} (hooks : Hooks X C) where
  -- The first hook that fails ends the loop.
  unfoldable pub run_post_inits : List Entry → X → ℤ × X
  run_post_inits [] x = (pos 0, x)
  run_post_inits (e ∷ es) x = elim (hooks.post_init e.pl) [
    | none ↦ run_post_inits es x
    | some hook ↦ elim (hook x).0 [
      | pos n ↦ elim n [ zero ↦ run_post_inits es (hook x).1 | suc _ ↦ (pos 1, (hook x).1) ]
      | negsuc _ ↦ (pos 1, (hook x).1)
    ]
  ]

  -- The callback is set where the plugin is asynchronous.
  unfoldable pub listen : C → Plugin → X → Run X
  listen on_message pl x =
      let com_actor = hooks.c pl in
      if bit_and com_actor.capabilities com_async == com_async
      then elim com_actor.set_callback [
        | none ↦ undefined
        | some set_callback ↦ ok (set_callback (some on_message) x).1
      ]
      else ok x

  unfoldable pub take_nodes :
      Plugin → Plugin → Plugin → Answer (List Node) × X → Run (Answer Parts × X)
  take_nodes actor notify manager (failure e, x) = ok (failure (pos 1), x)
  take_nodes actor notify manager (success nodes, x) = ok (
    success (record { com_actor = actor; com_notify = notify; manager = manager; nodes = nodes }),
    x,
  )

  -- `init` behind the hooks, with the slots of the configuration.
  unfoldable pub connect :
      C → Option Plugin → Option Plugin → Option Plugin → X → Run (Answer Parts × X)
  unfolding listen take_nodes
  connect on_message (some actor) (some notify) (some manager) x = do
    x₁ ← listen on_message actor x
    r ← (hooks.fm manager).get_nodes x₁
    take_nodes actor notify manager r
  connect on_message none n m x = ok (failure (pos 1), x)
  connect on_message (some _) none m x = ok (failure (pos 1), x)
  connect on_message (some _) (some _) none x = ok (failure (pos 1), x)

  unfoldable pub init : C → List Entry → Config → X → Run (Answer Parts × X)
  unfolding run_post_inits connect
  init on_message plugins conf x =
      let (ret, x') = run_post_inits plugins x in
      elim ret [
        | pos n ↦ elim n [
          | zero ↦ connect on_message conf.com_actor conf.com_notify conf.fault_manager x'
          | suc _ ↦ ok (failure (pos 1), x')
        ]
        | negsuc _ ↦ ok (failure (pos 1), x')
      ]
