-- ===== src/Server/Hooks.antt =====
-- The hooks of the plugins at the start of srv/server.cpp.
use lau_sim.Base.{
  zero, suc, ◌≡◌, ◌≢◌, refl, ap, ◌⊎◌, inl, inr, List, [], ◌∷◌, ◌++◌, Option, none, some, ℤ, pos,
  negsuc, pos-suc-ne, negsuc-ne,
}
use lau_sim.FaultManager.{ok, failure}
use lau_sim.PluginManager.{Entry}
use lau_sim.Config.{Config}
use lau_sim.Server.Start.{Hooks, run_post_inits, connect, init}

module _ {X C : Type 0} (hooks : Hooks X C) where
  -- All hooks of the plugins have run, one after the other, and have returned 0.
  pub data HooksRun : List Entry → X → X → Type 0 where
    finished : {x : X} → HooksRun [] x x
    without :
        {e : Entry} {es : List Entry} {x y : X}
        → hooks.post_init e.pl ≡ none
        → HooksRun es x y
        → HooksRun (e ∷ es) x y
    ran :
        {e : Entry} {es : List Entry} {x x₁ y : X} (hook : X → ℤ × X)
        → hooks.post_init e.pl ≡ some hook
        → hook x ≡ (pos 0, x₁)
        → HooksRun es x₁ y
        → HooksRun (e ∷ es) x y

  -- A hook has failed: those before it have run, and those behind it have not.
  abbrev pub HookFails : List Entry → X → X → Type 0
  HookFails es x y =
      (before after : List Entry) × (e : Entry) × (x₁ : X) × (hook : X → ℤ × X) × (ret : ℤ) × (es
        ≡ before ++ e ∷ after)
      × HooksRun before x x₁
      × (hooks.post_init e.pl ≡ some hook)
      × (hook x₁ ≡ (ret, y))
      × (ret ≢ pos 0)

  abbrev Ran : List Entry → X → ℤ × X → Type 0
  Ran es x r = (HooksRun es x r.1 × (r.0 ≡ pos 0)) ⊎ (HookFails es x r.1 × (r.0 ≡ pos 1))

  without-Ran :
      (e : Entry) (es : List Entry) (x : X) (r : ℤ × X)
      → hooks.post_init e.pl ≡ none
      → Ran es x r
      → Ran (e ∷ es) x r
  without-Ran e es x r lacks (inl (h, z)) = inl (without lacks h, z)
  without-Ran e es x r lacks (inr ((before, after, f, x₁, hook, ret, q, h, s, t, ne), z)) =
      inr ((e ∷ before, after, f, x₁, hook, ret, ap (λ l. e ∷ l) q, without lacks h, s, t, ne), z)

  hook-Ran :
      (e : Entry) (es : List Entry) (x x₀ : X) (hook : X → ℤ × X) (r : ℤ × X)
      → hooks.post_init e.pl ≡ some hook
      → hook x ≡ (pos 0, x₀)
      → Ran es x₀ r
      → Ran (e ∷ es) x r
  hook-Ran e es x x₀ own r has z₀ (inl (h, z)) = inl (ran own has z₀ h, z)
  hook-Ran e es x x₀ own r has z₀ (inr ((before, after, f, x₁, hook, ret, q, h, s, t, ne), z)) =
      inr ((e ∷ before, after, f, x₁, hook, ret, ap (λ l. e ∷ l) q, ran own has z₀ h, s, t, ne), z)

  run_post_inits-Ran : (es : List Entry) (x : X) → Ran es x (run_post_inits hooks es x)
  unfolding run_post_inits
  run_post_inits-Ran [] x = inl (finished, refl)
  run_post_inits-Ran (e ∷ es) x = go (hooks.post_init e.pl) refl (run_post_inits-Ran es)
    where
      go :
          (o : Option (X → ℤ × X))
          → hooks.post_init e.pl ≡ o
          → ((x : X) → Ran es x (run_post_inits hooks es x))
          → Ran (e ∷ es) x (elim o [
            | none ↦ run_post_inits hooks es x
            | some hook ↦ elim (hook x).0 [
              | pos n ↦ elim n [
                | zero ↦ run_post_inits hooks es (hook x).1
                | suc _ ↦ (pos 1, (hook x).1)
              ]
              | negsuc _ ↦ (pos 1, (hook x).1)
            ]
          ])
      go none lacks f = without-Ran e es x _ lacks (f x)
      go (some hook) has f = ended (hook x).0 refl
        where
          ended :
              (z : ℤ)
              → (hook x).0 ≡ z
              → Ran (e ∷ es) x (elim z [
                | pos n ↦ elim n [
                  | zero ↦ run_post_inits hooks es (hook x).1
                  | suc _ ↦ (pos 1, (hook x).1)
                ]
                | negsuc _ ↦ (pos 1, (hook x).1)
              ])
          ended (pos zero) z =
              hook-Ran e es x (hook x).1 hook _ has (ap (λ a. (a, (hook x).1)) z) (f (hook x).1)
          ended (pos (suc n)) z = inr (
            (
              [],
              es,
              e,
              x,
              hook,
              pos (suc n),
              refl,
              finished,
              has,
              ap (λ a. (a, (hook x).1)) z,
              pos-suc-ne n,
            ),
            refl,
          )
          ended (negsuc n) z = inr (
            (
              [],
              es,
              e,
              x,
              hook,
              negsuc n,
              refl,
              finished,
              has,
              ap (λ a. (a, (hook x).1)) z,
              negsuc-ne n,
            ),
            refl,
          )

  -- The hooks of the plugins run in their order, each once. If all return 0, the server goes on with the
  -- slots of the configuration, in the state that they leave; if one returns something else, then no
  -- other is run, and the server returns 1.
  pub init-HooksRun :
      (on_message : C) (es : List Entry) (conf : Config) (x : X)
      → ((x₁ : X) × HooksRun es x x₁
          × (init hooks on_message es conf x
              ≡ connect hooks on_message conf.com_actor conf.com_notify conf.fault_manager x₁))
        ⊎ ((x₁ : X) × HookFails es x x₁
            × (init hooks on_message es conf x ≡ ok (failure (pos 1), x₁)))
  unfolding init
  init-HooksRun on_message es conf x = elim (run_post_inits-Ran es x) [
    | inl (h, z) ↦ inl ((run_post_inits hooks es x).1, h, rw (z, init) refl)
    | inr (f, z) ↦ inr ((run_post_inits hooks es x).1, f, rw (z, init) refl)
  ]
