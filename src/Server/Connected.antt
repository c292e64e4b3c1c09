-- ===== src/Server/Connected.antt =====
-- The plugins that the initialization of srv/server.cpp leaves in the server.
use mathlib.Core.Path.{subst}
use lau_sim.Base.{◌≡◌, refl, sym, inl, inr, List, Option, none, some}
use lau_sim.FaultManager.{Run, ok, undefined, ◌>>=◌, Answer, success, failure, Node}
use lau_sim.PluginManager.{Plugin, Entry}
use lau_sim.Server.Start
use lau_sim.Server.Start.{Hooks, Parts, connect, listen, take_nodes}
use lau_sim.Server.Hooks.{init-HooksRun}
use lau_sim.Config.{Config}

-- What holds behind each result of the first step holds behind both.
>>=-ind :
    {A B : Type 0} (P : Run B → Type 0) (r : Run A) (f : A → Run B)
    → P undefined
    → ((a : A) → P (f a))
    → P (r >>= f)
>>=-ind P undefined f u h = u
>>=-ind P (ok a) f u h = h a

module _ {X C : Type 0} (hooks : Hooks X C) (on_message : C) where
  -- A server that is initialized has the plugins of the three slots.
  abbrev pub IsConnected :
      Option Plugin → Option Plugin → Option Plugin → Run (Answer Parts × X) → Type 0
  IsConnected a n m undefined = Unit
  IsConnected a n m (ok (failure e, x)) = Unit
  IsConnected a n m (ok (success p, x)) =
      (a ≡ some p.com_actor) × (n ≡ some p.com_notify) × (m ≡ some p.manager)

  take_nodes-IsConnected :
      (a n m : Plugin) (r : Answer (List Node) × X)
      → IsConnected (some a) (some n) (some m) (take_nodes hooks a n m r)
  unfolding take_nodes
  take_nodes-IsConnected a n m (failure e, x) = tt
  take_nodes-IsConnected a n m (success ns, x) = (refl, refl, refl)

  connect-IsConnected :
      (a n m : Option Plugin) (x : X) → IsConnected a n m (connect hooks on_message a n m x)
  unfolding connect
  connect-IsConnected none n m x = tt
  connect-IsConnected (some a) none m x = tt
  connect-IsConnected (some a) (some n) none x = tt
  connect-IsConnected (some a) (some n) (some m) x =
      >>=-ind (IsConnected (some a) (some n) (some m)) (listen hooks on_message a x) _ tt λ x₁.
        >>=-ind (IsConnected (some a) (some n) (some m)) ((hooks.fm m).get_nodes x₁) _ tt
          (take_nodes-IsConnected a n m)

  pub init-IsConnected :
      (es : List Entry) (c : Config) (x : X)
      → IsConnected c.com_actor c.com_notify c.fault_manager (Start.init hooks on_message es c x)
  init-IsConnected es c x = elim (init-HooksRun hooks on_message es c x) [
    | inl (x₁, _, e) ↦
        subst (IsConnected c.com_actor c.com_notify c.fault_manager) (sym e)
          (connect-IsConnected c.com_actor c.com_notify c.fault_manager x₁)
    | inr (x₁, _, e) ↦ subst (IsConnected c.com_actor c.com_notify c.fault_manager) (sym e) tt
  ]
