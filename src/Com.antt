-- ===== src/Com.antt =====
-- include/lausim/com.h: what the server uses of a communication plugin, and what srv/server.cpp does
-- with it in a tic.
pub mod Dispatch
use lau_sim.Base.{ℕ, List, [], ◌∷◌, Option, none, some, Bytes, ◌==◌, if◌then◌else◌, ℤ}
use lau_sim.FaultManager.{ok, ◌>>=◌, FaultManager, Node, Fault}
use lau_sim.Server.{ExternMessage, empty_message, add_node}

abbrev pub com_none : ℕ
com_none = 0

abbrev pub com_sync : ℕ
com_sync = 1

abbrev pub com_async : ℕ
com_async = 2

-- `com`, over the plugin's variables `S`; a callback is a `C`, and `none` a NULL pointer. The functions that the server never
-- calls are left out.
pub record Com (S C : Type 0) : Type 0 where
  pub capabilities : ℕ
  pub notify_fail : Bytes → Option Bytes → ℕ → S → ℤ × S
  pub notify_extern : Bytes → S → ℤ × S
  pub set_callback : Option (Option C → S → Option C × S)

module _ {S C : Type 0} (com_actor : Com S C) where
  unfoldable pub notify_nodes : List Node → S → S
  notify_nodes [] s = s
  notify_nodes (n ∷ ns) s = notify_nodes ns (com_actor.notify_fail n.name none 0 s).1

  -- The loop of `manage_fails`, with its calls of the plugin.
  unfoldable pub notify_faults : List Fault → ExternMessage → S → ExternMessage × S
  unfolding add_node
  notify_faults [] msg s = (msg, s)
  notify_faults (f ∷ fs) msg s =
      notify_faults fs (add_node f msg) (com_actor.notify_fail f.node f.component f.severity s).1

-- `manage_fails` behind `get_fail`. The plugins for the actors and for the application may be the same, and
-- `serialize` is what protobuf makes of a message.
unfoldable pub notify_plugins :
    {S C : Type 0} → Com S C → Com S C → (ExternMessage → Bytes) → List Fault → S → S
unfolding notify_faults
notify_plugins com_actor com_notify serialize [] s = s
notify_plugins com_actor com_notify serialize (f ∷ fs) s =
    let (msg, s') = notify_faults com_actor (f ∷ fs) empty_message s in
    (com_notify.notify_extern (serialize msg) s').1

-- A fault manager together with what `manage_fails` does with the plugins right behind its `get_fail`.
unfoldable pub with_plugins :
    {S C : Type 0} → Com S C → Com S C → (ExternMessage → Bytes) → FaultManager S → FaultManager S
unfolding notify_plugins
with_plugins com_actor com_notify serialize manager = record manager {
  get_fail = λ s. manager.get_fail s >>= λ (r : List Fault × _).
      ok (r.0, notify_plugins com_actor com_notify serialize r.0 r.1);
}
