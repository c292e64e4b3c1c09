-- ===== src/Com/Dispatch.antt =====
-- The calls of the communication plugins (include/lausim/com.h) by srv/server.cpp in a tic.
use lau_sim.Base.{◌≡◌, ◌≢◌, refl, ap, ◌∙◌, List, [], ◌∷◌, ◌++◌, map, Bytes}
use lau_sim.FaultManager.{Fault}
use lau_sim.Server.{Notice, ExternMessage, Server, add_node, notify_all, empty_message}
use lau_sim.Server.Tics.{recovered, failed, notify_all_lem}
use lau_sim.Com.{Com, notify_faults, notify_plugins}

-- A plugin behind calls of `notify_fail`.
unfoldable pub notified : {S C : Type 0} → Com S C → List Notice → S → S
notified link [] s = s
notified link (n ∷ ns) s = notified link ns (link.notify_fail n.target n.component n.severity s).1

-- A fault as the actors are told of it.
abbrev pub told : Fault → Notice
told f = record { target = f.node; component = f.component; severity = f.severity }

module _ {S C : Type 0} (link : Com S C) where
  pub notified-append :
      (ns ms : List Notice) (s : S)
      → notified link (ns ++ ms) s ≡ notified link ms (notified link ns s)
  unfolding notified
  notified-append [] ms s = refl
  notified-append (n ∷ ns) ms s = notified-append ns ms _

  notify_faults-notified :
      (fs : List Fault) (msg : ExternMessage) (server : Server) (s : S)
      → notify_faults link fs msg s ≡ ((notify_all fs msg server).0, notified link (map told fs) s)
  unfolding notify_faults notify_all notified
  notify_faults-notified [] msg server s = refl
  notify_faults-notified (f ∷ fs) msg server s = notify_faults-notified fs (add_node f msg) _ _

-- What the plugins get in a tic with faults: the actors' plugin gets each fault once, in its order, with its
-- node, component and severity; behind them the application's plugin, which may be the same, gets one
-- message with the nodes that recover and those that fail as a whole, in their order.
pub notify_plugins-notified :
    {S C : Type 0} (com_actor com_notify : Com S C) (serialize : ExternMessage → Bytes)
    (fs : List Fault) (s : S)
    → fs ≢ []
    → notify_plugins com_actor com_notify serialize fs s
      ≡ (com_notify.notify_extern
          (serialize (record { spare_nodes = recovered fs; failing_nodes = failed fs }))
          (notified com_actor (map told fs) s)).1
unfolding notify_plugins
notify_plugins-notified com_actor com_notify serialize [] s some_fault = absurd (some_fault refl)
notify_plugins-notified com_actor com_notify serialize (f ∷ fs) s some_fault =
    let empty : Server = record { tic = 0; notices = []; messages = [] } in
    ap (λ r. (com_notify.notify_extern (serialize r.0) r.1).1)
      (notify_faults-notified com_actor (f ∷ fs) empty_message empty s
        ∙ ap (λ r. (r.0, notified com_actor (map told (f ∷ fs)) s))
            (notify_all_lem (f ∷ fs) empty_message empty))
