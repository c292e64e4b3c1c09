-- ===== src/Config/Slots.antt =====
-- What the slots of srv/config.cpp hold: plugins that are registered and made for the slot.
use lau_sim.Base.{
  ℕ, zero, suc, ◌≡◌, refl, inl, inr, ◌⊎◌, true, not, List, [], ◌∷◌, Option, none, some, Bytes,
  codes, ◌==◌, Bool-cases, arith, ℤ, pos, negsuc, bit_and, IsWithin, one-flag, double-flag, if_ind,
}
use lau_sim.Libc.Text.{c_str, str_eq}
use lau_sim.Libc.Number.{stoul}
use lau_sim.PluginManager.{
  Plugin, PluginManager, contains, get_by_name, has_pl_type, pl_com_actor, pl_com_extern,
  pl_fault_manager, pl_logger,
}
use lau_sim.PluginManager.Growth.{find_name-contains}
use lau_sim.Config.{
  Config, fill_slot, set_com_actor, set_com_notify, set_logger, set_fault_manager, notify_too,
  assign, set_tic_length, set_plugin, set_config, tic_id, com_all_id, com_actor_id, com_notify_id,
  logger_id, manager_id,
}

-- A plugin that is registered.
abbrev pub IsKnown : PluginManager → Plugin → Type 0
IsKnown m p = contains p.address m.plugins ≡ true

-- A slot is empty, or holds a plugin that is registered and has the flag.
abbrev pub IsSlot : ℕ → PluginManager → Option Plugin → Type 0
IsSlot flag m none = Unit
IsSlot flag m (some p) = IsWithin p.pl_type flag × IsKnown m p

pub record IsConfigured (m : PluginManager) (c : Config) : Type 0 where
  pub actor : IsSlot pl_com_actor m c.com_actor
  pub notify : IsSlot pl_com_extern m c.com_notify
  pub manager : IsSlot pl_fault_manager m c.fault_manager
  pub log : IsSlot pl_logger m c.logger

abbrev IsFlag : ℕ → Type 0
IsFlag f = (a : ℕ) → (bit_and a f ≡ 0) ⊎ (bit_and a f ≡ f)

com_extern-IsFlag : IsFlag pl_com_extern
com_extern-IsFlag = double-flag 1 one-flag

fault_manager-IsFlag : IsFlag pl_fault_manager
fault_manager-IsFlag = double-flag 2 com_extern-IsFlag

logger-IsFlag : IsFlag pl_logger
logger-IsFlag = double-flag 4 fault_manager-IsFlag

has_pl_type-IsWithin :
    (f : ℕ) (p : Plugin) → IsFlag f → has_pl_type p f ≡ true → IsWithin p.pl_type f
unfolding has_pl_type
has_pl_type-IsWithin f p flag h = ground (arith, flag p.pl_type)

module _ (m : PluginManager) where
  -- The result of an assignment is again configured.
  abbrev pub Assigned : ℤ × Config → Type 0
  Assigned r = IsConfigured m r.1

  fill_slot-Assigned :
      (f : ℕ) (put : Plugin → Config → Config) (p : Plugin) (c : Config)
      → IsFlag f
      → (IsWithin p.pl_type f → IsConfigured m (put p c))
      → IsConfigured m c
      → Assigned (fill_slot f put p c)
  unfolding fill_slot
  fill_slot-Assigned f put p c flag h old = elim (Bool-cases (has_pl_type p f)) [
    | inl has ↦ rw has (h (has_pl_type-IsWithin f p flag has))
    | inr lacks ↦ rw lacks old
  ]

  module _ (p : Plugin) (known : IsKnown m p) where
    set_com_actor-Assigned : (c : Config) → IsConfigured m c → Assigned (set_com_actor p c)
    unfolding set_com_actor
    set_com_actor-Assigned c h =
        fill_slot-Assigned pl_com_actor (λ q x. record x { com_actor = some q }) p c one-flag
          (λ w. record { actor = (w, known); notify = h.notify; manager = h.manager; log = h.log })
          h

    set_com_notify-Assigned : (c : Config) → IsConfigured m c → Assigned (set_com_notify p c)
    unfolding set_com_notify
    set_com_notify-Assigned c h =
        fill_slot-Assigned pl_com_extern (λ q x. record x { com_notify = some q }) p c
          com_extern-IsFlag
          (λ w. record { actor = h.actor; notify = (w, known); manager = h.manager; log = h.log }) h

    set_fault_manager-Assigned : (c : Config) → IsConfigured m c → Assigned (set_fault_manager p c)
    unfolding set_fault_manager
    set_fault_manager-Assigned c h =
        fill_slot-Assigned pl_fault_manager (λ q x. record x { fault_manager = some q }) p c
          fault_manager-IsFlag
          (λ w. record { actor = h.actor; notify = h.notify; manager = (w, known); log = h.log }) h

    set_logger-Assigned : (c : Config) → IsConfigured m c → Assigned (set_logger p c)
    unfolding set_logger
    set_logger-Assigned c h =
        fill_slot-Assigned pl_logger (λ q x. record x { logger = some q }) p c logger-IsFlag
          (λ w. record {
            actor = h.actor;
            notify = h.notify;
            manager = h.manager;
            log = (w, known);
          })
          h

    notify_too-Assigned : (r : ℤ × Config) → Assigned r → Assigned (notify_too p r)
    unfolding notify_too
    notify_too-Assigned (pos zero, c) h = set_com_notify-Assigned c h
    notify_too-Assigned (pos (suc n), c) h = h
    notify_too-Assigned (negsuc n, c) h = h

    assign-Assigned : (id : ℕ) (c : Config) → IsConfigured m c → Assigned (assign id p c)
    unfolding assign
    assign-Assigned id c h =
        if_ind Assigned (id == com_all_id)
          (notify_too-Assigned (set_com_actor p c) (set_com_actor-Assigned c h))
          (if_ind Assigned (id == com_actor_id) (set_com_actor-Assigned c h) (
            if_ind Assigned (id == com_notify_id) (set_com_notify-Assigned c h) (
              if_ind Assigned (id == logger_id) (set_logger-Assigned c h)
                (if_ind Assigned (id == manager_id) (set_fault_manager-Assigned c h) h))))

  set_plugin-Assigned :
      (id : ℕ) (value : Bytes) (c : Config) → IsConfigured m c → Assigned (set_plugin id value m c)
  set_plugin-Assigned id value c h = unfold set_plugin in go (get_by_name (c_str value) m) refl
    where
      go :
          (o : Option Plugin)
          → get_by_name (c_str value) m ≡ o
          → Assigned (elim o [ none ↦ (negsuc 0, c) | some p ↦ assign id p c ])
      go none e = h
      go (some p) e =
          assign-Assigned p (find_name-contains (c_str value) m.plugins p (unfold get_by_name in e))
            id c h

  -- `none`: the exception ends the program.
  abbrev pub Returns : Option (ℤ × Config) → Type 0
  Returns none = Unit
  Returns (some r) = Assigned r

  set_tic_length-Returns :
      (value : Bytes) (c : Config) → IsConfigured m c → Returns (set_tic_length value c)
  set_tic_length-Returns value c h = unfold set_tic_length in go (stoul (c_str value))
    where
      go :
          (o : Option ℕ)
          → Returns (elim o [ none ↦ none | some n ↦ some (pos 0, record c { tic_length = n }) ])
      go none = tt
      go (some n) = record { actor = h.actor; notify = h.notify; manager = h.manager; log = h.log }

  pub set_config-Returns :
      (id : ℕ) (stream : List Bytes) (c : Config)
      → IsConfigured m c
      → Returns (set_config id stream m c)
  unfolding set_config
  set_config-Returns id [] c h = h
  set_config-Returns id (sign ∷ []) c h = h
  set_config-Returns id (sign ∷ value ∷ rest) c h =
      if_ind Returns (not (str_eq sign (codes "="))) h (
        if_ind Returns (id == tic_id) (set_tic_length-Returns value c h)
          (set_plugin-Assigned id value c h))
