-- ===== src/FaultManager.antt =====
-- include/lausim/node.h, include/lausim/fault_manager.h and include/lausim/plugin.h: the data that
-- the server and the plugins exchange, and the interface of a fault manager.
use lau_sim.Base.{◌≡◌, refl, ℕ, zero, suc, List, [], ◌∷◌, Option, Bytes, ℤ}

-- What a C function does: it returns, or its behaviour is undefined (it reads an indeterminate
-- value, or through NULL).
pub data Run (A : Type 0) : Type 0 where
  ok : A → Run A
  undefined : Run A

infixl 5 ◌>>=◌
abbrev pub ◌>>=◌ : {A B : Type 0} → Run A → (A → Run B) → Run B
ok a >>= f = f a
undefined >>= f = undefined

pub bind_assoc :
    {A B C : Type 0} (x : Run A) (f : A → Run B) (g : B → Run C)
    → ((x >>= f) >>= g) ≡ (x >>= λ a. f a >>= g)
bind_assoc (ok a) f g = refl
bind_assoc undefined f g = refl

-- Where a sequence is defined, so are its two steps.
pub >>=-ok :
    {A B : Type 0} {b : B} (f : A → Run B) (x : Run A)
    → (x >>= f) ≡ ok b
    → (a : A) × (f a ≡ ok b) × (x ≡ ok a)
>>=-ok f undefined h = cc
>>=-ok f (ok a) h = (a, h, refl)

-- A return code with what the function hands out on success, where it returns 0.
pub data Answer (A : Type 0) : Type 0 where
  success : A → Answer A
  failure : ℤ → Answer A

pub data NodeType : Type 0 where
  uniform_node network_switch pdu : NodeType

pub record Component : Type 0 where
  pub name : Bytes
  pub severity : ℕ

-- `num_components` is the length of `components`.
pub record Node : Type 0 where
  pub name : Bytes
  pub id : ℤ
  pub node_type : NodeType
  pub state : ℕ
  pub components : List Component

-- `none` is a NULL pointer.
pub record Fault : Type 0 where
  pub id : ℤ
  pub name : Option Bytes
  pub component : Option Bytes
  pub node : Bytes
  pub severity : ℕ

-- The four functions of a fault manager, over the plugin's variables. The count that `get_nodes` and
-- `get_fail` return beside an array is the length of the list.
pub record FaultManager (S : Type 0) : Type 0 where
  pub get_nodes : S → Run (Answer (List Node) × S)
  pub tic : S → Run S
  pub get_fail : S → Run (List Fault × S)
  pub inject_fail : Fault → S → Run (ℤ × S)

abbrev pub node_state_unknown : ℕ
node_state_unknown = 0

abbrev pub pl_intf_version : ℕ
pl_intf_version = 7

-- What a plugin's `init` uses of the plugin manager, whose variables are `M`: its version, and the
-- registration of a plugin under its name.
pub record PluginManagerInterface (M : Type 0) : Type 0 where
  pub version : ℕ
  pub register_plugin : Bytes → M → ℤ × M

module _ {S : Type 0} (m : FaultManager S) where
  -- The faults of `n` tics: the server calls `tic` and then `get_fail` in each.
  unfoldable pub observe : ℕ → S → Run (List (List Fault) × S)
  observe zero s = ok ([], s)
  observe (suc n) s = do
    s₁ ← m.tic s
    (faults, s₂) ← m.get_fail s₁
    (later, s₃) ← observe n s₂
    ok (faults ∷ later, s₃)

  -- A run: the nodes, and then the faults of `n` tics.
  unfoldable pub session : ℕ → S → Run (Answer (List Node) × List (List Fault) × S)
  unfolding observe
  session n s = do (nodes, s₁) ← m.get_nodes s; (faults, s₂) ← observe n s₁; ok (nodes, faults, s₂)
