-- ===== src/Random/Init.antt =====
-- How `init` of plugins/random/random.c ends.
use lau_sim.Base.{
  if_ind, ℕ, zero, suc, ◌+◌, ◌≡◌, refl, ap, List, [], ◌∷◌, length, Bytes, codes, ℤ, pos, negsuc,
  Bool, ◌&&◌, ◌||◌, ◌==◌, to_int, arith,
}
use lau_sim.FaultManager.{
  ◌>>=◌, Run, ok, undefined, Answer, success, failure, PluginManagerInterface, pl_intf_version,
}
use lau_sim.Libc.Number.{strtol, int_or_zero}
use lau_sim.Random.Defs.{
  MyNode, Random, init, init_nodes, init_count, register, make_nodes, started, new_node,
}

-- There are as many nodes as asked for.
abbrev IsSized : ℕ → Answer (List MyNode) → Type 0
IsSized k (success xs) = length xs ≡ k
IsSized k (failure e) = Unit

add-IsSized :
    (k : ℕ) (x : MyNode) (a : Answer (List MyNode))
    → IsSized k a
    → IsSized (suc k) (elim a [ success xs ↦ success (x ∷ xs) | failure e ↦ failure e ])
add-IsSized k x (success xs) h = omega arith
add-IsSized k x (failure e) h = tt

-- The variables of a plugin that has started: as many nodes as their count says, and no fault.
abbrev pub IsStarted : {G : Type 0} → Random G → Type 0
IsStarted r = (pos (length r.nodes) ≡ r.num) × (r.faults ≡ [])

abbrev IsStartedAnswer : {G : Type 0} → Run (Answer (Random G)) → Type 0
IsStartedAnswer undefined = Unit
IsStartedAnswer (ok (success r)) = IsStarted r
IsStartedAnswer (ok (failure e)) = Unit

module _ (calloc : ℕ → ℕ → Bool) (malloc : ℕ → Bool) where
  make_nodes-IsSized : (k i : ℕ) → IsSized k (make_nodes calloc malloc k i)
  unfolding make_nodes
  make_nodes-IsSized zero i = refl
  make_nodes-IsSized (suc k) i =
      if_ind (IsSized (suc k)) (calloc 1 40 && malloc 0x40)
        (add-IsSized k (new_node i) (make_nodes calloc malloc k (i + 1))
          (make_nodes-IsSized k (i + 1)))
        tt

  started-IsStarted :
      {G : Type 0} (n : ℕ) (g : G) (a : Answer (List MyNode))
      → IsSized n a
      → IsStartedAnswer (ok (started calloc malloc n g a))
  unfolding started
  started-IsStarted n g (success xs) h = (ap pos h, refl)
  started-IsStarted n g (failure e) h = tt

  init_count-IsStarted :
      {G : Type 0} (z : ℤ) (g : G) → IsStartedAnswer (init_count calloc malloc z g)
  unfolding init_count init_nodes
  init_count-IsStarted (negsuc n) g = tt
  init_count-IsStarted (pos n) g =
      if_ind IsStartedAnswer (n == 0 || calloc n 8)
        (started-IsStarted n g (make_nodes calloc malloc n 0) (make_nodes-IsSized n 0)) tt

module _ (calloc : ℕ → ℕ → Bool) (malloc : ℕ → Bool) {M G : Type 0}
    (inter : PluginManagerInterface M) where
  -- The plugin is registered, once, if it has started; a failure leaves the plugin manager alone.
  abbrev pub IsRegistered : M → Run (Answer (Random G) × M) → Type 0
  IsRegistered m undefined = Unit
  IsRegistered m (ok (success r, m')) =
      IsStarted r × (m' ≡ (inter.register_plugin (codes "random") m).1)
  IsRegistered m (ok (failure e, m')) = m' ≡ m

  register-IsRegistered :
      (m : M) (a : Run (Answer (Random G)))
      → IsStartedAnswer a
      → IsRegistered m (a >>= λ x. ok (register calloc malloc inter m x))
  unfolding register
  register-IsRegistered m undefined h = tt
  register-IsRegistered m (ok (success r)) h = (h, refl)
  register-IsRegistered m (ok (failure e)) h = refl

  -- `init`, for any arguments and whatever the allocator grants: if it succeeds, the plugin has as
  -- many nodes as its count says and no fault, and is registered once; if it fails, the plugin
  -- manager is as before.
  pub init-IsRegistered :
      (argv : List Bytes) (g : G) (m : M) → IsRegistered m (init calloc malloc inter argv g m)
  unfolding init
  init-IsRegistered [] g m = if_ind (IsRegistered m) (inter.version == pl_intf_version) refl refl
  init-IsRegistered (arg ∷ argv) g m =
      if_ind (IsRegistered m) (inter.version == pl_intf_version)
        (register-IsRegistered m _
          (init_count-IsStarted calloc malloc (to_int (int_or_zero (strtol arg))) g))
        refl
