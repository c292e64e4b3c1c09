-- ===== src/Replay/State.antt =====
-- plugins/replay/replay.c: the variables of the plugin, and `get_tic_num`.
use lau_sim.Base.{ℕ, Bool, List, [], ◌∷◌, Option, none, some, Bytes, codes}
use lau_sim.FaultManager.{Run, ok, undefined, Node, Fault}
use lau_sim.Libc.Text.{tokens}
use lau_sim.Libc.Number.{strtoull}

pub record Replay : Type 0 where
  pub file : List Bytes
  pub tic_num : ℕ
  pub nxt_tic : ℕ
  pub id : ℕ
  pub done : Bool
  pub nodes : List Node
  pub faults : List Fault

-- The loop over the tokens behind the first; `none`: `num` is returned with no value.
unfoldable pub first_number : List Bytes → Option ℕ
first_number [] = none
first_number (t ∷ ts) = elim (strtoull t) [ some n ↦ some n | none ↦ first_number ts ]

unfoldable pub drop_token : List Bytes → List Bytes
drop_token [] = []
drop_token (t ∷ ts) = ts

unfoldable pub get_tic_num : Bytes → Option ℕ
unfolding first_number drop_token
get_tic_num buf = first_number (drop_token (tokens (codes " #\t\n") buf))

-- A number that a caller goes on with; one that has no value is undefined behaviour.
unfoldable pub defined : Option ℕ → Run ℕ
defined none = undefined
defined (some n) = ok n
