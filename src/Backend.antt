-- ===== src/Backend.antt =====
-- client/include/backend_if.h and client/src/backend.c: the loop that reads commands from the fifo and
-- changes the state of the subsystems of a node.
pub mod Finish
pub mod Start
pub mod Removed
use lau_sim.Base.{ℕ, List, [], ◌∷◌, Option, none, some, Bytes, codes, if◌then◌else◌, ℤ}
use lau_sim.Libc.Text.{c_str, str_eq, tokens}
use lau_sim.Libc.Number.{strtoull, or_zero}

-- `enum en_subsys`
pub data Subsys : Type 0 where
  net mem pwr : Subsys

-- What `lauSim_set_state` does: it returns, or the process exits.
pub data Effect (S : Type 0) : Type 0 where
  returned : ℤ → S → Effect S
  exited : S → Effect S

-- The functions that a backend implements (preload.c, privileged.c), over its variables.
pub record Actor (S : Type 0) : Type 0 where
  pub set_state : Subsys → ℕ → S → Effect S
  pub cleanup : S → S

-- A round of `select`: data for the fifo, a request to close, or nothing to read.
pub data Event : Type 0 where
  line : Bytes → Event
  close_request : Event
  nothing : Event

-- How the loop ends: it returns EXIT_SUCCESS behind its cleanup, the process exits in
-- `lauSim_set_state`, it still waits, or it has used `cmd` with no value.
pub data Status (S : Type 0) : Type 0 where
  finished : S → Status S
  killed : S → Status S
  waiting : Option Subsys → S → Status S
  undefined : Status S

-- What a line asks for: nothing, the end, or a command with the option's value.
pub data Request : Type 0 where
  skip : Request
  exit : Request
  command : Bytes → ℕ → Request

unfoldable pub read_option : Bytes → List Bytes → Request
read_option cmd [] = skip
read_option cmd (opt ∷ _) = command cmd (or_zero (strtoull opt))

unfoldable pub read_words : List Bytes → Request
unfolding read_option
read_words [] = skip
read_words (cmd ∷ ts) = if str_eq cmd (codes "exit") then exit else read_option cmd ts

unfoldable pub read_request : Bytes → Request
unfolding read_words
read_request l = read_words (tokens (codes " \n") (c_str l))

-- The three tests assign `cmd`; with another name it keeps its value.
unfoldable pub select_subsys : Bytes → Option Subsys → Option Subsys
select_subsys name cmd =
    if str_eq name (codes "memory")
    then some mem
    else if str_eq name (codes "power")
    then some pwr
    else if str_eq name (codes "net")
    then some net
    else cmd

module _ {S : Type 0} (a : Actor S) where
  -- The loop of `lauSim_main` from a value of `cmd` on; `none` is an indeterminate value. `after` is
  -- the loop over the events that are left.
  unfoldable pub apply_effect : (S → Status S) → Effect S → Status S
  apply_effect after (returned code s) = after s
  apply_effect after (exited s) = killed s

  unfoldable pub apply : (Option Subsys → S → Status S) → Option Subsys → ℕ → S → Status S
  unfolding apply_effect
  apply after none opt s = undefined
  apply after (some sys) opt s = apply_effect (after (some sys)) (a.set_state sys opt s)

  unfoldable pub serve : (Option Subsys → S → Status S) → Request → Option Subsys → S → Status S
  unfolding apply
  serve after skip cmd s = after cmd s
  serve after exit cmd s = finished (a.cleanup s)
  serve after (command name opt) cmd s = apply after (select_subsys name cmd) opt s

  unfoldable pub main_loop : List Event → Option Subsys → S → Status S
  unfolding serve
  main_loop [] cmd s = waiting cmd s
  main_loop (nothing ∷ es) cmd s = main_loop es cmd s
  main_loop (close_request ∷ es) cmd s = finished (a.cleanup s)
  main_loop (line l ∷ es) cmd s = serve (main_loop es) (read_request l) cmd s

  -- `cmd` has no value at the start.
  unfoldable pub main : List Event → S → Status S
  unfolding main_loop
  main es s = main_loop es none s

-- `fgetc (fifo)` in `lauSim_init` takes the byte that starts the application.
unfoldable pub init : Bytes → Bytes
init [] = []
init (c ∷ s) = s
