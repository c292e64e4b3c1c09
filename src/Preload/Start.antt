-- ===== src/Preload/Start.antt =====
-- client/src/preload.c: the life of the library in an application, from its constructor to its destructor.
-- The functions of the C library are arguments; the log is not modelled.
use lau_sim.Base.{Bool, true, false, Option, none, some, Bytes, codes, if◌then◌else◌, ℤ, pos}
use lau_sim.FaultManager.{Run, ok, undefined}
use lau_sim.Backend.Start
use lau_sim.Backend.Start.{Files, Fifo, unopened}

-- What the library calls, beside the functions for the fifo. A function that `dlsym` finds is an `H`, and
-- `call_close` calls it for a descriptor.
pub record System (W H : Type 0) : Type 0 where
  pub files : Files W
  pub pipe : W → Option (ℤ × ℤ) × W
  pub dlsym : Bytes → W → Option H × W
  pub create_thread : W → Bool × W
  pub write : ℤ → Bytes → W → W
  pub join : W → W
  pub call_close : H → ℤ → W → W

-- `lauSim_hooks`; `none` is NULL.
pub record Hooks (H : Type 0) : Type 0 where
  pub socket : Option H
  pub close : Option H
  pub accept : Option H

-- The variables of the life: `lauSim_state.is_init`, `req_close_fds`, `lauSim_req_close_fd`, whether
-- `thr` is a thread, `lauSim_hooks`, and the fifo of the loop with the state of the system.
pub record Process (W H : Type 0) : Type 0 where
  pub is_init : Bool
  pub req_close_fds : ℤ × ℤ
  pub req_close_fd : ℤ
  pub thread : Bool
  pub hooks : Hooks H
  pub fifo : Fifo W

-- A call returns, or the process exits with a code behind the destructor, or the behaviour is undefined.
pub data Result (P : Type 0) : Type 0 where
  returned : ℤ → P → Result P
  exited : ℤ → P → Result P
  crashed : Result P

abbrev pub unset : {H : Type 0} → Hooks H
unset = record { socket = none; close = none; accept = none }

abbrev pub loaded : {W H : Type 0} → W → Process W H
loaded w = record {
  is_init = false;
  req_close_fds = (pos 0, pos 0);
  req_close_fd = pos 0;
  thread = false;
  hooks = unset;
  fifo = unopened w;
}

module _ {W H : Type 0} (sys : System W H) where
  abbrev pub in_world : W → Process W H → Process W H
  in_world w p = record p { fifo = record (p.fifo) { world = w } }

  -- `lauSim_hook_cleanup`: it waits for a thread, and closes the first descriptor twice.
  unfoldable pub hook_cleanup : Process W H → Run (Process W H)
  hook_cleanup p = elim p.hooks.close [
    | none ↦ undefined
    | some close ↦
        let (read_end, write_end) = p.req_close_fds in
        let w = sys.join (sys.write write_end (codes "X") p.fifo.world) in
        if p.thread
        then ok (in_world (sys.call_close close read_end (sys.call_close close read_end w)) p)
        else undefined
  ]

  -- `exit`, which runs the destructor of the library.
  unfoldable pub exit_process : ℤ → Process W H → Result (Process W H)
  unfolding hook_cleanup
  exit_process code p = elim (hook_cleanup p) [ undefined ↦ crashed | ok q ↦ exited code q ]

  -- `lauSim_resolve`, and what is done with the function.
  unfoldable pub resolve :
      Bytes → Process W H → (H → Process W H → Result (Process W H)) → Result (Process W H)
  unfolding exit_process
  resolve name p more =
      let (sym, w) = sys.dlsym name p.fifo.world in
      elim sym [ none ↦ exit_process (pos 1) (in_world w p) | some h ↦ more h (in_world w p) ]

  -- `lauSim_backend_init`
  unfoldable pub backend_init : Fifo W → Run (ℤ × Fifo W × Bool)
  backend_init f =
      let (made, w) = sys.create_thread f.world in ok (pos 0, record f { world = w }, made)

  -- `init_hooks` behind the hooks; the result of `lauSim_init` is dropped.
  unfoldable pub start_backend : Process W H → Result (Process W H)
  unfolding backend_init Start.init
  start_backend p = elim (Start.init sys.files backend_init p.fifo) [
    | undefined ↦ crashed
    | ok (ret, f, made) ↦ returned (pos 0) (record p { is_init = true; thread = made; fifo = f })
  ]

  -- The three assignments to `lauSim_hooks`, each with what follows it.
  unfoldable pub with_accept : H → Process W H → Result (Process W H)
  unfolding start_backend
  with_accept h p = start_backend (record p { hooks = record (p.hooks) { accept = some h } })

  unfoldable pub with_close : H → Process W H → Result (Process W H)
  unfolding resolve with_accept
  with_close h p =
      resolve (codes "accept") (record p { hooks = record (p.hooks) { close = some h } })
        with_accept

  unfoldable pub with_socket : H → Process W H → Result (Process W H)
  unfolding resolve with_close
  with_socket h p =
      resolve (codes "close") (record p { hooks = record (p.hooks) { socket = some h } }) with_close

  unfoldable pub init_hooks : Process W H → Result (Process W H)
  unfolding resolve with_socket
  init_hooks p =
      if p.is_init
      then returned (pos 0) p
      else (let (ends, w) = sys.pipe p.fifo.world in
          elim ends [
            | none ↦ returned (pos 1) (in_world w p)
            | some fds ↦
                resolve (codes "socket")
                  (record (in_world w p) { req_close_fds = fds; req_close_fd = fds.0 }) with_socket
          ])
