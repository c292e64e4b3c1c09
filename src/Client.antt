-- ===== src/Client.antt =====
-- client/src/client.c and client/include/interface.h: the process that passes the faults of a node on
-- to the fifo of its backend.
pub mod Start
pub mod Reported
use lau_sim.Base.{
  ℕ, Bool, true, false, List, [], ◌∷◌, ◌++◌, Option, none, some, Bytes, codes, int32,
}
use lau_sim.Libc.Number.{print_int}

-- `fault` of interface.h; `none` is a NULL pointer.
pub record ClientFault : Type 0 where
  pub component : Option Bytes
  pub severity : ℕ

-- `fprintf (fifo, "%s %d\n", …)`; `%d` at an `unsigned`
unfoldable pub print_command : ClientFault → Bytes
print_command f =
    (elim f.component [ none ↦ codes "power" | some c ↦ c ])
    ++ b' ' ∷ (print_int (int32 f.severity) ++ b'\n' ∷ [])

-- The loop over a batch: the first fault of all only starts the application.
unfoldable pub forward_faults : Bool → List ClientFault → Bool × Bytes
unfolding print_command
forward_faults synced [] = (synced, [])
forward_faults false (f ∷ fs) = let (synced, out) = forward_faults true fs in (synced, b'\n' ∷ out)
forward_faults true (f ∷ fs) =
    let (synced, out) = forward_faults true fs in (synced, print_command f ++ out)

-- The loop of `main` over the batches of `get_faults`, up to the request to stop, which ends in "exit".
unfoldable pub main_loop : Bool → List (List ClientFault) → Bytes
unfolding forward_faults
main_loop synced [] = codes "exit\n"
main_loop synced (fs ∷ fss) =
    let (synced', out) = forward_faults synced fs in out ++ main_loop synced' fss

-- What `main` writes to the fifo.
unfoldable pub main : List (List ClientFault) → Bytes
unfolding main_loop
main fss = main_loop false fss
