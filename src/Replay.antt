-- ===== src/Replay.antt =====
-- plugins/replay/replay.c: a fault manager that reads its nodes and faults from a file that the
-- transcribe plugin has written. `getline` takes the next of the lines that are left.
mod State
mod Nodes
mod Tic
pub mod Settled
unfoldable pub use State.*
unfoldable pub use Nodes.*
unfoldable pub use Tic.*
