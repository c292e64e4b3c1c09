-- ===== src/Preload.antt =====
-- client/src/preload.c and preload.h: the library that is loaded into the application, keeps the vector
-- of its network sockets, and shuts them down when the network fails.
mod Defs
pub mod Sockets
pub mod View
pub mod Memory
pub mod Start
pub mod Life
unfoldable pub use Defs.*
