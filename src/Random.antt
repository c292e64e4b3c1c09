-- ===== src/Random.antt =====
-- plugins/random/random.c and random.h: a fault manager that lets nodes fail at random.
mod Defs
pub mod Health
pub mod Init
pub mod Memory
pub mod Names
unfoldable pub use Defs.*
