-- ===== src/Recording.antt =====
-- The file that the transcribe plugin (plugins/transcribe/transcribe.c) writes and the replay plugin
-- (plugins/replay/replay.c) reads.
pub mod Format
pub mod Names
pub mod Lines
pub mod Transcript
mod Nodes
mod Tics
mod Sections
pub mod Replayed
pub mod Served
pub mod OfRandom
