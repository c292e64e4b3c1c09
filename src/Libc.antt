-- ===== src/Libc.antt =====
-- What the plugins use of the C library, on C strings as lists of bytes.
pub mod Text
pub mod Case
pub mod Format
pub mod Number
