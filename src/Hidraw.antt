-- ===== src/Hidraw.antt =====
-- The hidraw backend, linux/freespace_hidraw.c.
pub mod Types
pub mod Table
pub mod Session
pub mod Scan
pub mod Io
pub mod Poll
pub mod Writer
pub mod Keep
pub mod Listing
pub mod Reach
