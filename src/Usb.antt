-- ===== src/Usb.antt =====
-- The libusb backend, linux/freespace.c.
pub mod Types
pub mod Status
pub mod Table
pub mod Library
pub mod Scan
pub mod Message
pub mod Receive
pub mod Queue
pub mod Session
pub mod Send
pub mod Poll
