-- ===== src/Conv.antt =====
-- The conventional FTL: its state, and the operations of conv_ftl.c by what they work on.
pub mod Pqueue
pub mod Ftl
pub mod Index
pub mod Frame
pub mod Pages
pub mod Lines
pub mod Pointer
pub mod Gc
pub mod Write
pub mod Read
pub mod Init
pub mod Tests
