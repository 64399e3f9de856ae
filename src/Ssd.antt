-- ===== src/Ssd.antt =====
-- The timing model of the flash device: ssd.h, ssd.c, channel_model.h and channel_model.c.
pub mod Config
pub mod Params
pub mod Ppa
pub mod Buffer
pub mod Channel
pub mod Nand
pub mod Tests
