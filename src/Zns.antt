-- ===== src/Zns.antt =====
-- The zoned namespace: zns_ftl.[ch], zns_mgmt_send.c, zns_mgmt_recv.c, zns_read_write.[ch].
pub mod Ftl
pub mod Address
pub mod Counts
pub mod Mgmt
pub mod Send
pub mod Write
pub mod Init
pub mod Read
pub mod Tests
