-- ===== src/Lib.antt =====
-- NVMeVirt emulates an NVMe device in a kernel module: io.c takes commands off the queues and calls
-- the handler of the namespace's kind (conventional, zoned, key-value or simple), which decides the
-- status and the time at which the command completes. The handlers ask the model of the flash device
-- (ssd.c), which asks the bandwidth model of each channel and of the PCIe link (channel_model.c).
--
-- Base holds what the rest shares: Boolean tests (Base/Tests), machine words with their wrap-around
-- (Base/Words), arrays as functions with sums over them (Base/Arrays), laws of quotients
-- (Base/Numbers), and Base/Run, the result of a kernel function: a value, a BUG, or a loop that has used
-- up its fuel. Undefined behaviour is a BUG too: an access past an array's end (a channel, a die, a zone,
-- an entry of a table of latencies), an unset variable, a division by zero, an `int` that overflows while
-- the geometry is computed or the page tables are set up. Where a definition divides or multiplies
-- without such a test, the hypotheses of the theorems about it say that the divisor is not 0 and that
-- the product fits.
--
-- Ssd models the device.
--   Ssd/Config: ssd_config.h and ssd_config.c, one configuration for each kind of device.
--   Ssd/Params: ssd_init_params of ssd.c; Params/Geometry its result, Params/Products the arithmetic.
--   Ssd/Ppa, Ssd/Buffer: struct ppa and struct buffer of ssd.h with the buffer operations of ssd.c.
--   Ssd/Channel: channel_model.c. chmodel_request and chmodel_request_copy keep the names of the
--     source. The loop of a request has as fuel the 98304 entries of the ring, which it passes at
--     most once; the loop of a copy has the credits that it has left to pay. Channel/Transfer,
--     Channel/Request and Channel/Copy are about the loop and the two functions.
--   Ssd/Nand: ssd_advance_nand and the functions beside it. The clock is a parameter that gives the
--     time of its n-th reading. The loop over the chunks of a read has the bytes to read as fuel.
--     Nand/Transfer is about the transfers, Nand/Advance about the whole command.
--   Ssd/Tests: a small device.
--
-- Zns models the zoned namespace.
--   Zns/Ftl: the state (zns_ftl.h, nvme_zns.h), with the counters of zone resources.
--   Zns/Address: the address arithmetic of zns_ftl.h and zns_read_write.h; Address/Stripe its bounds.
--   Zns/Counts: what it means that the counters agree with the states of the zones.
--   Zns/Mgmt: the actions of zns_mgmt_send.c, each a switch on the state of the zone (`..._from`).
--     Mgmt/Resources, Leave, Reset, Open and Flush follow the counters through them.
--   Zns/Send: __zmgmt_send and zns_zmgmt_send. The loop over the pages of a reset has as fuel the
--     pages of the request and one more round. Send/Frame and Send/Erase say what stays the same,
--     Send/Total and Send/Machine and Send/Conforms are about the whole command.
--   Zns/Write: __zns_write of zns_read_write.c, in parts: the tests and the zone's state
--     (Write/Admit), the write pointer (Write/Pointer), the transfer and the programs of whole pages
--     (Write/Loop), the write as a whole (Write/Total).
--     The loop over the pages has as fuel the pages of the request and one more round.
--   Zns/Read: zns_read; Read/Total the read as a whole. Its loop has the same fuel.
--   Zns/Init: zns_init_params and zns_init_ftl.
--   Zns/Tests: a small namespace.
--
-- Conv models the conventional FTL (conv_ftl.h, conv_ftl.c).
--   Conv/Pqueue: the priority queue of victim lines, which is a copy of a library: a record of
--     operations that also change the lines, as its callbacks do, and the laws that the FTL uses.
--   Conv/Ftl: the state of an instance and the accessors of its tables; Conv/Frame what stays.
--   Conv/Index: the index of a page.
--   Conv/Pages: the marks on pages, blocks and lines; Pages/Count and Pages/Counted say when the
--     counters are right, Pages/Valid and Pages/Invalid that the marks keep them so.
--   Conv/Lines: free, full and victim lines; Lines/Sum is about sums over a line.
--   Conv/Pointer: advance_write_pointer. The search for a chip has as fuel the number of chips
--     (Pointer/Search). Pointer/Reset is about the reset of the counters, Pointer/Fill how far a line
--     is filled, Pointer/Advance and Pointer/Turn about the way of the pointer of host writes.
--   Conv/Gc: the collector and the write credits. Its loops count up to a parameter of the device.
--   Conv/Write: conv_write; Write/Place, Write/Map and Write/Page are about the tables when a page is
--     mapped, Write/Step, Write/Healthy and Write/Round about a round of the loop. The loop over
--     the pages has as fuel the pages of the request and one more round.
--   Conv/Read: conv_read, conv_flush and the dispatch; Read/Live and Read/Total are about a read.
--   Conv/Init: conv_init_ftl; Init/Fresh the new instance, Init/Listed its lines.
--   Conv/Tests: a small instance, with a list for the queue.
--
-- Simple models simple_ftl.c: the busy times of the io units, the loop over the units of a request,
-- flush and the dispatch. The loop has as fuel the bytes of the request and one more round, since each
-- round takes off at least one. Simple/Units is about the time of a request, Simple/Flush about a
-- flush, Simple/Tests has eight units.
--
-- Alloc models bitmap.c, the bitmap allocator of the key-value FTL; the kernel's bitmap functions are
-- a record of operations, and Alloc/Place, which is about the places given out, has what their
-- documentation says of them. Alloc/Tests has functions that search bit by bit.
--
-- Not modelled: the key-value FTL, the queues and worker of io.c, append_only.c, saving
-- and loading, admin commands, PCI, DMA and module set-up; writes into a ZRWA, reports, flush and
-- dispatch of the zoned namespace; the fragmenting writer of conv_ftl.c; allocation and removal of
-- objects; locks, since each operation is one step; the copied library pqueue/.
pub mod Alloc
pub mod Base
pub mod Conv
pub mod Simple
pub mod Ssd
pub mod Zns
