-- ===== src/Lib.antt =====
-- The page-mapped flash translation layer of the OpenSSD Jasmine firmware (`ftl_page_mapped/`).
-- Host sectors are written to log blocks; a table in DRAM maps each chunk to its place. For
-- each bank a heap in DRAM holds the number of valid chunks of every log block, and garbage
-- collection takes the block with the fewest from it; the clean log blocks wait in a linked
-- list of the bank.
--
-- - `Common` (with `Common/Tests`, `Common/Words`, `Common/Runs`): shared names, tests on
--   native numbers, machine words, and runs on fuel with their total correctness.
-- - `Params`: the geometry, from `include/jasmine.h`, `include/nand.h`, `include/bank.h` and
--   `ftl_page_mapped/ftl_parameters.h`.
-- - `Dram`: `_read_dram_32` and `_write_dram_32` of `target_spw/mem_util.c`. The memory is a
--   function of physical addresses, between whose 128-byte units stand 4 bytes of parity.
-- - `Heap`: `ftl_page_mapped/heap.c`. `swap`, `bubble_down`, `bubble_up`,
--   `increment_valid_chunks_by_n` and so on carry the source's names in snake case; the state
--   is `HeapData` (`heapData`) together with the memory. `Heap/Cells` has the laws of single
--   cells, `Heap/View` the abstract view (a number and a membership for each block) and the
--   invariant, `Heap/Swap`, `Heap/Kept`, `Heap/Down` and `Heap/Up` the two ways to restore the
--   order, `Heap/Change`, `Heap/Update`, `Heap/Resize`, `Heap/Remove`, `Heap/Reset`,
--   `Heap/Insert`, `Heap/DecrementAll`, `Heap/Victim` and `Heap/Init` the operations,
--   `Heap/Apart` the independence of banks and heaps, `Heap/Underflow` and `Heap/Disorder` the
--   cases where the order is lost.
-- - `Dram/Bytes`: the 16-bit, 8-bit and single-bit accesses of `target_spw/mem_util.c`, with
--   their laws in `Dram/Bytes/Laws`.
-- - `Flash`: the wrappers of `target_spw/flash_wrapper.c`. A command to the controller is the
--   value of its registers; what the controller and the searching engine do is a parameter
--   `Hardware`, and `Flash/Laws` names what the firmware relies on: a program and an erasure do
--   not change the DRAM, and the search finds the value if it is there.
-- - `World`: the globals of the translation layer, the memory and the commands issued, the last
--   one first.
-- - `Gc`: `initGC` and `readPage` of `ftl_page_mapped/garbage_collection.c`, and in `Gc/Banks`
--   the choice of the banks in `garbageCollectLog`. `Gc/Window` and `Gc/Choice` are about
--   `initGC`, `Gc/Scan`, `Gc/Page` and `Gc/Recycled` about a round of `readPage`, `Gc/ReadPage`
--   about all its rounds, and `Gc/Release` about the end of a collection; `Gc/Idle` puts the
--   choice and the end together for a victim without valid chunks. `Gc/Write` is `writePage`
--   with the functions of `ftl_page_mapped/write.c` that it calls, `Gc/Write/Full` and
--   `Gc/Write/Page` are about its two ways, and `Gc/Write/Takes` about one chunk.
-- - `Read`: how `ftl_page_mapped/read.c` reads chunks that lie in flash. `Read/View` says what
--   the log holds for a chunk, `Read/Gather`, `Read/Copy` and `Read/Flash` are about the reads,
--   `Read/Encoded` about a recycled page, and `Read/Served` says that the log stays while it is
--   read. `Flash/Reader` says what the firmware relies on when it reads from flash.
-- - `Rebuild`: `rebuildPageToFtlBuf` of `ftl_page_mapped/read.c`, with `Rebuild/Page` about a
--   whole page.
-- - `Host`: `readFromLogBlk` and `ftl_read`; `Host/Read` is about a page and `Host/Request`
--   about a request. `Loss` has the three calls that take a chunk from its block, and
--   `Loss/View` what they do under the view of the bank.
-- - `Trim`: `ftl_trim` and `trimRange`; `Trim/Whole` is about the range and `Trim/Chunk` about
--   one chunk.
-- - `Write`: `ftl_page_mapped/write.c`, with `precacheLowPage` of `ftl_page_mapped/log.c`.
--   `Write/Flush` writes a full log buffer to flash, `Write/Old` replaces a chunk, `Write/Page`
--   has `writeToLogBlk`, and `Write/Request` has `ftl_write` of `ftl_page_mapped/ftl.c`,
--   `Write/Request/Whole` being about requests of whole chunks. `Write/Old/Written` is about
--   one chunk, with `Write/Old/Finished`, `Write/Old/Buffer`, `Write/Old/Recorded`,
--   `Write/Old/Dropped` and `Write/Old/Logged`, `Write/Old/Bounds` about where it is written
--   to, and `Write/Old/Overrun` about a part of an encoded one.
-- - `Bank`: the abstract view of a bank, with the numbers of valid chunks and the members of
--   its three heaps and the queue of its clean blocks. `Bank/Heaps` and `Bank/Drop` show what
--   the operations of the heaps and of the list do under this view, and `Bank/Start` that the
--   start leaves a fresh one.
-- - `CleanList`: `ftl_page_mapped/cleanList.c`. The state is `ListData` (`listData`) together
--   with the memory. `CleanList/Chain` says what a chain of nodes is, `CleanList/Queue` relates
--   it to a queue of blocks, `CleanList/Writes` has the effect of a write to a node,
--   `CleanList/Rows` and `CleanList/Init`, `CleanList/Pushed` and `CleanList/Push`, and
--   `CleanList/Pop` the operations.
-- - `Layout`: the segments of DRAM, from `ftl_page_mapped/dram_layout.h` and
--   `ftl_page_mapped/ftl_parameters.h`.
-- - `Log`: parts of `ftl_page_mapped/log.c`. `Log/Chunk` has the addresses of chunks and
--   `findChunkLocation`, `Log/Complete` has `getLpnForCompletePage`, `Log/Cold` has
--   `increaseLpnColdBlk` with `Log/Cold/Next` about it, the rest is `initLog`. The state is
--   `LogState`, the globals that the function sets; `Log/Fill` has the loop that hands out the
--   clean blocks and `Log/Start` the whole.
-- - `Ftl`: `init_metadata_sram` of `ftl_page_mapped/ftl.c`, which sets up three heaps
--   (`HeapData` each: first usage, second usage, cold) and the log in one memory; `Ftl/Start`
--   puts the components' results together, with `Heap/Region` for the memory of a whole heap
--   and `CleanList/Apart` for the independence of the lists.
-- - `Heap/Sample`, `Heap/Tests`, `CleanList/Tests`, `Log/Tests`, `Ftl/Tests`, `Gc/Sample`,
--   `Host/Sample`, `Host/Tests`, `Trim/Tests`, `Write/Tests`, `Gc/Tests`, `Gc/Idle/Tests`,
--   `Gc/Write/Tests`: runs on concrete states.
--
-- A heap operation is given the memory and returns the new memory, with the new `HeapData`
-- where it changes. The loops of `bubbleDown` and `bubbleUp` run on fuel: as many rounds as
-- there are elements in the heap and one more, and as many as the position and one more. That
-- is enough, since the position at least doubles, or halves, in each round. In the clean list
-- an absent value stands for the endless loop `while(1)` in which the firmware stops after an
-- error. In the collector it also stands for the `while(1)` of the error paths. `readPage` has
-- 128 rounds, one more than the pages it may look at; the loop of `writePage` over the chunks
-- of a page has 9, one more than the chunks. `ftl_read` has one round more than there are
-- sectors, and `trimRange` likewise, and `ftl_write`.
--
-- The debugging options (OPTION_DEBUG_HEAP, OPTION_DEBUG_DRAM and so on) are 0 as in the
-- source, so their checks are left out, as is all printing. The copies of words go through the
-- memory utility of the hardware (`mem_copy`, `mem_set_dram`); the model reads and writes the
-- words where `_read_dram_32` reads them. A command to the flash controller transfers its data
-- when it is issued, so the waits for a bank are left out.
--
-- Not modelled are the loop of `garbageCollectLog`, the blocks for hot data and their reuse,
-- and `ftl_open` with the scan for bad blocks. The functions that the field `increaseLpn`
-- points to are an argument of `Gc/Write` and `Write`, for which `Gc/Write` also has
-- `increaseLpnColdBlk`. The SATA layer and the start-up code drive hardware registers, and the
-- installer is a tool of the host.
pub mod Common
pub mod Params
pub mod Dram
pub mod Bank
pub mod CleanList
pub mod Flash
pub mod Ftl
pub mod Gc
pub mod Heap
pub mod Host
pub mod Layout
pub mod Log
pub mod Loss
pub mod Read
pub mod Rebuild
pub mod Trim
pub mod World
pub mod Write
