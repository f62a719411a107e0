-- ===== src/Lib.antt =====
-- The simulated memory hierarchy of an Intel Kaby Lake processor: virtual and physical addresses,
-- the page walk through four levels of page tables, the TLB hierarchy, and the two-level caches.
--
-- How the parts of the program interact. A virtual address (addr.h, addr_mng.c) goes to
-- `tlb_search` (tlb_hrchy_mng.c), which asks the level-1 TLB of the access (instructions or data),
-- then the level-2 TLB, then `page_walk` (page_walk.c) over the page tables in main memory, and
-- fills the TLBs on its way. The other `tlb_search` (tlb_mng.c) has one fully associative TLB, and
-- a list (list.c) of its lines in the order of their last use. The physical address goes to
-- `cache_read` (cache_mng.c), which asks the level-1 cache of the access, then the level-2 cache,
-- then main memory, and replaces the least recently used entry (lru.h). Command files (commands.c)
-- list the accesses. The test programs run them: test-tlb_hrchy.c through the TLBs, test-tlb_simple.c
-- through the fully associative TLB, and test-cache.c through the page walk and the caches.
--
-- Which file models which part:
--   Base        Boolean tests, casts to widths, shifts, `&` and `|` as arithmetic
--   Outcome     error.h and error.c: error codes, messages, M_REQUIRE and M_REQUIRE_NON_NULL
--   Addr        addr.h, addr_mng.c, and phy_addr_t_to_uint32_t of cache_mng.c
--   Memory      the block `mem_space`: bytes, and words of four bytes; memory.c:
--               mem_init_from_dumpfile and page_file_read in Memory/Load,
--               mem_init_from_description in Memory/Describe, the printing of a page in Memory/Print
--   PageWalk    page_walk.c: read_page_entry and page_walk
--   TlbHrchy    tlb_hrchy.h, tlb_hrchy_mng.c and mem_access.h: the functions on one TLB and
--               tlb_search_invalid; tlb_search is in TlbHrchy/Search
--   Lists       list.h and list.c: doubly linked lists in a heap of nodes; clear_list in Lists/Clear,
--               print_list and print_reverse_list in Lists/Print
--   TlbMng      tlb.h, tlb_mng.h and tlb_mng.c: the fully associative TLB; tlb_hit and tlb_search are
--               in TlbMng/Search
--   Cache       cache.h, lru.h and cache_mng.c: entries, flushing and insertion; the ages, find_place
--               and apply_lru in Cache/Lru; cache_hit in Cache/Hit; cache_read in Cache/Read,
--               cache_read_byte in Cache/Bytes, cache_write in Cache/Write, cache_write_byte in
--               Cache/WriteByte, cache_dump in Cache/Print
--   Commands    commands.h and commands.c: a program as a block of commands, which grows;
--               next_nonspace_read, read_read and read_write in Commands/Reader, program_read in
--               Commands/ReadFile, program_print in Commands/Print
--   Runs        the drivers: execute_command and the loop of test-cache.c in Runs/CacheRun, the runs
--               of test-tlb_hrchy.c in Runs/TlbRun and of test-tlb_simple.c in Runs/FullRun
--   Tests       runs of the definitions and the theorems at concrete inputs
-- The other modules below these hold the proofs; each says at its top what it is about. The macros
-- of the source that are instantiated at three types are one definition that takes the kind of TLB
-- or cache, and `TlbKind` and `CacheKind` give the numbers of lines, ways and bits.
--
-- How C is read. A pointer argument is an `Option`, NULL is `none`; an object that a function
-- writes through a pointer is a value that its model takes and gives back. An array is a function
-- of the index; the model says where the code leaves it. A call comes to an `Outcome`: it returns
-- a code and leaves a state, it refuses its arguments before it has written anything, or it does
-- what C leaves undefined (`fault`). Unsigned numbers are natural numbers with their wrap-around
-- written out, and a store into a bit field keeps the low bits. Memory is little-endian. A `char` has
-- a sign; the model keeps its byte, and notes in `undefined` of a file where that is no argument for
-- `isspace`.
--
-- The nodes of a list stand in a heap, a partial function of the address; a read, write or `free`
-- where no node stands is undefined. The function pointers of `replacement_policy_t` are fields.
--
-- Parameters. What a `malloc` of a node gives is the argument `malloc`, and what `fprintf` returns
-- is `Stream`. `isspace` and `fscanf` are in `Stdio`, what `fprintf` writes of a number in
-- `Formats`, and what variables that are not set hold in `Round`; `fopen` is an argument, `Disk`
-- for memory.c, whose `sscanf` is in `Sscanf`. Whether another `malloc` gives memory is an
-- argument (`Malloc`, `malloc` of `Machine`, `given` of `Allocation` and of `MemSpace`); what that
-- memory holds is `fresh`, and how the bytes of a level-1 entry read as a level-2 entry is `as_l2` (and `as_l1`
-- the other way round). Both levels' entries have one size, and `v` is the first bit of each.
--
-- Bounds. The loops over lines and ways recur on the rounds that are left, so they take no fuel
-- and every function of the model is total. A loop that follows the pointers of a list takes
-- `rounds`, and answers `none` if they do not suffice, as where C leaves it undefined; the
-- theorems give a round for each node, and then the loop comes to its end. So does program_read
-- with a round more than the file has bytes.
--
-- Not modelled: enumerators out of range; the closing of files and errors of the stream (ferror); the
-- messages of a build with DEBUG; negative numbers in a description, and a `calloc` of its buffers for
-- names that fails; the unit tests and the checks of the arguments of the test programs.
-- What is printed is a list of pieces, one for each text with its numbers; how a number is written is
-- left to `fprintf`.
pub mod Base
pub mod Outcome
pub mod Addr
pub mod Memory
pub mod PageWalk
pub mod TlbHrchy
pub mod Lists
pub mod TlbMng
pub mod Cache
pub mod Commands
pub mod Runs
pub mod Tests
