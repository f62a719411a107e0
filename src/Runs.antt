-- ===== src/Runs.antt =====
-- The programs that drive the components: the command runs of test-cache.c, of test-tlb_hrchy.c and of
-- test-tlb_simple.c.
pub mod TlbRun
pub mod Walks
pub mod FullRun
pub mod Setup
pub mod Started
pub mod Answers
pub mod CacheRun
pub mod Flat
