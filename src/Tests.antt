-- ===== src/Tests.antt =====
-- Concrete runs of the definitions, and the theorems at concrete inputs.
mod Data
mod Addresses
mod Tlbs
mod Caches
mod Commands
mod Files
mod Descriptions
mod Lists
mod FullTlb
mod Runs
mod Full
