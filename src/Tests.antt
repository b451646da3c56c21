-- ===== src/Tests.antt =====
-- The theorems at concrete inputs.
mod Data
mod Sizes
mod Heaps
mod Kills
mod Faults
mod Regions
mod Pagefaults
mod Instances
mod Compiler
mod Functions
mod Tables
mod Modules
mod Lookups
