-- ===== src/LucetModule.antt =====
-- lucet-module: the data that the compiler writes into a module and the runtime reads back.
pub mod LinearMemory
pub mod Globals
pub mod VersionInfo
pub mod Bindings
pub mod Traps
