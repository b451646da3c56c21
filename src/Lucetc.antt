-- ===== src/Lucetc.antt =====
-- lucetc: the compiler's module declarations and the data it lays out for the runtime.
pub mod Error
pub mod Wasm
pub mod SparseData
pub mod ModuleInfo
pub mod Decls
pub mod Table
pub mod InstructionCount
pub mod Validate
pub mod Types
