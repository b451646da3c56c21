-- ===== src/Runtime.antt =====
-- lucet-runtime-internals: memory, regions, instances and their termination.
pub mod Error
pub mod Limits
pub mod Module
pub mod Slot
pub mod Vm
pub mod Alloc
pub mod Mmap
pub mod Kill
pub mod Val
pub mod Instance
pub mod Region
pub mod Userfault
pub mod Uffd
pub mod Signals
