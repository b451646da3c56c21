-- ===== src/Lib.antt =====
-- A model of the Lucet compiler and runtime: what the compiler collects and lays out for a
-- module, the memory of WebAssembly instances and the control of a running instance by kill
-- switches.
--
-- The parts of the program and their files
-- LucetModule/: the data of compiled modules in lucet-module/src. LinearMemory.antt is
--   linear_memory.rs (heap specs, sparse page data), Globals.antt is globals.rs, VersionInfo.antt
--   is version_info.rs, Bindings.antt is bindings.rs, with JSON as a data type, and Traps.antt is
--   traps.rs with the function specs of functions.rs and `lookup_trapcode` of the runtime's
--   module.rs.
-- Lucetc/: the compiler in lucetc/src. ModuleInfo.antt is module.rs: the state that the
--   WebAssembly reader fills, one function per method; ModuleInfo/Declarations.antt has the
--   methods as values and what the reader has checked before each. Decls.antt is the memory and
--   globals of decls.rs with heap.rs, Decls/Functions.antt its functions, with the module data,
--   and Decls/Assembly.antt its tables and constructor; SparseData.antt is sparsedata.rs,
--   Table.antt is table.rs, InstructionCount.antt is the counting of function.rs, with the added
--   code as a list, Validate.antt is validate.rs and Types.antt is types.rs. Wasm.antt has the
--   types of the reader.
-- Runtime/: lucet-runtime/lucet-runtime-internals/src. Error.antt is error.rs with TrapCode.
--   Limits.antt is `Limits` of alloc/mod.rs. Module.antt is the trait `ModuleInternal` of
--   module.rs as a record of what its methods return, with `validate_runtime_spec`. Slot.antt is
--   `Slot`, its layout by `MmapRegion::create_slot` and `Alloc::addr_location`. Alloc.antt is the
--   rest of `Alloc`: the checks of `expand_heap`, `mem_in_heap` and `AllocStrategy::next`.
--   Instance.antt is instance.rs with instance/state.rs: the states of an instance and the end of
--   a run; Instance/Run.antt has its operations, Val.antt is val.rs. Instance/Linear.antt is the
--   memory as WebAssembly specifies it. Signals.antt is the decision of `handle_signal` in
--   instance/signals.rs. Kill.antt is `KillState` and `KillSwitch` of instance/execution.rs with
--   the part of `handle_signal` that works on them.
-- Runtime/Mmap.antt is region/mmap.rs on the memory of a slot, and Runtime/Region.antt is its
--   free list. Runtime/Uffd.antt is region/uffd.rs: the retries and what is done for a fault at
--   each place; Uffd/Handler.antt is the handler thread, and Uffd/Region.antt is the region with
--   its slots.
-- Runtime/Kill/World.antt runs one thread with an instance against any number of kill switches. A
--   step is one atomic access or one section under a lock; `Reach` is every interleaving.
--   Runtime/Uffd/Guest.antt runs a guest against the handler of its page faults; `Guest` is every
--   order of faults and writes.
-- Prelude/ has the words of an x86-64 host (release builds: arithmetic wraps), results with a
--   value for a panic, and results with a state. Tests/ runs the theorems on concrete inputs.
--
-- How the parts interact: a region turns limits into slots, an alloc owns a slot and its sizes,
-- and asks the region to change the protection of its memory; a signal handler asks the alloc
-- where a fault lies and the kill state whether an alarm counts. The handler of a lazy region
-- finds the instance of a fault at the start of its slot, and asks its alloc and its module what
-- belongs on the page.
--
-- An instance holds a machine (the alloc and the memory of its slot) and a kill state; what the
-- guest does between two context switches is an argument of the operations that run it.
--
-- The compiler writes a heap specification and pages into a module; the runtime checks the first
-- and copies the second into the heap of a slot when an instance is made or reset, or page by
-- page when the guest touches a lazy heap.
--
-- What is a parameter: Cranelift's signatures and their comparison (`Clif`), its declarations
-- (`Declarer`), the validator as module.rs sees it (`ValidatorOps`, which Validate.antt fills),
-- witx documents, the binary search of slices; the virtual memory (`Vm`) with the documented
-- behaviour of mprotect(2) and madvise(2) as laws, which Runtime/Vm/Plain.antt satisfies; the
-- memory behind a userfaultfd handle (`Userfault`) with the documented behaviour of its ioctls,
-- which Runtime/Userfault/Lazy.antt satisfies, and what the handle and the pipe report to the
-- handler thread; the random generator of a strategy; the signal stack size of the platform; the
-- preparation of a guest's context, which is assembly, and the dynamic loader's details of an
-- address. The page size is 4096, as lucet-module assumes.
--
-- There is no fuel but in `split`, whose rounds are the bytes of the initializer, and each round
-- takes one at least, and in `retry`, which is given one round more than the limit of retries.
-- The other loops run over lists, page counts and moves.
--
-- What is not modelled: context switches and assembly, dynamic loading, the end of a lazy region,
-- the C interface, the generation of code and objects by Cranelift, the WASI bindings, and test
-- points.
--
-- Panics are values. An `Error` keeps its variant and message, without the numbers in the
-- message.
pub mod LucetModule
pub mod Lucetc
pub mod Prelude
pub mod Runtime
pub mod Tests
