-- ===== src/Lib.antt =====
-- Verification of the Malleus RTOS: the kernel's scheduling and time, the build-time analysis, the
-- manifest and its validator, the command line tool, the build tasks, and the startup and fault capture
-- of the Cortex-M port.
--
-- A manifest (malleus.toml) declares the tasks and channels of a system. crates/malleus-manifest reads
-- and validates it, crates/malleus-analyzer computes response times from the validated declarations,
-- and tools/cargo-malleus joins the two into the commands `check` and `analyze`. On the device,
-- crates/malleusrt holds the kernel's data and crates/malleus-arch the contract with a port, of which
-- crates/malleus-arch-cortex-m is one. xtask runs the repository's own checks.
--
-- Base: numbers with the bounds of machine words, bits, lists, texts as code points, decimals, results.
-- Arch/Time: crates/malleus-arch/src/time.rs, `Instant` and `TickRate`; Rounding is `ticks_from_micros`.
-- Arch/Timer: the timer of time.rs. The trait is a record over a state of the hardware, and `IsLawful`
-- is what its documentation asks of a port.
-- Arch/Memory, Arch/Errors: crates/malleus-arch/src/memory.rs and lib.rs; the trait is a record over a
-- state of the hardware.
-- Arch/Conformance: crates/malleus-arch/src/conformance.rs, the checklist of the ports.
-- Kernel/Sched: crates/malleusrt/src/sched.rs, `Priority` and `ReadySet`, a word with a bit a priority;
-- ReadySet/History has the histories of wake-ups and suspensions and the set that they describe.
-- Kernel/Time: crates/malleusrt/src/time.rs, `Timeout` and `Period`; `advance` gives the new state, and
-- Time/Schedule has one call of it for each completion, and Time/Delay a delay on the timer's alarm.
-- Kernel/Task, Kernel/Fault, Kernel/Ipc, Kernel/Sync, Kernel/Errors: the data of task.rs, fault.rs,
-- ipc.rs, sync.rs and lib.rs of crates/malleusrt/src.
-- Analyzer/ResponseTime: crates/malleus-analyzer/src/response_time.rs; `verdict_for` and `analyse` are
-- the source's, with the loops over tasks and interferers as functions by recursion.
-- Analyzer/Schedule: the meaning of a response time. A processor is simulated tick by tick; the tasks
-- are released together and then at each multiple of their periods, and pending work of the tasks that
-- can preempt is served ahead of the task in question. Schedule/Sporadic is the same processor with
-- jobs that arrive at any ticks that are a period apart. Neither translates code.
-- Dispatch: the analysis and the kernel together. A device has a thread for each task with the work that
-- is pending; a released job wakes its priority in the `ReadySet`, each tick serves the priority that
-- `highest` gives, and a level with nothing left is removed. Driven takes the jobs from the kernel's
-- `Period`, Synchronous has all tasks released together, Shared two tasks of one level. The loop translates no code, since the
-- kernel has the set and no scheduler yet; `insert`, `remove` and `highest` in it are the source's.
-- Manifest/Units: crates/malleus-manifest/src/units.rs; Order is that of durations and their ticks,
-- Meaning says what a written duration stands for.
-- Manifest/Schema, Manifest/Diagnostics, Manifest/Checks, Manifest/Validate: crates/malleus-manifest's
-- lib.rs and validate.rs. A check is a function that gives the diagnostics it pushes, in their order.
-- CargoMalleus: tools/cargo-malleus/src. Check and Analyze are the commands up to their exit codes, a
-- panic is an outcome; Main is the handling of the arguments, the dispatch and the exit status. The
-- parser of the arguments, which may itself end the process, comes to a `CommandLine`.
-- CortexM/Startup: crates/malleus-arch-cortex-m/src/startup.rs. A memory is a function from addresses
-- to words, `copy_data` and `zero_bss` are the stub's loops, `reset` is `Reset` up to the idle loop.
-- CortexM/Fault: crates/malleus-arch-cortex-m/src/fault.rs; a volatile store is a step of the record
-- that survives, the registers and the memory are arguments. The volatile write of the whole evidence is
-- a store of each of its words, in an order that is an argument, `WriteOrder`, for the language leaves it open; of it the code
-- relies on no more than that all the words are written in the end.
-- CortexM/FaultEntry: the same file's assembly. `fault_entry` is the assembly; `Machine` runs the reset,
-- the entry, the assembly and the capture in steps, and `Reach` lets a fault strike between any two.
-- CortexM/PriorityBits: crates/malleus-arch-cortex-m/src/lib.rs.
-- Codegen: crates/malleus-codegen/src/lib.rs and crates/malleus-trace/src/lib.rs.
-- Xtask: xtask/src/main.rs; a task is a function from the log of the commands run before it.
--
-- Unsigned words are natural numbers with the saturation, the check or the wrap written out. The
-- recurrence runs on the source's own bound of 1000 iterations; doubling to a power of two runs on a
-- fuel of 64, which the 64 bits of the word make enough; the loops of the reset stub run on a fuel of
-- one unit a test, for which more units than words in a section are enough. The order in which a hash
-- map hands out its entries, the readers of TOML, files and arguments, and the way a command ends are
-- arguments. An abort of the validator has no value. `Reach` of CortexM/FaultEntry starts after the first
-- store of the reset stub, `FromVector` of FaultEntry/Vector before it, and the machine takes the copying
-- of memory as one step.
--
-- Not modelled: writing to the terminal; the padding of the report's columns; the traits of context
-- switches and critical sections, which have no code and no caller; linker scripts, boards and the runtime
-- crate, which have no logic. Traits of serialisation and derived comparisons are the libraries'.
pub mod Base
pub mod Arch
pub mod Analyzer
pub mod Manifest
pub mod Kernel
pub mod CargoMalleus
pub mod CortexM
pub mod Dispatch
pub mod Codegen
pub mod Xtask
