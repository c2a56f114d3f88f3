-- ===== src/CargoMalleus.antt =====
-- tools/cargo-malleus: the command line tool behind its argument parser.
pub mod Outcome
pub mod Command
pub mod Check
pub mod Analyze
pub mod Main
mod Examples
