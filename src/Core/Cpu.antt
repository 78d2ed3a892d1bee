-- ===== src/Core/Cpu.antt =====
-- Core/TMC0501.cpp and Core/TMC0501.hpp: the processor, one module for each group of instructions.
mod Examples
pub mod State
pub mod FlagOps
pub mod Keyboard
pub mod Printer
pub mod CardReader
pub mod LibraryModule
pub mod ExecAlu
pub mod Control
pub mod Multiplex
pub mod Tracing
pub mod Step
pub mod Kept
pub mod Reset
