-- ===== src/Core.antt =====
-- Core/: the emulated hardware.
pub mod Alu
pub mod Ram
pub mod Rom
pub mod Cpu
pub mod Stepper
pub mod Machine
