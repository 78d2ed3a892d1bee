-- ===== src/Shared.antt =====
-- Shared/: what both front ends share above the machine.
pub mod Model
pub mod Freeze
pub mod Pacing
pub mod Runner
pub mod KeySequencer
pub mod TextUtil
pub mod Bcd
pub mod ModuleImage
pub mod CardFile
pub mod CardText
pub mod StateFile
pub mod StateApplier
pub mod ConstantMemory
mod Examples
