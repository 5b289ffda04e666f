-- ===== src/Flash.antt =====
-- src/flash.rs: the driver of the serial NOR flash.
pub mod Align
pub mod Range
pub mod Fit
pub mod Mode
pub mod Instruction
pub mod Flags
pub mod Transfer
pub mod Device
pub mod Chip
pub mod Simulated
pub mod Program
pub mod Erase
pub mod Contents
pub mod Sessions
pub mod Setup
pub mod Reset
