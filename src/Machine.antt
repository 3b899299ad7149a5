-- ===== src/Machine.antt =====
-- The virtual machine.
pub mod State
pub mod Devices
pub mod Mmio
pub mod Memory
pub mod Stack
pub mod Interrupt
pub mod Flags
pub mod Decode
pub mod Io
pub mod Exec
pub mod Step
pub mod Invariant
mod Tests
