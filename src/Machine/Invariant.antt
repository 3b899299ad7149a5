-- ===== src/Machine/Invariant.antt =====
-- The ranges that every call keeps: words in the registers, the frame buffer and the ports, bytes
-- in memory and in the serial queue, stack pointers inside their stacks.
pub mod Base
pub mod Store
pub mod Reads
pub mod Frames
pub mod Atomics
pub mod Instructions
pub mod Transfers
pub mod Ports
pub mod Devices
pub mod Floats
pub mod Rounds
