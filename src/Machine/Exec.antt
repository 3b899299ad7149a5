-- ===== src/Machine/Exec.antt =====
-- The cases of the switch in `vm_instruction_case`, grouped by what they act on, and the dispatch.
pub mod Base
pub mod Alu
pub mod Branch
pub mod Transfer
pub mod Atomic
pub mod System
pub mod Float
pub mod Compare
pub mod Calls
