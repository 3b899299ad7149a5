-- ===== src/Kernel.antt =====
-- The kernel, a guest program of the machine.
pub mod Divmod
pub mod Files
pub mod Sched
pub mod Console
pub mod Clock
pub mod Trap
pub mod FileCalls
mod Tests
