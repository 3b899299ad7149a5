-- ===== src/Machine/Devices.antt =====
-- The devices behind the memory map: frame buffer, clock and timer, machine description.
pub mod Frame
pub mod Time
pub mod Sysinfo
