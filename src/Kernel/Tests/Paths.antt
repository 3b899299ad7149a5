-- ===== src/Kernel/Tests/Paths.antt =====
-- Opening a device by name.
use lamp_vm.Common.Tests.{ℕ, ◌-◌, leb, if◌then◌else◌}
use lamp_vm.Common.Arrays.{get_or}
use lamp_vm.Kernel.Clock.{Kernel}
use lamp_vm.Kernel.Clock.Times.{no_offset}
use lamp_vm.Kernel.FileCalls.{dev_tty_path}
use lamp_vm.Kernel.Tests.Tasks.{memory_zero}

-- The path of the terminal at 0x3000.
abbrev tty_memory : ℕ → ℕ
tty_memory a = if leb 0x3000 a then get_or dev_tty_path (a - 0x3000) 0 else 0

abbrev tty_kernel : Kernel
tty_kernel = record { memory = tty_memory; realtime_offset = no_offset; sched = memory_zero }
