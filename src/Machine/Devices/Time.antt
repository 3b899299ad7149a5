-- ===== src/Machine/Devices/Time.antt =====
-- io_devices/time: the clock registers with their latches (time_mmio_register.c, `get_timer` of
-- timer.c) and the programming of the periodic timer (`handle_programmable_tick`).
use lamp_vm.Common.Tests.{ℕ, ◌+◌, ◌-◌, ◌%◌, ◌^◌, true, false, ltb, ◌==◌, if◌then◌else◌}
use lamp_vm.Common.Word.{u32, sub32, ◌>>>◌}
use lamp_vm.Machine.State.{Vm, time_base}

pub data Clock : Type 0 where
  realtime monotonic boot : Clock

-- `get_timer` latches the clock and returns the low half of what it latched.
unfoldable pub get_timer : Clock → Vm → ℕ × Vm
get_timer realtime vm =
    (u32 vm.host_realtime_ns, record vm { latched_realtime = vm.host_realtime_ns })
get_timer monotonic vm =
    (u32 vm.host_monotonic_ns, record vm { latched_monotonic = vm.host_monotonic_ns })
get_timer boot vm =
    let t = (vm.host_monotonic_ns + 2 ^ 64 - vm.start_monotonic_ns) % 2 ^ 64 in
    (u32 t, record vm { latched_boottime = t })

unfoldable pub time_read32 : ℕ → Vm → ℕ × Vm
time_read32 addr vm =
    let offset = sub32 addr time_base in
    if offset == 0x00
    then (1, vm)
    else if offset == 0x04
    then get_timer realtime vm
    else if offset == 0x08
    then (u32 (vm.latched_realtime >>> 32), vm)
    else if offset == 0x0C
    then get_timer monotonic vm
    else if offset == 0x10
    then (u32 (vm.latched_monotonic >>> 32), vm)
    else if offset == 0x14
    then get_timer boot vm
    else if offset == 0x18
    then (u32 (vm.latched_boottime >>> 32), vm)
    else (0, vm)

abbrev pub timer_min_period_us : ℕ
timer_min_period_us = 1000

unfoldable pub handle_programmable_tick : ℕ → Vm → Vm
handle_programmable_tick value vm =
    if value == 0
    then record vm { timer_enabled = false; timer_period_us = 0; timer_next_deadline_ns = 0 }
    else record vm {
      timer_period_us = if ltb value timer_min_period_us then timer_min_period_us else value;
      timer_next_deadline_ns = 0;
      timer_enabled = true;
    }

-- Only the control register is writable: any other write halts the machine.
unfoldable pub time_write32 : ℕ → ℕ → Vm → Vm
time_write32 addr value vm =
    if addr == time_base then handle_programmable_tick value vm else record vm { halted = true }
