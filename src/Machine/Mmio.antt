-- ===== src/Machine/Mmio.antt =====
-- mmio.h and mmio.c: the lookup of a device by address with its one-entry cache, the calls of the
-- registered handlers, and the registration of the devices.
pub mod Cache
pub mod Registers
use lamp_vm.Common.Tests.{
  ℕ, ◌+◌, ◌-◌, ◌≤◌, ◌<◌, Bool, true, false, ◌&&◌, Option, some, none, List, [], ◌∷◌, ◌++◌, ltb, leb,
  if◌then◌else◌,
}
use lamp_vm.Common.Arrays.{length}
use lamp_vm.Common.Word.{u32}
use lamp_vm.Machine.State.{
  Vm, Outcome, ok, exit, Panic, M, MmioDevice, Handler, fb_handler, time_handler, sysinfo_handler,
  mmio_read, mmio_write, fb_size, fb_legacy_base, time_base, sysinfo_base,
}
use lamp_vm.Machine.Devices.Frame.{fb_read32, fb_write32}
use lamp_vm.Machine.Devices.Time.{time_read32, time_write32}
use lamp_vm.Machine.Devices.Sysinfo.{sysinfo_read32, sysinfo_write32, sysinfo_init_vendor}

abbrev pub covers : MmioDevice → ℕ → Bool
covers d addr = leb d.start addr && leb addr d.end

-- The loop over the registered devices.
unfoldable pub scan : List MmioDevice → ℕ → Option MmioDevice
scan [] addr = none
scan (d ∷ ds) addr = if covers d addr then some d else scan ds addr

-- What a scan found goes into the cache; a miss only clears the cached device.
unfoldable pub remember : Option MmioDevice → Vm → Vm
remember (some d) vm = record vm {
  mmio_cache_dev = some d;
  mmio_cache_start = d.start;
  mmio_cache_end = d.end;
}
remember none vm = record vm { mmio_cache_dev = none }

abbrev pub cached : Vm → ℕ → Option MmioDevice
cached vm addr = elim vm.mmio_cache_dev [
  | none ↦ none
  | some d ↦ if leb vm.mmio_cache_start addr && leb addr vm.mmio_cache_end then some d else none
]

unfoldable pub find_mmio : ℕ → Vm → Option MmioDevice × Vm
find_mmio addr vm = elim (cached vm addr) [
  | some d ↦ (some d, vm)
  | none ↦ (let found = scan vm.mmio_devices addr in (found, remember found vm))
]

unfoldable pub call_read32 : Handler → ℕ → Vm → ℕ × Vm
call_read32 fb_handler addr vm = fb_read32 addr vm
call_read32 time_handler addr vm = time_read32 addr vm
call_read32 sysinfo_handler addr vm = (sysinfo_read32 addr vm, vm)

unfoldable pub call_write32 : Handler → ℕ → ℕ → Vm → Vm
call_write32 fb_handler addr value vm = fb_write32 addr value vm
call_write32 time_handler addr value vm = time_write32 addr value vm
call_write32 sysinfo_handler addr value vm = sysinfo_write32 addr value vm

abbrev pub read_handler : Option MmioDevice → Option Handler
read_handler none = none
read_handler (some d) = d.read32

abbrev pub write_handler : Option MmioDevice → Option Handler
write_handler none = none
write_handler (some d) = d.write32

unfoldable pub vm_mmio_read32 : ℕ → M ℕ
vm_mmio_read32 addr vm =
    let (dev, vm') = find_mmio addr vm in
    elim (read_handler dev) [ none ↦ exit (mmio_read addr) | some h ↦ ok (call_read32 h addr vm') ]

unfoldable pub vm_mmio_write32 : ℕ → ℕ → M (Unit {0})
vm_mmio_write32 addr value vm =
    let (dev, vm') = find_mmio addr vm in
    elim (write_handler dev) [
      | none ↦ exit (mmio_write addr)
      | some h ↦ ok (tt, call_write32 h addr value vm')
    ]

abbrev pub max_mmio_devices : ℕ
max_mmio_devices = 16

abbrev pub device : ℕ → ℕ → Handler → MmioDevice
device first last h = record { start = first; end = last; read32 = some h; write32 = some h }

abbrev pub add_device : MmioDevice → Vm → Vm
add_device d vm = record vm { mmio_devices = vm.mmio_devices ++ (d ∷ []) }

abbrev pub add_device_if_room : MmioDevice → Vm → Vm
add_device_if_room d vm =
    if ltb (length vm.mmio_devices) max_mmio_devices then add_device d vm else vm

unfoldable pub register_fb_mmio : Vm → Vm
register_fb_mmio vm =
    add_device (device fb_legacy_base (fb_legacy_base + fb_size - 1) fb_handler)
      (add_device (device (u32 vm.memory_size) (u32 (vm.memory_size + fb_size - 1)) fb_handler) vm)

unfoldable pub register_time_mmio : Vm → Vm
register_time_mmio vm =
    add_device_if_room (device time_base (time_base + 23) time_handler)
      (record vm { timer_enabled = false; timer_period_us = 0; timer_next_deadline_ns = 0 })

unfoldable pub register_sysinfo_mmio : Vm → Vm
register_sysinfo_mmio vm =
    add_device_if_room (device sysinfo_base (sysinfo_base + 0x5C - 1) sysinfo_handler)
      (sysinfo_init_vendor vm)

-- The registrations in the order of `vm_create`.
unfoldable pub register_all : Vm → Vm
unfolding register_fb_mmio register_time_mmio register_sysinfo_mmio
register_all vm = register_sysinfo_mmio (register_time_mmio (register_fb_mmio vm))
