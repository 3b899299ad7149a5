-- ===== src/Machine/Devices/Frame.antt =====
-- io_devices/vga_display/vga_mmio_register.c: the frame buffer, mapped behind RAM and at a legacy
-- address, and the byte index of memory.c. A row's lock is held for one access only.
use lamp_vm.Common.Tests.{ℕ, ◌+◌, ◌-◌, ◌/◌, Bool, ◌&&◌, Option, some, none, ltb, leb, if◌then◌else◌}
use lamp_vm.Common.Arrays.{update}
use lamp_vm.Machine.State.{Vm, fb_size, fb_legacy_base}

abbrev pub fb_base : Vm → ℕ
fb_base vm = vm.memory_size

abbrev pub in_fb : Vm → ℕ → Bool
in_fb vm addr = leb (fb_base vm) addr && ltb addr (fb_base vm + fb_size)

abbrev pub in_fb_legacy : ℕ → Bool
in_fb_legacy addr = leb fb_legacy_base addr && ltb addr (fb_legacy_base + fb_size)

unfoldable pub fb_byte_index : Vm → ℕ → Option ℕ
fb_byte_index vm addr =
    if in_fb vm addr
    then some (addr - fb_base vm)
    else if in_fb_legacy addr
    then some (addr - fb_legacy_base)
    else none

unfoldable pub fb_pixel_index : Vm → ℕ → ℕ
fb_pixel_index vm addr =
    if in_fb vm addr
    then (addr - fb_base vm) / 4
    else if in_fb_legacy addr
    then (addr - fb_legacy_base) / 4
    else 0

unfoldable pub fb_read32 : ℕ → Vm → ℕ × Vm
fb_read32 addr vm = (vm.fb (fb_pixel_index vm addr), vm)

unfoldable pub fb_write32 : ℕ → ℕ → Vm → Vm
fb_write32 addr value vm = record vm { fb = update vm.fb (fb_pixel_index vm addr) value }
