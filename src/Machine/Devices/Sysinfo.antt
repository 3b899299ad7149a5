-- ===== src/Machine/Devices/Sysinfo.antt =====
-- io_devices/sysinfo/sysinfo_mmio_register.c: the read-only registers that describe the machine.
use lamp_vm.Common.Tests.{
  ℕ, ◌+◌, ◌-◌, ◌*◌, ◌/◌, ◌%◌, true, ◌&&◌, ltb, leb, ◌==◌, if◌then◌else◌, List, [], ◌∷◌,
}
use lamp_vm.Common.Word.{u32, sub32, ◌>>>◌, ◌<<<◌}
use lamp_vm.Common.Bits.Step.{bit_or}
use lamp_vm.Machine.State.{Vm, sysinfo_base, fb_width, fb_height, fb_bpp}

abbrev pub vendor_words : ℕ
vendor_words = 4

-- "LampVM", four characters to a word, the first in the low byte.
abbrev vendor : List ℕ
vendor = b'L' ∷ b'a' ∷ b'm' ∷ b'p' ∷ b'V' ∷ b'M' ∷ []

-- The loop over the characters from index `i` on.
unfoldable pub init_vendor_from : List ℕ → ℕ → (ℕ → ℕ) → ℕ → ℕ
init_vendor_from [] i words = words
init_vendor_from (c ∷ cs) i words = init_vendor_from cs (i + 1) λ w.
    if (w == i / 4) && ltb (i / 4) vendor_words
    then bit_or (words w) (c <<< (i % 4 * 8))
    else words w

unfoldable pub sysinfo_init_vendor : Vm → Vm
unfolding init_vendor_from
sysinfo_init_vendor vm = record vm { sysinfo_vendor_words = init_vendor_from vendor 0 (λ w. 0) }

unfoldable pub sysinfo_feature_bits : Vm → ℕ
sysinfo_feature_bits vm =
    let bits = bit_or (bit_or (bit_or (1 <<< 0) (1 <<< 1)) (1 <<< 2)) (1 <<< 4) in
    if ltb 1 vm.smp_cores then bit_or bits (1 <<< 3) else bits

unfoldable pub sysinfo_read32 : ℕ → Vm → ℕ
unfolding sysinfo_feature_bits
sysinfo_read32 addr vm =
    let offset = sub32 addr sysinfo_base in
    if offset == 0x00
    then 0x31494D56
    else if leb 0x04 offset && ltb offset (0x04 + vendor_words * 4) && (offset % 4 == 0)
    then vm.sysinfo_vendor_words ((offset - 0x04) / 4)
    else if offset == 0x14
    then u32 vm.memory_size
    else if offset == 0x18
    then u32 (vm.memory_size >>> 32)
    else if offset == 0x1C
    then u32 vm.disk_size_bytes
    else if offset == 0x20
    then u32 (vm.disk_size_bytes >>> 32)
    else if offset == 0x24
    then u32 vm.smp_cores
    else if offset == 0x28
    then 2
    else if offset == 0x2C
    then 1
    else if offset == 0x30
    then 1
    else if offset == 0x34
    then 32
    else if offset == 0x38
    then 4096
    else if offset == 0x3C
    then 1000000000
    else if offset == 0x40
    then sysinfo_feature_bits vm
    else if offset == 0x44
    then fb_width
    else if offset == 0x48
    then fb_height
    else if offset == 0x4C
    then fb_bpp
    else if offset == 0x50
    then fb_width * fb_bpp
    else if offset == 0x54
    then u32 vm.start_realtime_ns
    else if offset == 0x58
    then u32 (vm.start_realtime_ns >>> 32)
    else 0

unfoldable pub sysinfo_write32 : ℕ → ℕ → Vm → Vm
sysinfo_write32 addr value vm = record vm { halted = true }
