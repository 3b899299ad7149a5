-- ===== src/Machine/Invariant/Store.antt =====
-- Memory, devices and the accesses of memory.c.
use lamp_vm.Common.Tests.{
  ℕ, zero, suc, ◌+◌, ◌-◌, ◌*◌, ◌/◌, ◌%◌, ◌^◌, ◌<◌, Option, some, none, ◌==◌, if◌then◌else◌, if-both,
  arith,
}
use lamp_vm.Common.Arrays.{update}
use lamp_vm.Common.Word.{u8, ◌<<<◌, ◌>>>◌, add32, sub32}
use lamp_vm.Common.Bits.Fields.{bit_or-lt}
use lamp_vm.Machine.State.{
  Vm, ok, exit, MmioDevice, Handler, fb_handler, time_handler, sysinfo_handler, sysinfo_base,
  time_base, mmio_read, read8_bounds, write8_bounds,
}
use lamp_vm.Machine.Devices.Frame.{fb_byte_index, fb_pixel_index, fb_read32, fb_write32}
use lamp_vm.Machine.Devices.Time.{
  Clock, get_timer, time_read32, time_write32, handle_programmable_tick,
}
use lamp_vm.Machine.Devices.Sysinfo.{sysinfo_read32, sysinfo_write32, sysinfo_feature_bits}
use lamp_vm.Machine.Mmio.{
  scan, cached, remember, find_mmio, call_read32, call_write32, vm_mmio_read32, read_handler,
}
use lamp_vm.Machine.Memory.{
  load32, store32, in_ram, fb_byte, set_fb_byte, vm_read8, vm_write8, vm_read32, vm_write32,
  vm_read64, vm_write64, read32_found, write32_found, write32_ram,
}
use lamp_vm.Machine.Invariant.Base.{
  AreBytes, IsWellFormed, Holds, Keeps, IsAny, IsWord, AreWords-update, AreBytes-update, Keeps->>=,
  Keeps-pure,
}

pub load32-lt : (mem : ℕ → ℕ) (a : ℕ) → AreBytes mem → load32 mem a < 2 ^ 32
unfolding load32
load32-lt mem a bytes =
    let b0 : mem a < 2 ^ 32 = (let h = bytes a in omega arith) in
    let b1 : mem (a + 1) <<< 8 < 2 ^ 32 = (let h = bytes (a + 1) in omega arith) in
    let b2 : mem (a + 2) <<< 16 < 2 ^ 32 = (let h = bytes (a + 2) in omega arith) in
    let b3 : mem (a + 3) <<< 24 < 2 ^ 32 = (let h = bytes (a + 3) in omega arith) in
    bit_or-lt 32 _ _ (bit_or-lt 32 _ _ (bit_or-lt 32 _ _ (bit_or-lt 32 _ _ (omega arith) b0) b1) b2)
      b3

pub AreBytes-store32 : (mem : ℕ → ℕ) (a v : ℕ) → AreBytes mem → AreBytes (store32 mem a v)
unfolding store32
AreBytes-store32 mem a v bytes =
    AreBytes-update _ _ _
      (AreBytes-update _ _ _
        (AreBytes-update _ _ _ (AreBytes-update mem a (u8 v) bytes (omega arith)) (omega arith))
        (omega arith))
      (omega arith)

-- The lookup, and the handlers of the devices.
pub find_mmio-IsWellFormed : (a : ℕ) (vm : Vm) → IsWellFormed vm → IsWellFormed (find_mmio a vm).1
unfolding find_mmio remember
find_mmio-IsWellFormed a vm good = looked_up (cached vm a)
  where
    remembered : (o : Option MmioDevice) → IsWellFormed (remember o vm)
    remembered none = good
    remembered (some d) = good

    looked_at : Option MmioDevice → Option MmioDevice × Vm
    looked_at (some d) = (some d, vm)
    looked_at none = (scan vm.mmio_devices a, remember (scan vm.mmio_devices a) vm)

    looked_up : (o : Option MmioDevice) → IsWellFormed (looked_at o).1
    looked_up none = remembered (scan vm.mmio_devices a)
    looked_up (some d) = good

-- A value and a machine that are as they should be.
abbrev Gives : ℕ × Vm → Type 0
Gives r = IsWord r.0 × IsWellFormed r.1

get_timer-Gives : (c : Clock) (vm : Vm) → IsWellFormed vm → Gives (get_timer c vm)
unfolding get_timer
get_timer-Gives Clock.realtime vm good = (omega arith, good)
get_timer-Gives Clock.monotonic vm good = (omega arith, good)
get_timer-Gives Clock.boot vm good = (omega arith, good)

time_read32-Gives : (a : ℕ) (vm : Vm) → IsWellFormed vm → Gives (time_read32 a vm)
unfolding time_read32
time_read32-Gives a vm good =
    let r = get_timer-Gives Clock.realtime vm good in
    let m = get_timer-Gives Clock.monotonic vm good in
    let b = get_timer-Gives Clock.boot vm good in ground (arith, r, m, b, good)

sysinfo_read32-lt : (a : ℕ) (vm : Vm) → IsWellFormed vm → IsWord (sysinfo_read32 a vm)
unfolding sysinfo_read32 sysinfo_feature_bits
sysinfo_read32-lt a vm good =
    (let vendor = good.6 ((sub32 a sysinfo_base - 0x04) / 4) in ground (arith, vendor))

call_read32-Gives : (h : Handler) (a : ℕ) (vm : Vm) → IsWellFormed vm → Gives (call_read32 h a vm)
unfolding call_read32 fb_read32
call_read32-Gives fb_handler a vm good = (good.3 (fb_pixel_index vm a), good)
call_read32-Gives time_handler a vm good = time_read32-Gives a vm good
call_read32-Gives sysinfo_handler a vm good = (sysinfo_read32-lt a vm good, good)

call_write32-IsWellFormed :
    (h : Handler) (a v : ℕ) (vm : Vm)
    → IsWord v
    → IsWellFormed vm
    → IsWellFormed (call_write32 h a v vm)
unfolding call_write32 fb_write32 time_write32 sysinfo_write32 handle_programmable_tick
call_write32-IsWellFormed fb_handler a v vm w good = (
  good.0,
  good.1,
  good.2,
  AreWords-update vm.fb (fb_pixel_index vm a) v good.3 w,
  good.4,
  good.5,
  good.6,
)
call_write32-IsWellFormed time_handler a v vm w good =
    if-both IsWellFormed (a == time_base) (if-both IsWellFormed (v == 0) good good) good
call_write32-IsWellFormed sysinfo_handler a v vm w good = good

-- Reads of a word.
read_by-Holds :
    (o : Option Handler) (a : ℕ) (vm : Vm)
    → IsWellFormed vm
    → Holds IsWord (elim o [ none ↦ exit (mmio_read a) | some h ↦ ok (call_read32 h a vm) ])
read_by-Holds none a vm good = tt
read_by-Holds (some h) a vm good = call_read32-Gives h a vm good

read32_found-Holds :
    (a : ℕ) (o : Option MmioDevice) (vm : Vm)
    → IsWellFormed vm
    → Holds IsWord (read32_found a (o, vm))
unfolding vm_mmio_read32
read32_found-Holds a none vm good =
    if-both (Holds IsWord) (in_ram vm a 4) (load32-lt vm.memory a good.2, good) tt
read32_found-Holds a (some d) vm good =
    read_by-Holds (read_handler (find_mmio a vm).0) a (find_mmio a vm).1
      (find_mmio-IsWellFormed a vm good)

pub Keeps-vm_read32 : (a : ℕ) → Keeps IsWord (vm_read32 a)
unfolding vm_read32
Keeps-vm_read32 a = record {
  at = λ vm good.
      read32_found-Holds a (find_mmio a vm).0 (find_mmio a vm).1 (find_mmio-IsWellFormed a vm good);
}

-- Writes of a word.
write32_ram-Holds : (a v : ℕ) (vm : Vm) → IsWellFormed vm → Holds IsAny (write32_ram a v vm)
write32_ram-Holds a v vm good =
    if-both (Holds IsAny) (in_ram vm a 4)
      (tt, (good.0, good.1, AreBytes-store32 vm.memory a v good.2, good.3, good.4, good.5, good.6))
      tt

write_by-Holds :
    (o : Option Handler) (a v : ℕ) (vm : Vm)
    → IsWord v
    → IsWellFormed vm
    → Holds IsAny (elim o [ some h ↦ ok (tt, call_write32 h a v vm) | none ↦ write32_ram a v vm ])
write_by-Holds none a v vm w good = write32_ram-Holds a v vm good
write_by-Holds (some h) a v vm w good = (tt, call_write32-IsWellFormed h a v vm w good)

write32_found-Holds :
    (a v : ℕ) (o : Option MmioDevice) (vm : Vm)
    → IsWord v
    → IsWellFormed vm
    → Holds IsAny (write32_found a v (o, vm))
write32_found-Holds a v none vm w good = write32_ram-Holds a v vm good
write32_found-Holds a v (some d) vm w good = write_by-Holds d.write32 a v vm w good

pub Keeps-vm_write32 : (a v : ℕ) → IsWord v → Keeps IsAny (vm_write32 a v)
unfolding vm_write32
Keeps-vm_write32 a v w = record {
  at = λ vm good.
      write32_found-Holds a v (find_mmio a vm).0 (find_mmio a vm).1 w
        (find_mmio-IsWellFormed a vm good);
}

-- Bytes.
byte_at-Holds :
    (a : ℕ) (o : Option ℕ) (vm : Vm)
    → IsWellFormed vm
    → Holds
        (λ b. b < 2 ^ 8)
        (elim o [
          | some i ↦ ok (fb_byte vm i, vm)
          | none ↦ if in_ram vm a 1 then ok (vm.memory a, vm) else exit (read8_bounds a)
        ])
byte_at-Holds a none vm good = if-both (Holds (λ b. b < 2 ^ 8)) (in_ram vm a 1) (good.2 a, good) tt
byte_at-Holds a (some i) vm good = (omega arith, good)

pub Keeps-vm_read8 : (a : ℕ) → Keeps (λ b. b < 2 ^ 8) (vm_read8 a)
unfolding vm_read8
Keeps-vm_read8 a = record { at = λ vm good. byte_at-Holds a (fb_byte_index vm a) vm good }

-- A byte replaced in a word leaves a word.
byte_of : ℕ → ℕ → ℕ → ℕ
byte_of p k v = p - p / k % 2 ^ 8 * k + u8 v * k

byte_of-lt : (p r v : ℕ) → IsWord p → r < 4 → IsWord (byte_of p (2 ^ (r * 8)) v)
unfolding byte_of
byte_of-lt p zero v w l = omega arith
byte_of-lt p (suc zero) v w l = omega arith
byte_of-lt p (suc (suc zero)) v w l = omega arith
byte_of-lt p (suc (suc (suc zero))) v w l = omega arith
byte_of-lt p (suc (suc (suc (suc r)))) v w l = absurd (omega arith)

byte_replaced :
    (p i v : ℕ)
    → IsWord p
    → IsWord (p - p / 2 ^ (i % 4 * 8) % 2 ^ 8 * 2 ^ (i % 4 * 8) + u8 v * 2 ^ (i % 4 * 8))
unfolding byte_of
byte_replaced p i v w = byte_of-lt p (i % 4) v w (omega arith)

set_byte-Holds :
    (a v : ℕ) (o : Option ℕ) (vm : Vm)
    → IsWellFormed vm
    → Holds IsAny (elim o [
      | some i ↦ ok (tt, set_fb_byte vm i v)
      | none ↦
          if in_ram vm a 1
          then ok (tt, record vm { memory = update vm.memory a (u8 v) })
          else exit (write8_bounds a)
    ])
set_byte-Holds a v none vm good =
    if-both (Holds IsAny) (in_ram vm a 1)
      (
        tt,
        (
          good.0,
          good.1,
          AreBytes-update vm.memory a (u8 v) good.2 (omega arith),
          good.3,
          good.4,
          good.5,
          good.6,
        ),
      )
      tt
set_byte-Holds a v (some i) vm good = (
  tt,
  (
    good.0,
    good.1,
    good.2,
    AreWords-update vm.fb (i / 4) _ good.3 (byte_replaced (vm.fb (i / 4)) i v (good.3 (i / 4))),
    good.4,
    good.5,
    good.6,
  ),
)

pub Keeps-vm_write8 : (a v : ℕ) → Keeps IsAny (vm_write8 a v)
unfolding vm_write8
Keeps-vm_write8 a v = record { at = λ vm good. set_byte-Holds a v (fb_byte_index vm a) vm good }

-- Words of 64 bits.
pub Keeps-vm_read64 : (a : ℕ) → Keeps IsAny (vm_read64 a)
unfolding vm_read64
Keeps-vm_read64 a =
    Keeps->>= (Keeps-vm_read32 a)
      λ lo p. Keeps->>= (Keeps-vm_read32 (add32 a 4)) λ hi q. Keeps-pure _ tt

pub Keeps-vm_write64 : (a v : ℕ) → Keeps IsAny (vm_write64 a v)
unfolding vm_write64
Keeps-vm_write64 a v = record {
  at = λ vm good.
      if-both (Holds IsAny) (in_ram vm a 8)
        (
          tt,
          (
            good.0,
            good.1,
            AreBytes-store32 _ (a + 4) (v >>> 32) (AreBytes-store32 vm.memory a v good.2),
            good.3,
            good.4,
            good.5,
            good.6,
          ),
        )
        tt;
}
