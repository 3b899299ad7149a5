-- ===== src/Machine/Memory.antt =====
-- memory.c: reads and writes of 8, 32 and 64 bits, and the atomic operations of 32 bits. The
-- build is the one without VM_MEMCHECK. An atomic operation is one step.
pub mod Words
pub mod Access
pub mod Counter
use lamp_vm.Common.Tests.{
  ℕ, ◌+◌, ◌-◌, ◌*◌, ◌/◌, ◌%◌, ◌^◌, Bool, true, false, Option, some, none, leb, ◌==◌, not,
  if◌then◌else◌,
}
use lamp_vm.Common.Arrays.{update}
use lamp_vm.Common.Word.{u8, u32, add32, ◌<<<◌, ◌>>>◌}
use lamp_vm.Common.Bits.Step.{bit_or}
use lamp_vm.Machine.State.{
  Vm, M, MmioDevice, Outcome, ok, exit, undefined, Panic, AtomicOp, cas, xadd, xchg, ldar, stlr,
  read8_bounds, read32_bounds, write8_bounds, write32_bounds, write64_bounds, atomic_unaligned,
  atomic_bounds, atomic_mmio, ◌>>=◌, ◌>>◌, pure, gets, modify,
}
use lamp_vm.Machine.Devices.Frame.{fb_byte_index}
use lamp_vm.Machine.Mmio.{find_mmio, call_write32, vm_mmio_read32}

-- `size_t` is wider than an address, so the sum does not wrap.
abbrev pub in_ram : Vm → ℕ → ℕ → Bool
in_ram vm addr size = leb (addr + size) vm.memory_size

-- Byte `i` of the frame buffer, whose pixels are stored with the low byte first.
abbrev pub fb_byte : Vm → ℕ → ℕ
fb_byte vm i = vm.fb (i / 4) / 2 ^ (i % 4 * 8) % 2 ^ 8

abbrev pub set_fb_byte : Vm → ℕ → ℕ → Vm
set_fb_byte vm i v =
    let p = vm.fb (i / 4) in
    let k : ℕ = 2 ^ (i % 4 * 8) in
    record vm { fb = update vm.fb (i / 4) (p - p / k % 2 ^ 8 * k + u8 v * k) }

unfoldable pub vm_read8 : ℕ → M ℕ
vm_read8 addr vm = elim (fb_byte_index vm addr) [
  | some i ↦ ok (fb_byte vm i, vm)
  | none ↦ if in_ram vm addr 1 then ok (vm.memory addr, vm) else exit (read8_bounds addr)
]

unfoldable pub vm_write8 : ℕ → ℕ → M (Unit {0})
vm_write8 addr value vm = elim (fb_byte_index vm addr) [
  | some i ↦ ok (tt, set_fb_byte vm i value)
  | none ↦
      if in_ram vm addr 1
      then ok (tt, record vm { memory = update vm.memory addr (u8 value) })
      else exit (write8_bounds addr)
]

-- Four bytes, low byte first.
unfoldable pub load32 : (ℕ → ℕ) → ℕ → ℕ
load32 mem addr =
    bit_or (bit_or (bit_or (bit_or 0 (mem addr)) (mem (addr + 1) <<< 8)) (mem (addr + 2) <<< 16))
      (mem (addr + 3) <<< 24)

unfoldable pub store32 : (ℕ → ℕ) → ℕ → ℕ → ℕ → ℕ
store32 mem addr v =
    update
      (update (update (update mem addr (u8 v)) (addr + 1) (u8 (v >>> 8))) (addr + 2)
        (u8 (v >>> 16)))
      (addr + 3) (u8 (v >>> 24))

-- A device is called, with or without the shared lock (which the frame buffer does not take);
-- what no device claims is RAM.
abbrev pub read32_found : ℕ → Option MmioDevice × Vm → Outcome (ℕ × Vm)
read32_found addr (some d, vm) = vm_mmio_read32 addr vm
read32_found addr (none, vm) =
    if in_ram vm addr 4 then ok (load32 vm.memory addr, vm) else exit (read32_bounds addr)

unfoldable pub vm_read32 : ℕ → M ℕ
vm_read32 addr vm = read32_found addr (find_mmio addr vm)

-- A device with no write handler is passed over.
abbrev pub write32_ram : ℕ → ℕ → M (Unit {0})
write32_ram addr value vm =
    if in_ram vm addr 4
    then ok (tt, record vm { memory = store32 vm.memory addr value })
    else exit (write32_bounds addr)

abbrev pub write32_found : ℕ → ℕ → Option MmioDevice × Vm → Outcome (Unit {0} × Vm)
write32_found addr value (none, vm) = write32_ram addr value vm
write32_found addr value (some d, vm) = elim d.write32 [
  | some h ↦ ok (tt, call_write32 h addr value vm)
  | none ↦ write32_ram addr value vm
]

unfoldable pub vm_write32 : ℕ → ℕ → M (Unit {0})
vm_write32 addr value vm = write32_found addr value (find_mmio addr vm)

unfoldable pub vm_read64 : ℕ → M ℕ
vm_read64 addr = do lo ← vm_read32 addr; hi ← vm_read32 (add32 addr 4); pure (bit_or lo (hi <<< 32))

-- A write of 64 bits goes to RAM, never to a device.
unfoldable pub vm_write64 : ℕ → ℕ → M (Unit {0})
vm_write64 addr value vm =
    if in_ram vm addr 8
    then ok (
      tt,
      record vm { memory = store32 (store32 vm.memory addr value) (addr + 4) (value >>> 32) },
    )
    else exit (write64_bounds addr)

abbrev pub atomic_found : AtomicOp → ℕ → Option MmioDevice × Vm → Outcome (Unit {0} × Vm)
atomic_found op addr (none, vm) = ok (tt, vm)
atomic_found op addr (some d, vm) = exit (atomic_mmio op addr)

-- The checks that `atomic32_ptr_or_panic` makes before it hands out a pointer to RAM.
unfoldable pub atomic32_check : AtomicOp → ℕ → M (Unit {0})
atomic32_check op addr vm =
    if not (addr % 4 == 0)
    then exit (atomic_unaligned op addr)
    else if not (in_ram vm addr 4)
    then exit (atomic_bounds op addr)
    else atomic_found op addr (find_mmio addr vm)

abbrev word_at : ℕ → M ℕ
word_at addr = gets (λ vm. load32 vm.memory addr)

abbrev put_word : ℕ → ℕ → M (Unit {0})
put_word addr value = modify (λ vm. record vm { memory = store32 vm.memory addr value })

unfoldable pub vm_atomic_load32_acquire : ℕ → M ℕ
unfolding atomic32_check
vm_atomic_load32_acquire addr = do atomic32_check ldar addr; word_at addr

unfoldable pub vm_atomic_store32_release : ℕ → ℕ → M (Unit {0})
unfolding atomic32_check
vm_atomic_store32_release addr value = do atomic32_check stlr addr; put_word addr value

unfoldable pub vm_atomic_exchange32_seqcst : ℕ → ℕ → M ℕ
unfolding atomic32_check
vm_atomic_exchange32_seqcst addr value = do
  atomic32_check xchg addr
  old ← word_at addr
  put_word addr value
  pure old

unfoldable pub vm_atomic_fetch_add32_seqcst : ℕ → ℕ → M ℕ
unfolding atomic32_check
vm_atomic_fetch_add32_seqcst addr value = do
  atomic32_check xadd addr
  old ← word_at addr
  put_word addr (add32 old value)
  pure old

-- The pair is what was observed, and whether the exchange was made.
unfoldable pub vm_atomic_compare_exchange32_seqcst : ℕ → ℕ → ℕ → M (ℕ × Bool)
unfolding atomic32_check
vm_atomic_compare_exchange32_seqcst addr expected desired = do
  atomic32_check cas addr
  observed ← word_at addr
  if observed == expected
      then (put_word addr desired >> pure (observed, true))
      else pure (observed, false)
