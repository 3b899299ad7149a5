-- ===== src/Machine/Memory/Access.antt =====
-- Reads and writes through the memory map, outside the devices.
use lamp_vm.Common.Tests.{ℕ, ◌+◌, ◌^◌, ◌≤◌, ◌<◌, ◌≡◌, ◌⊎◌, ap, ◌∙◌, none, le→leb, arith}
use lamp_vm.Common.Word.{add32}
use lamp_vm.Machine.State.{Vm, ok, bind-ok}
use lamp_vm.Machine.Mmio.{scan}
use lamp_vm.Machine.Mmio.Cache.{CacheIsSound, find_mmio-ram, forget, forget-CacheIsSound}
use lamp_vm.Machine.Memory.{
  load32, store32, vm_read32, vm_write32, vm_read64, vm_write64, read32_found, write32_found,
}
use lamp_vm.Machine.Memory.Words.{load32-store32, load32-store32_apart, store64, two_words}

-- The word at `a` is RAM: inside the memory, and claimed by no device.
pub record IsRamWord (vm : Vm) (a : ℕ) : Type 0 where
  pub inside : a + 4 ≤ vm.memory_size
  pub unclaimed : scan vm.mmio_devices a ≡ none

abbrev pub with_memory : (ℕ → ℕ) → Vm → Vm
with_memory m vm = record vm { memory = m }

pub vm_read32-ram :
    (a : ℕ) (vm : Vm)
    → CacheIsSound vm
    → IsRamWord vm a
    → vm_read32 a vm ≡ ok (load32 vm.memory a, forget vm)
unfolding vm_read32
vm_read32-ram a vm sound ram =
    ap (read32_found a) (find_mmio-ram a vm sound ram.unclaimed) ∙ rw (le→leb _ _ ram.inside)

pub vm_write32-ram :
    (a v : ℕ) (vm : Vm)
    → CacheIsSound vm
    → IsRamWord vm a
    → vm_write32 a v vm ≡ ok (tt, with_memory (store32 vm.memory a v) (forget vm))
unfolding vm_write32
vm_write32-ram a v vm sound ram =
    ap (write32_found a v) (find_mmio-ram a vm sound ram.unclaimed) ∙ rw (le→leb _ _ ram.inside)

-- A word written to RAM is read back from there, and a read of a word elsewhere in RAM gives what
-- it gave before the write; both reads return.
pub vm_read32-vm_write32 :
    (a v b : ℕ) (vm : Vm)
    → v < 2 ^ 32
    → CacheIsSound vm
    → IsRamWord vm a
    → IsRamWord vm b
    → (b + 4 ≤ a) ⊎ (a + 4 ≤ b)
    → (after : Vm) × (vm_write32 a v vm ≡ ok (tt, after))
      × (vm_read32 a after ≡ ok (v, after))
      × (vm_read32 b after ≡ ok (load32 vm.memory b, after))
      × (vm_read32 b vm ≡ ok (load32 vm.memory b, forget vm))
vm_read32-vm_write32 a v b vm hv sound ram_a ram_b apart =
    let after = with_memory (store32 vm.memory a v) (forget vm) in
    let quiet : CacheIsSound after = forget-CacheIsSound after in
    (
      after,
      vm_write32-ram a v vm sound ram_a,
      vm_read32-ram a after quiet (record { inside = ram_a.inside; unclaimed = ram_a.unclaimed })
          ∙ ap (λ w. ok (w, after)) (load32-store32 vm.memory a v hv),
      vm_read32-ram b after quiet (record { inside = ram_b.inside; unclaimed = ram_b.unclaimed })
          ∙ ap (λ w. ok (w, after)) (load32-store32_apart vm.memory a v b apart),
      vm_read32-ram b vm sound ram_b,
    )

-- Eight bytes of RAM, as the stacks use them.
pub record IsRamPair (vm : Vm) (a : ℕ) : Type 0 where
  pub inside : a + 8 ≤ vm.memory_size
  pub addressable : vm.memory_size ≤ 2 ^ 32
  pub low_unclaimed : scan vm.mmio_devices a ≡ none
  pub high_unclaimed : scan vm.mmio_devices (a + 4) ≡ none

pub vm_write64-ram :
    (a v : ℕ) (vm : Vm)
    → a + 8 ≤ vm.memory_size
    → vm_write64 a v vm ≡ ok (tt, with_memory (store64 vm.memory a v) vm)
unfolding vm_write64
vm_write64-ram a v vm h = rw (le→leb _ _ h)

pub vm_read64-ram :
    (a : ℕ) (vm : Vm)
    → CacheIsSound vm
    → IsRamPair vm a
    → vm_read64 a vm ≡ ok (two_words vm.memory a, forget vm)
unfolding vm_read64
vm_read64-ram a vm sound ram =
    let low =
      vm_read32-ram a vm sound (record { inside = omega arith; unclaimed = ram.low_unclaimed }) in
    let next : add32 a 4 ≡ a + 4 = omega arith in
    bind-ok (vm_read32 a) _ low
    ∙ bind-ok (vm_read32 (add32 a 4)) _ (
        rw next (
          vm_read32-ram (a + 4) (forget vm) (forget-CacheIsSound vm)
            (record { inside = omega arith; unclaimed = ram.high_unclaimed })))
