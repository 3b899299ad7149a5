-- ===== src/Machine/Stack/Lifo.antt =====
-- One push and one pop of each stack, over RAM that no device claims.
use lamp_vm.Common.Tests.{ℕ, ◌+◌, ◌-◌, ◌*◌, ◌^◌, ◌≤◌, ◌<◌, ◌≡◌, none, false, leb, ◌==◌, arith}
use lamp_vm.Common.Word.{add32}
use lamp_vm.Machine.State.{Vm, ok, bind-ok, isr_stack_size}
use lamp_vm.Machine.Mmio.{scan}
use lamp_vm.Machine.Mmio.Cache.{CacheIsSound, forget}
use lamp_vm.Machine.Memory.{vm_read64}
use lamp_vm.Machine.Memory.Words.{store64, two_words}
use lamp_vm.Machine.Memory.Access.{IsRamPair, with_memory, vm_write64-ram, vm_read64-ram}
use lamp_vm.Machine.Stack.{isr_push, isr_pop}

-- `size` entries of `width` bytes from `base` on, in RAM.
pub record IsRamStack (vm : Vm) (base size width : ℕ) : Type 0 where
  pub inside : base + size * width ≤ vm.memory_size
  pub addressable : vm.memory_size ≤ 2 ^ 32
  pub unclaimed : (q : ℕ) → base ≤ q → q < base + size * width → scan vm.mmio_devices q ≡ none

abbrev pub isr_slot : Vm → ℕ → ℕ
isr_slot vm k = vm.cpu.isr_stack_base + k * 8

abbrev pub HasIsrStack : Vm → Type 0
HasIsrStack vm = IsRamStack vm vm.cpu.isr_stack_base isr_stack_size 8

abbrev pub with_isp : ℕ → Vm → Vm
with_isp n vm = record vm { cpu = record vm.cpu { isp = n } }

-- The machine after a push, and after a pop.
abbrev pub isr_pushed : ℕ → Vm → Vm
isr_pushed v vm =
    with_memory (store64 vm.memory (isr_slot vm (vm.cpu.isp - 1)) v) (with_isp (vm.cpu.isp - 1) vm)

abbrev pub isr_popped : Vm → Vm
isr_popped vm = with_isp (vm.cpu.isp + 1) (forget vm)

abbrev pub isr_top : Vm → ℕ
isr_top vm = two_words vm.memory (isr_slot vm vm.cpu.isp)

module _ (vm : Vm) (stack : HasIsrStack vm) where
  pub isr_push-eq :
      (v : ℕ)
      → 0 < vm.cpu.isp
      → vm.cpu.isp ≤ isr_stack_size
      → isr_push v vm ≡ ok (tt, isr_pushed v vm)
  unfolding isr_push
  isr_push-eq v lo hi =
      let below = with_isp (vm.cpu.isp - 1) vm in
      let nonzero : (vm.cpu.isp == 0) ≡ false = ground arith in
      let address : add32 vm.cpu.isr_stack_base ((vm.cpu.isp - 1) * 8)
          ≡ isr_slot vm (vm.cpu.isp - 1) =
        (omega (arith, stack.inside, stack.addressable)) in
      rw (nonzero, address)
        (vm_write64-ram (isr_slot vm (vm.cpu.isp - 1)) v below (omega (arith, stack.inside)))

  isr_slot-IsRamPair : (k : ℕ) → k < isr_stack_size → IsRamPair vm (isr_slot vm k)
  isr_slot-IsRamPair k h = record {
    inside = omega (arith, stack.inside);
    addressable = stack.addressable;
    low_unclaimed = stack.unclaimed (isr_slot vm k) (omega arith) (omega arith);
    high_unclaimed = stack.unclaimed (isr_slot vm k + 4) (omega arith) (omega arith);
  }

  pub isr_pop-eq :
      CacheIsSound vm → vm.cpu.isp < isr_stack_size → isr_pop vm ≡ ok (isr_top vm, isr_popped vm)
  unfolding isr_pop
  isr_pop-eq sound h =
      let room : leb isr_stack_size vm.cpu.isp ≡ false = ground arith in
      let address : add32 vm.cpu.isr_stack_base (vm.cpu.isp * 8) ≡ isr_slot vm vm.cpu.isp =
        (omega (arith, stack.inside, stack.addressable)) in
      rw (room, address)
        (bind-ok (vm_read64 (isr_slot vm vm.cpu.isp)) _
          (vm_read64-ram (isr_slot vm vm.cpu.isp) vm sound (isr_slot-IsRamPair vm.cpu.isp h)))
