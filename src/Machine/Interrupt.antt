-- ===== src/Machine/Interrupt.antt =====
-- interrupt.c: pending interrupts by core as bits of 64-bit words, entry to a handler, return
-- from it, and the tables. A compare-and-exchange of a pending word is one step.
pub mod Frame
pub mod Entry
pub mod Return
pub mod Pending
pub mod Search
pub mod Dispatch
use lamp_vm.Common.Tests.{
  ℕ, zero, suc, ◌+◌, ◌-◌, ◌*◌, ◌/◌, ◌%◌, ◌^◌, Bool, true, false, ◌&&◌, ◌||◌, Option, some, none,
  ltb, leb, ◌==◌, if◌then◌else◌,
}
use lamp_vm.Common.Arrays.{update}
use lamp_vm.Common.Word.{u32, ◌>>>◌}
use lamp_vm.Common.Bits.Step.{bit_or, bit_and, bit}
use lamp_vm.Machine.State.{
  Vm, Vcpu, M, Outcome, ok, exit, undefined, Panic, ◌>>=◌, ◌>>◌, set_cpu, gets, modify, pure, panic,
  ivt_size, ivt_base, irq_bitmap_words, reg_count, interrupt_number,
}
use lamp_vm.Machine.Memory.{vm_read64, vm_write64}
use lamp_vm.Machine.Stack.{isr_push, isr_pop}

abbrev pub uint64_max : ℕ
uint64_max = 2 ^ 64 - 1

abbrev pub isr_arg_reg : ℕ
isr_arg_reg = 31

unfoldable pub irq_word_index : ℕ → ℕ → ℕ
irq_word_index core_id int_no = core_id * irq_bitmap_words + int_no / 64

unfoldable pub irq_bit_mask : ℕ → ℕ
irq_bit_mask int_no = 2 ^ (int_no % 64)

-- `for (i = 0; i < REG_COUNT; i++) isr_push_u32(vm, cpu->regs[i])` from `i` on, `left` rounds.
unfoldable pub push_regs : ℕ → ℕ → M (Unit {0})
push_regs zero i = pure tt
push_regs (suc left) i = do v ← gets (λ vm. vm.cpu.regs i); isr_push v; push_regs left (i + 1)

-- `for (i = REG_COUNT - 1; i >= 0; i--) cpu->regs[i] = isr_pop_u32(vm)` with `i + 1` rounds left.
unfoldable pub pop_regs : ℕ → M (Unit {0})
pop_regs zero = pure tt
pop_regs (suc i) = do
  v ← isr_pop
  set_cpu (λ c. record c { regs = update c.regs i (u32 v) })
  pop_regs i

unfoldable pub save_context : M (Unit {0})
save_context = do
  ip ← gets (λ vm. vm.cpu.ip)
  isr_push ip
  flags ← gets (λ vm. vm.cpu.flags)
  isr_push flags
  push_regs reg_count 0

abbrev enter_isr : ℕ → ℕ → Vcpu → Vcpu
enter_isr int_no isr_ip c = record c {
  regs = update c.regs isr_arg_reg int_no;
  ip = u32 isr_ip;
  in_interrupt = true;
}

unfoldable pub vm_enter_interrupt : ℕ → M (Unit {0})
unfolding save_context
vm_enter_interrupt int_no vm =
    if leb ivt_size int_no || vm.cpu.in_interrupt
    then ok (tt, vm)
    else (do
      isr_ip ← vm_read64 (ivt_base + int_no * 8)
      if isr_ip == uint64_max then pure tt else (save_context >> set_cpu (enter_isr int_no isr_ip)))
        vm

unfoldable pub restore_context : M (Unit {0})
restore_context = do
  pop_regs reg_count
  flags ← isr_pop
  set_cpu (λ c. record c { flags = u32 flags })
  ip ← isr_pop
  set_cpu (λ c. record c { ip = u32 ip })

unfoldable pub vm_iret : M (Unit {0})
unfolding restore_context
vm_iret vm =
    if vm.cpu.in_interrupt
    then (restore_context >> set_cpu (λ c. record c { in_interrupt = false })) vm
    else ok (tt, vm)

-- `__builtin_ctzll`: the lowest of the bits from `i` on that is set, `left` bits to look at.
unfoldable pub lowest_bit : ℕ → ℕ → ℕ → Option ℕ
lowest_bit zero i word = none
lowest_bit (suc left) i word = if word % 2 == 1 then some i else lowest_bit left (i + 1) (word / 2)

-- The loop over the words of the core from word `w` on: the lowest pending bit is cleared and its
-- interrupt entered.
unfoldable pub take_pending : ℕ → ℕ → M (Unit {0})
take_pending zero w vm = ok (tt, vm)
take_pending (suc left) w vm =
    let idx = vm.cpu.core_id * irq_bitmap_words + w in
    let rest = take_pending left (w + 1) vm in
    elim (lowest_bit 64 0 (vm.interrupt_bitmap idx)) [
      | none ↦ rest
      | some b ↦ vm_enter_interrupt (w * 64 + b) (record vm {
        interrupt_bitmap =
            update vm.interrupt_bitmap idx (bit_and (vm.interrupt_bitmap idx) (uint64_max - 2 ^ b));
      })
    ]

unfoldable pub vm_handle_interrupts : M (Unit {0})
unfolding take_pending
vm_handle_interrupts vm =
    if vm.cpu.in_interrupt || vm.cpu.irq_masked
    then ok (tt, vm)
    else take_pending irq_bitmap_words 0 vm

unfoldable pub fill_ivt : ℕ → ℕ → M (Unit {0})
fill_ivt zero i = pure tt
fill_ivt (suc left) i = do vm_write64 (ivt_base + i * 8) uint64_max; fill_ivt left (i + 1)

-- `in_interrupt` of the executing core is part of `cpu`, that of the others of `cpus`.
unfoldable pub init_ivt : M (Unit {0})
unfolding fill_ivt
init_ivt = do
  fill_ivt ivt_size 0
  modify λ vm. record vm {
    interrupt_bitmap =
        λ i. if ltb i (vm.smp_cores * irq_bitmap_words) then 0 else vm.interrupt_bitmap i;
    cpu = record vm.cpu { in_interrupt = false };
    cpus = λ c. record (vm.cpus c) {
      in_interrupt = if ltb c vm.smp_cores then false else (vm.cpus c).in_interrupt;
    };
  }

unfoldable pub register_isr : ℕ → ℕ → M (Unit {0})
register_isr int_no isr_ip =
    if leb ivt_size int_no
    then panic (interrupt_number int_no)
    else vm_write64 (ivt_base + int_no * 8) (u32 isr_ip)

-- The core is an `int` read from a pattern of 32 bits: from 2 ^ 31 on it is negative.
unfoldable pub trigger_interrupt_target : ℕ → ℕ → Vm → Vm
unfolding irq_word_index irq_bit_mask
trigger_interrupt_target core_id int_no vm =
    if leb (2 ^ 31) core_id || leb vm.smp_cores core_id || leb ivt_size int_no
    then vm
    else let idx = irq_word_index core_id int_no in
      record vm {
        interrupt_bitmap =
            update vm.interrupt_bitmap idx (bit_or (vm.interrupt_bitmap idx) (irq_bit_mask int_no));
      }

abbrev pub bsp_core : ℕ
bsp_core = 0

unfoldable pub trigger_interrupt : ℕ → Vm → Vm
unfolding trigger_interrupt_target
trigger_interrupt int_no vm = trigger_interrupt_target bsp_core int_no vm
