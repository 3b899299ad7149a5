-- ===== src/Machine/Invariant/Frames.antt =====
-- The stacks and the interrupts.
use lamp_vm.Common.Tests.{
  ℕ, zero, suc, ◌+◌, ◌-◌, ◌*◌, ◌^◌, sym, subst, Bool, true, false, ◌||◌, Option, some, none, ◌==◌,
  if-both, if-split, leb, arith,
}
use lamp_vm.Common.Arrays.{update}
use lamp_vm.Common.Word.{u32, add32}
use lamp_vm.Common.Bits.Step.{bit_and}
use lamp_vm.Machine.State.{
  Vm, Vcpu, Outcome, ok, exit, undefined, ◌>>=◌, pure, set_cpu, reg_count, ivt_size, ivt_base,
  irq_bitmap_words, data_stack_size, call_stack_size, isr_stack_size,
}
use lamp_vm.Machine.Memory.{vm_read32, vm_read64}
use lamp_vm.Machine.Stack.{data_push, data_pop, call_push, call_pop, isr_push, isr_pop}
use lamp_vm.Machine.Interrupt.{
  push_regs, pop_regs, save_context, vm_enter_interrupt, restore_context, vm_iret, lowest_bit,
  take_pending, vm_handle_interrupts, trigger_interrupt_target, isr_arg_reg, uint64_max,
}
use lamp_vm.Machine.Invariant.Base.{
  IsCore, IsWellFormed, Holds, Keeps, IsAny, IsWord, IsCore-update, IsCore-csp, IsCore-dsp,
  IsCore-isp, Keeps->>=, Keeps-pure, Keeps-gets, Keeps-set_cpu, Keeps-if,
}
use lamp_vm.Machine.Invariant.Store.{
  Keeps-vm_read32, Keeps-vm_write32, Keeps-vm_read64, Keeps-vm_write64,
}
use lamp_vm.Machine.Invariant.Reads.{SameCpu, vm_read32-SameCpu, vm_read64-SameCpu}

pub with_core :
    (vm : Vm) (c : Vcpu) → IsWellFormed vm → IsCore c → IsWellFormed (record vm { cpu = c })
with_core vm c good h = (h, good.1, good.2, good.3, good.4, good.5, good.6)

-- Pushes.
pub Keeps-data_push : (v : ℕ) → IsWord v → Keeps IsAny (data_push v)
unfolding data_push
Keeps-data_push v w = record {
  at = λ vm good. if-both (Holds IsAny) (vm.cpu.dsp == 0) tt (
      (Keeps-vm_write32 _ v w).at (record vm { cpu = record vm.cpu { dsp = vm.cpu.dsp - 1 } })
        (with_core vm _ good
          (IsCore-dsp vm.cpu (vm.cpu.dsp - 1) good.0 (let h = good.0.dsp_inside in omega arith))));
}

pub Keeps-call_push : (v : ℕ) → Keeps IsAny (call_push v)
unfolding call_push
Keeps-call_push v = record {
  at = λ vm good. if-both (Holds IsAny) (vm.cpu.csp == 0) tt (
      (Keeps-vm_write64 _ v).at (record vm { cpu = record vm.cpu { csp = vm.cpu.csp - 1 } })
        (with_core vm _ good
          (IsCore-csp vm.cpu (vm.cpu.csp - 1) good.0 (let h = good.0.csp_inside in omega arith))));
}

pub Keeps-isr_push : (v : ℕ) → Keeps IsAny (isr_push v)
unfolding isr_push
Keeps-isr_push v = record {
  at = λ vm good. if-both (Holds IsAny) (vm.cpu.isp == 0) tt (
      (Keeps-vm_write64 _ v).at (record vm { cpu = record vm.cpu { isp = vm.cpu.isp - 1 } })
        (with_core vm _ good
          (IsCore-isp vm.cpu (vm.cpu.isp - 1) good.0 (let h = good.0.isp_inside in omega arith))));
}

-- Pops: the read leaves the stack pointer, which then moves inside the stack.
popped-Holds :
    (Q : ℕ → Type 0) (f : Vcpu → Vcpu) (c : Vcpu) (o : Outcome (ℕ × Vm))
    → Holds Q o
    → SameCpu c o
    → IsCore (f c)
    → Holds Q (elim o [
      | ok (v, vm') ↦ (set_cpu f >>= λ u. pure v) vm'
      | exit p ↦ exit p
      | undefined ↦ undefined
    ])
popped-Holds Q f c (ok (v, vm)) h e core =
    (h.0, with_core vm (f vm.cpu) h.1 (subst (λ d. IsCore (f d)) (sym e) core))
popped-Holds Q f c (exit p) h e core = tt
popped-Holds Q f c undefined h e core = tt

pub Keeps-data_pop : Keeps IsWord data_pop
unfolding data_pop
Keeps-data_pop = record {
  at = λ vm good.
      if-split (Holds IsWord) (leb data_stack_size vm.cpu.dsp) (λ e. tt)
        (λ e.
          let a = add32 vm.cpu.data_stack_base (vm.cpu.dsp * 4) in
          popped-Holds IsWord (λ c. record c { dsp = c.dsp + 1 }) vm.cpu (vm_read32 a vm)
            ((Keeps-vm_read32 a).at vm good) (vm_read32-SameCpu a vm)
            (IsCore-dsp vm.cpu (vm.cpu.dsp + 1) good.0 (ground arith)));
}

pub Keeps-call_pop : Keeps IsAny call_pop
unfolding call_pop
Keeps-call_pop = record {
  at = λ vm good.
      if-split (Holds IsAny) (leb call_stack_size vm.cpu.csp) (λ e. tt)
        (λ e.
          let a = add32 vm.cpu.call_stack_base (vm.cpu.csp * 8) in
          popped-Holds IsAny (λ c. record c { csp = c.csp + 1 }) vm.cpu (vm_read64 a vm)
            ((Keeps-vm_read64 a).at vm good) (vm_read64-SameCpu a vm)
            (IsCore-csp vm.cpu (vm.cpu.csp + 1) good.0 (ground arith)));
}

pub Keeps-isr_pop : Keeps IsAny isr_pop
unfolding isr_pop
Keeps-isr_pop = record {
  at = λ vm good.
      if-split (Holds IsAny) (leb isr_stack_size vm.cpu.isp) (λ e. tt)
        (λ e.
          let a = add32 vm.cpu.isr_stack_base (vm.cpu.isp * 8) in
          popped-Holds IsAny (λ c. record c { isp = c.isp + 1 }) vm.cpu (vm_read64 a vm)
            ((Keeps-vm_read64 a).at vm good) (vm_read64-SameCpu a vm)
            (IsCore-isp vm.cpu (vm.cpu.isp + 1) good.0 (ground arith)));
}

-- Saving and restoring the context.
Keeps-push_regs : (left i : ℕ) → Keeps IsAny (push_regs left i)
unfolding push_regs
Keeps-push_regs zero i = Keeps-pure tt tt
Keeps-push_regs (suc left) i =
    Keeps->>= {Q = IsAny} (Keeps-gets (λ vm. vm.cpu.regs i) (λ vm good. tt))
      λ v q. Keeps->>= (Keeps-isr_push v) λ u r. Keeps-push_regs left (i + 1)

Keeps-pop_regs : (left : ℕ) → Keeps IsAny (pop_regs left)
unfolding pop_regs
Keeps-pop_regs zero = Keeps-pure tt tt
Keeps-pop_regs (suc i) = Keeps->>= Keeps-isr_pop λ v q.
    Keeps->>= (Keeps-set_cpu _ (λ c h. IsCore-update c i (u32 v) h (omega arith)))
      λ u r. Keeps-pop_regs i

-- Changes of fields that no range is about.
IsCore-jump :
    (c : Vcpu) (flags ip : ℕ) (b : Bool)
    → IsCore c
    → IsCore (record c { flags = flags; ip = ip; in_interrupt = b })
IsCore-jump c flags ip b h = record {
  regs_words = h.regs_words;
  csp_inside = h.csp_inside;
  dsp_inside = h.dsp_inside;
  isp_inside = h.isp_inside;
  id_word = h.id_word;
}

Keeps-save_context : Keeps IsAny save_context
unfolding save_context
Keeps-save_context = Keeps->>= {Q = IsAny} (Keeps-gets (λ vm. vm.cpu.ip) (λ vm good. tt)) λ ip q.
    Keeps->>= (Keeps-isr_push ip) λ u r.
      Keeps->>= {Q = IsAny} (Keeps-gets (λ vm. vm.cpu.flags) (λ vm good. tt))
        λ flags q'. Keeps->>= (Keeps-isr_push flags) λ u' r'. Keeps-push_regs reg_count 0

pub Keeps-vm_enter_interrupt : (int_no : ℕ) → Keeps IsAny (vm_enter_interrupt int_no)
unfolding vm_enter_interrupt
Keeps-vm_enter_interrupt int_no = record {
  at = λ vm good.
      if-split (Holds IsAny) (leb ivt_size int_no || vm.cpu.in_interrupt) (λ e. (tt, good))
        (λ e.
          (Keeps->>= (Keeps-vm_read64 (ivt_base + int_no * 8)) (λ isr_ip q.
              Keeps-if (isr_ip == uint64_max) (Keeps-pure tt tt) (
                Keeps->>= Keeps-save_context λ u r. Keeps-set_cpu _ (λ c h.
                  IsCore-update (record c { ip = u32 isr_ip; in_interrupt = true }) isr_arg_reg
                    int_no (IsCore-jump c c.flags (u32 isr_ip) true h) (ground arith))))).at
            vm good);
}

Keeps-restore_context : Keeps IsAny restore_context
unfolding restore_context
Keeps-restore_context = Keeps->>= (Keeps-pop_regs reg_count) λ u q.
    Keeps->>= Keeps-isr_pop λ flags q'.
      Keeps->>= (Keeps-set_cpu _ (λ c h. IsCore-jump c (u32 flags) c.ip c.in_interrupt h)) λ u' r.
        Keeps->>= Keeps-isr_pop
          λ ip r'. Keeps-set_cpu _ (λ c h. IsCore-jump c c.flags (u32 ip) c.in_interrupt h)

pub Keeps-vm_iret : Keeps IsAny vm_iret
unfolding vm_iret
Keeps-vm_iret = record {
  at = λ vm good.
      if-both (Holds IsAny) vm.cpu.in_interrupt
        ((Keeps->>= Keeps-restore_context
            λ u q. Keeps-set_cpu _ (λ c h. IsCore-jump c c.flags c.ip false h)).at
          vm good)
        (tt, good);
}

-- Pending interrupts.
Keeps-take_pending : (left w : ℕ) → Keeps IsAny (take_pending left w)
unfolding take_pending
Keeps-take_pending zero w = record { at = λ vm good. (tt, good) }
Keeps-take_pending (suc left) w = record {
  at = λ vm good.
      by_search vm good (Keeps-take_pending left (w + 1))
        (lowest_bit 64 0 (vm.interrupt_bitmap (vm.cpu.core_id * irq_bitmap_words + w)));
}
  where
    by_search :
        (vm : Vm)
        → IsWellFormed vm
        → Keeps IsAny (take_pending left (w + 1))
        → (o : Option ℕ)
        → Holds IsAny (elim o [
          | none ↦ take_pending left (w + 1) vm
          | some b ↦ vm_enter_interrupt (w * 64 + b) (record vm {
            interrupt_bitmap = update vm.interrupt_bitmap (vm.cpu.core_id * irq_bitmap_words + w) (
                bit_and
                  (vm.interrupt_bitmap (vm.cpu.core_id * irq_bitmap_words + w))
                  (uint64_max - 2 ^ b));
          })
        ])
    by_search vm good rest none = rest.at vm good
    by_search vm good rest (some b) = (Keeps-vm_enter_interrupt (w * 64 + b)).at _ good

pub Keeps-vm_handle_interrupts : Keeps IsAny vm_handle_interrupts
unfolding vm_handle_interrupts
Keeps-vm_handle_interrupts = record {
  at = λ vm good.
      if-both (Holds IsAny) (vm.cpu.in_interrupt || vm.cpu.irq_masked) (tt, good)
        ((Keeps-take_pending irq_bitmap_words 0).at vm good);
}

pub trigger-IsWellFormed :
    (core_id int_no : ℕ) (vm : Vm)
    → IsWellFormed vm
    → IsWellFormed (trigger_interrupt_target core_id int_no vm)
unfolding trigger_interrupt_target
trigger-IsWellFormed core_id int_no vm good =
    if-both IsWellFormed (leb (2 ^ 31) core_id || leb vm.smp_cores core_id || leb ivt_size int_no)
      good good
