-- ===== src/Machine/Interrupt/Return.antt =====
-- Return from an interrupt handler.
use lamp_vm.Common.Tests.{
  ℕ, ◌+◌, ◌-◌, ◌*◌, ◌^◌, ◌≤◌, ◌<◌, ◌≡◌, subst, refl, sym, ap, ◌∙◌, true, false, if-true, arith,
}
use lamp_vm.Common.Word.{u32}
use lamp_vm.Machine.State.{
  Vm, M, Outcome, ok, exit, undefined, ◌>>=◌, ◌>>◌, bind-ok, set_cpu, isr_stack_size, reg_count,
}
use lamp_vm.Machine.Mmio.Cache.{CacheIsSound, forget-CacheIsSound}
use lamp_vm.Machine.Memory.Words.{two_words}
use lamp_vm.Machine.Stack.{isr_pop}
use lamp_vm.Machine.Stack.Lifo.{HasIsrStack, isr_slot, isr_popped, isr_top, isr_pop-eq}
use lamp_vm.Machine.Interrupt.{pop_regs, vm_enter_interrupt, restore_context, vm_iret}
use lamp_vm.Machine.Interrupt.Frame.{regs_popped, pop_regs-eq, RegsPopped, regs_popped-RegsPopped}
use lamp_vm.Machine.Interrupt.Entry.{
  IsFrame, CanEnter, Entered, entered, entered-Entered, vm_enter_interrupt-eq,
}

-- A machine inside the handler whose interrupt stack is as `from` has it.
pub record CanReturn (from later : Vm) : Type 0 where
  pub cache : CacheIsSound later
  pub inside : later.cpu.in_interrupt ≡ true
  pub stack : HasIsrStack later
  pub same_isp : later.cpu.isp ≡ from.cpu.isp
  pub same_base : later.cpu.isr_stack_base ≡ from.cpu.isr_stack_base
  pub same_frame :
      (k : ℕ)
      → k < reg_count + 2
      → two_words later.memory (isr_slot later (later.cpu.isp + k))
        ≡ two_words from.memory (isr_slot from (from.cpu.isp + k))

-- What the interrupted code gets back.
pub record Resumed (vm back : Vm) : Type 0 where
  pub same_regs : (r : ℕ) → r < reg_count → back.cpu.regs r ≡ vm.cpu.regs r
  pub same_flags : back.cpu.flags ≡ vm.cpu.flags
  pub same_ip : back.cpu.ip ≡ vm.cpu.ip
  pub same_isp : back.cpu.isp ≡ vm.cpu.isp
  pub outside : back.cpu.in_interrupt ≡ false

restore_n : ℕ → M (Unit {0})
restore_n n = do
  pop_regs n
  flags ← isr_pop
  set_cpu (λ c. record c { flags = u32 flags })
  ip ← isr_pop
  set_cpu (λ c. record c { ip = u32 ip })

popped_n : ℕ → Vm → Vm
popped_n n vm = regs_popped n vm

abbrev flags_popped : Vm → Vm
flags_popped vm = record (isr_popped vm) {
  cpu = record (isr_popped vm).cpu { flags = u32 (isr_top vm) };
}

abbrev ip_popped : Vm → Vm
ip_popped vm = record (isr_popped vm) { cpu = record (isr_popped vm).cpu { ip = u32 (isr_top vm) } }

module _ (n : ℕ) (vm : Vm) (stack : HasIsrStack vm) (sound : CacheIsSound vm)
    (room : vm.cpu.isp + (n + 2) ≤ isr_stack_size) where
  abbrev popped : Vm
  popped = popped_n n vm

  popped_n-RegsPopped : RegsPopped n vm popped
  unfolding popped_n
  popped_n-RegsPopped = regs_popped-RegsPopped n vm

  pop_regs-popped_n : pop_regs n vm ≡ ok (tt, popped)
  unfolding popped_n
  pop_regs-popped_n = pop_regs-eq n vm stack sound (omega arith)

  popped_stack : HasIsrStack popped
  popped_stack = popped_n-RegsPopped.still_stack stack

  restore_n-eq : restore_n n vm ≡ ok (tt, ip_popped (flags_popped popped))
  unfolding restore_n
  restore_n-eq =
      let up = popped_n-RegsPopped.isp_up in
      let s = popped_stack in
      let stack' : HasIsrStack (flags_popped popped) = record {
        inside = s.inside;
        addressable = s.addressable;
        unclaimed = s.unclaimed;
      } in
      bind-ok (pop_regs n) _ pop_regs-popped_n
      ∙ bind-ok isr_pop _ (
          isr_pop-eq popped popped_stack (popped_n-RegsPopped.still_sound sound)
            (omega (arith, up)))
      ∙ bind-ok isr_pop _ (
          isr_pop-eq (flags_popped popped) stack' (forget-CacheIsSound (flags_popped popped))
            (omega (arith, up)))

restore_context-eq :
    (vm : Vm)
    → HasIsrStack vm
    → CacheIsSound vm
    → vm.cpu.isp + (reg_count + 2) ≤ isr_stack_size
    → restore_context vm ≡ ok (tt, ip_popped (flags_popped (popped_n reg_count vm)))
unfolding restore_context restore_n
restore_context-eq vm stack sound room = restore_n-eq reg_count vm stack sound room

abbrev returned : Vm → Vm
returned later =
    let back = ip_popped (flags_popped (popped_n reg_count later)) in
    record back { cpu = record back.cpu { in_interrupt = false } }

vm_iret-eq :
    (later : Vm)
    → HasIsrStack later
    → CacheIsSound later
    → later.cpu.in_interrupt ≡ true
    → later.cpu.isp + (reg_count + 2) ≤ isr_stack_size
    → vm_iret later ≡ ok (tt, returned later)
unfolding vm_iret
vm_iret-eq later stack sound inside room =
    if-true _ _ inside ∙ bind-ok restore_context _ (restore_context-eq later stack sound room)

-- The machine of a call that returned.
state_of : {A : Type 0} → Vm → Outcome (A × Vm) → Vm
state_of vm (ok (_, after)) = after
state_of vm (exit p) = vm
state_of vm undefined = vm

-- Slot `k` of the frame, seen from the machine that returns.
module _ (int_no : ℕ) (vm later : Vm) (can : CanEnter int_no vm)
    (ret : CanReturn (entered int_no vm) later) where
  abbrev from : Vm
  from = entered int_no vm

  abbrev frame : IsFrame reg_count vm from.memory from.cpu.isp
  frame = (entered-Entered int_no vm can).frame

  slot-eq :
      (k : ℕ)
      → k < reg_count + 2
      → two_words later.memory (isr_slot later (later.cpu.isp + k))
        ≡ two_words from.memory (isr_slot vm (from.cpu.isp + k))
  slot-eq k h =
      ret.same_frame k h
      ∙ ap (λ b. two_words from.memory (b + (from.cpu.isp + k) * 8))
          (entered-Entered int_no vm can).same_base

  abbrev entry_facts : Entered int_no vm from
  entry_facts = entered-Entered int_no vm can

  room_above : later.cpu.isp + (reg_count + 2) ≤ isr_stack_size
  room_above = omega (arith, ret.same_isp, entry_facts.isp_down, can.size)

  abbrev popped_regs : RegsPopped reg_count later (popped_n reg_count later)
  popped_regs = popped_n-RegsPopped reg_count later ret.stack ret.cache room_above

  -- Slot `k` of the frame, seen when the registers are popped.
  abbrev mid : Vm
  mid = popped_n reg_count later

  mid-slot :
      (j k : ℕ)
      → k < reg_count + 2
      → j ≡ later.cpu.isp + k
      → two_words mid.memory (isr_slot mid j)
        ≡ two_words from.memory (isr_slot vm (from.cpu.isp + k))
  mid-slot j k h e =
      ap (λ m. two_words m (isr_slot mid j)) popped_regs.same_memory
      ∙ ap (λ b. two_words later.memory (b + j * 8)) popped_regs.same_base
      ∙ ap (λ x. two_words later.memory (isr_slot later x)) e
      ∙ slot-eq k h

  u32-small : (x : ℕ) → x < 2 ^ 32 → u32 x ≡ x
  u32-small x h = omega arith

  reg_restored : (r : ℕ) → r < reg_count → mid.cpu.regs r ≡ vm.cpu.regs r
  reg_restored r h =
      popped_regs.restored r h
      ∙ ap u32 (slot-eq (reg_count - 1 - r) (omega arith) ∙ frame.regs_saved r h)
      ∙ u32-small (vm.cpu.regs r) (can.words.regs_word r)

  returned-Resumed : Resumed vm (returned later)
  returned-Resumed =
      let up = popped_regs.isp_up in
      record {
        same_regs = reg_restored;
        same_flags =
            ap u32 (mid-slot mid.cpu.isp reg_count (omega arith) up ∙ frame.flags_saved)
            ∙ u32-small vm.cpu.flags can.words.flags_word;
        same_ip =
            ap u32 (
              mid-slot (mid.cpu.isp + 1) (reg_count + 1) (omega arith) (omega (arith, up))
              ∙ ap (λ k. two_words from.memory (isr_slot vm k)) (omega arith)
              ∙ frame.ip_saved)
            ∙ u32-small vm.cpu.ip can.words.ip_word;
        same_isp = omega (arith, up, ret.same_isp, entry_facts.isp_down);
        outside = refl;
      }

-- Whatever the handler did, as long as the core is inside it and the interrupt stack is as entry left it, the
-- return from the interrupt returns and gives the interrupted code back its 32 registers, flags,
-- instruction pointer and interrupt stack pointer, outside a handler.
pub interrupt_return :
    (int_no : ℕ) (vm after later : Vm)
    → CanEnter int_no vm
    → vm_enter_interrupt int_no vm ≡ ok (tt, after)
    → CanReturn after later
    → (back : Vm) × (vm_iret later ≡ ok (tt, back)) × Resumed vm back
unfolding state_of
interrupt_return int_no vm after later can entry ret =
    let same : after ≡ entered int_no vm =
      ap (state_of vm) (sym entry ∙ vm_enter_interrupt-eq int_no vm can) in
    let ret' = subst (λ m. CanReturn m later) same ret in
    (
      returned later,
      vm_iret-eq later ret'.stack ret'.cache ret'.inside (room_above int_no vm later can ret'),
      returned-Resumed int_no vm later can ret',
    )
