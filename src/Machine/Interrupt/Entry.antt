-- ===== src/Machine/Interrupt/Entry.antt =====
-- Entry to an interrupt handler.
use lamp_vm.Common.Tests.{
  ℕ, ◌+◌, ◌-◌, ◌*◌, ◌^◌, ◌≤◌, ◌<◌, ◌≡◌, ◌≢◌, inr, refl, ap, ◌∙◌, true, false, ◌||◌, leb, ◌==◌,
  if-false, if-true, ne→==_false, arith,
}
use lamp_vm.Common.Arrays.{update_self}
use lamp_vm.Common.Word.{u32}
use lamp_vm.Machine.State.{
  Vm, M, ok, ◌>>=◌, ◌>>◌, bind-ok, gets, isr_stack_size, ivt_size, ivt_base, reg_count,
}
use lamp_vm.Machine.Mmio.Cache.{CacheIsSound, forget}
use lamp_vm.Machine.Memory.Words.{two_words, two_words-store64, two_words-store64_apart}
use lamp_vm.Machine.Memory.{vm_read64}
use lamp_vm.Machine.Memory.Access.{IsRamPair, vm_read64-ram}
use lamp_vm.Machine.Stack.{isr_push}
use lamp_vm.Machine.Stack.Lifo.{HasIsrStack, isr_slot, isr_pushed, isr_push-eq}
use lamp_vm.Machine.Interrupt.{
  push_regs, save_context, enter_isr, vm_enter_interrupt, uint64_max, isr_arg_reg,
}
use lamp_vm.Machine.Interrupt.Frame.{
  HasIsrStack-pushed, regs_pushed, regs_pushed_bitmap, push_regs-eq, RegsPushed,
  regs_pushed-RegsPushed,
}

-- The frame of an interrupt: the registers from the last on, the flags and the instruction pointer.
pub record IsFrame (n : ℕ) (vm : Vm) (memory : ℕ → ℕ) (at : ℕ) : Type 0 where
  pub regs_saved :
      (j : ℕ) → j < n → two_words memory (isr_slot vm (at + (n - 1 - j))) ≡ vm.cpu.regs j
  pub flags_saved : two_words memory (isr_slot vm (at + n)) ≡ vm.cpu.flags
  pub ip_saved : two_words memory (isr_slot vm (at + n + 1)) ≡ vm.cpu.ip

-- Registers, flags and instruction pointer of 32 bits.
pub record HasWords (vm : Vm) : Type 0 where
  pub regs_word : (r : ℕ) → vm.cpu.regs r < 2 ^ 32
  pub flags_word : vm.cpu.flags < 2 ^ 32
  pub ip_word : vm.cpu.ip < 2 ^ 32

save_n : ℕ → M (Unit {0})
save_n n = do
  ip ← gets (λ vm. vm.cpu.ip)
  isr_push ip
  flags ← gets (λ vm. vm.cpu.flags)
  isr_push flags
  push_regs n 0

abbrev head_pushed : Vm → Vm
head_pushed vm = isr_pushed vm.cpu.flags (isr_pushed vm.cpu.ip vm)

pub saved_n : ℕ → Vm → Vm
saved_n n vm = regs_pushed n 0 (head_pushed vm)

module _ (n : ℕ) (vm : Vm) (stack : HasIsrStack vm) (room : n + 2 ≤ vm.cpu.isp) where
  save_n-eq : vm.cpu.isp ≤ isr_stack_size → save_n n vm ≡ ok (tt, saved_n n vm)
  unfolding save_n saved_n
  save_n-eq hi =
      let one = isr_pushed vm.cpu.ip vm in
      bind-ok (isr_push vm.cpu.ip) _ (isr_push-eq vm stack vm.cpu.ip (omega arith) hi)
      ∙ bind-ok (isr_push vm.cpu.flags) _ (
          isr_push-eq one (HasIsrStack-pushed vm.cpu.ip vm stack) vm.cpu.flags (omega arith)
            (omega arith))
      ∙ push_regs-eq n 0 (head_pushed vm)
          (HasIsrStack-pushed vm.cpu.flags one (HasIsrStack-pushed vm.cpu.ip vm stack))
          (omega arith) (omega arith)

  saved_n-RegsPushed : HasWords vm → RegsPushed n 0 (head_pushed vm) (saved_n n vm)
  unfolding saved_n
  saved_n-RegsPushed words =
      regs_pushed-RegsPushed n 0 (head_pushed vm)
        (λ r. let small : vm.cpu.regs r < 2 ^ 32 = words.regs_word r in omega (arith, small))
        (omega arith)

  saved_n-IsFrame :
      HasWords vm
      → RegsPushed n 0 (head_pushed vm) (saved_n n vm)
      → IsFrame n vm (saved_n n vm).memory (saved_n n vm).cpu.isp
  saved_n-IsFrame words r =
      let one = isr_pushed vm.cpu.ip vm in
      let at = (saved_n n vm).cpu.isp in
      let word_in : (ℕ → ℕ) → ℕ → ℕ = λ mem k. two_words mem (isr_slot vm k) in
      record {
        regs_saved = λ j h. r.saved j h ∙ ap vm.cpu.regs (omega arith);
        flags_saved =
            ap (word_in (saved_n n vm).memory) (omega (arith, r.isp_down))
            ∙ r.above (vm.cpu.isp - 2) (omega arith)
            ∙ ap (word_in (head_pushed vm).memory) (omega arith)
            ∙ two_words-store64 one.memory (isr_slot vm (vm.cpu.isp - 1 - 1)) vm.cpu.flags
                (omega (arith, words.flags_word));
        ip_saved =
            ap (word_in (saved_n n vm).memory) (omega (arith, r.isp_down))
            ∙ r.above (vm.cpu.isp - 1) (omega arith)
            ∙ two_words-store64_apart one.memory (isr_slot vm (vm.cpu.isp - 1 - 1)) vm.cpu.flags
                (isr_slot vm (vm.cpu.isp - 1)) (inr (omega arith))
            ∙ two_words-store64 vm.memory (isr_slot vm (vm.cpu.isp - 1)) vm.cpu.ip
                (omega (arith, words.ip_word));
      }

save_context-eq :
    (vm : Vm)
    → HasIsrStack vm
    → reg_count + 2 ≤ vm.cpu.isp
    → vm.cpu.isp ≤ isr_stack_size
    → save_context vm ≡ ok (tt, saved_n reg_count vm)
unfolding save_context save_n
save_context-eq vm stack room hi = save_n-eq reg_count vm stack room hi

-- When an interrupt is taken: the core is outside a handler, the number is one of the table, the
-- table's entry is in RAM and set, and the stack has room for a frame.
pub record CanEnter (int_no : ℕ) (vm : Vm) : Type 0 where
  pub cache : CacheIsSound vm
  pub outside : vm.cpu.in_interrupt ≡ false
  pub number : int_no < ivt_size
  pub entry : IsRamPair vm (ivt_base + int_no * 8)
  pub is_set : two_words vm.memory (ivt_base + int_no * 8) ≢ uint64_max
  pub stack : HasIsrStack vm
  pub room : reg_count + 2 ≤ vm.cpu.isp
  pub size : vm.cpu.isp ≤ isr_stack_size
  pub words : HasWords vm

-- What entry leaves in `after`.
pub record Entered (int_no : ℕ) (vm after : Vm) : Type 0 where
  pub at_handler : after.cpu.ip ≡ u32 (two_words vm.memory (ivt_base + int_no * 8))
  pub argument : after.cpu.regs isr_arg_reg ≡ int_no
  pub inside : after.cpu.in_interrupt ≡ true
  pub same_base : after.cpu.isr_stack_base ≡ vm.cpu.isr_stack_base
  pub isp_down : after.cpu.isp + (reg_count + 2) ≡ vm.cpu.isp
  pub frame : IsFrame reg_count vm after.memory after.cpu.isp

abbrev pub entered : ℕ → Vm → Vm
entered int_no vm = record (saved_n reg_count (forget vm)) {
  cpu =
      enter_isr int_no (two_words vm.memory (ivt_base + int_no * 8))
        (saved_n reg_count (forget vm)).cpu;
}

pub entered_bitmap :
    (int_no : ℕ) (vm : Vm) → (entered int_no vm).interrupt_bitmap ≡ vm.interrupt_bitmap
unfolding saved_n
entered_bitmap int_no vm = regs_pushed_bitmap reg_count 0 (head_pushed (forget vm))

-- An entry that is not set leaves the core where it is.
pub vm_enter_interrupt-unset :
    (int_no : ℕ) (vm : Vm)
    → CacheIsSound vm
    → IsRamPair vm (ivt_base + int_no * 8)
    → int_no < ivt_size
    → vm.cpu.in_interrupt ≡ false
    → two_words vm.memory (ivt_base + int_no * 8) ≡ uint64_max
    → vm_enter_interrupt int_no vm ≡ ok (tt, forget vm)
unfolding vm_enter_interrupt
vm_enter_interrupt-unset int_no vm cache entry number outside unset =
    let address = ivt_base + int_no * 8 in
    let valid : leb ivt_size int_no ≡ false = ground (arith, number) in
    let here : (two_words vm.memory address == uint64_max) ≡ true =
      (ap (λ w. w == uint64_max) unset) in
    let skip : (leb ivt_size int_no || vm.cpu.in_interrupt) ≡ false = rw (valid, outside) in
    if-false _ _ skip
    ∙ bind-ok (vm_read64 address) _ (vm_read64-ram address vm cache entry)
    ∙ ap (λ (m : M (Unit {0})). m (forget vm)) (if-true _ _ here)

module _ (int_no : ℕ) (vm : Vm) (can : CanEnter int_no vm) where
  abbrev quiet_stack : HasIsrStack (forget vm)
  quiet_stack = record {
    inside = can.stack.inside;
    addressable = can.stack.addressable;
    unclaimed = can.stack.unclaimed;
  }

  pub vm_enter_interrupt-eq : vm_enter_interrupt int_no vm ≡ ok (tt, entered int_no vm)
  unfolding vm_enter_interrupt
  vm_enter_interrupt-eq =
      let address = ivt_base + int_no * 8 in
      let valid : leb ivt_size int_no ≡ false = (let n = can.number in ground arith) in
      let here : (two_words vm.memory address == uint64_max) ≡ false = ne→==_false _ _ can.is_set in
      let skip : (leb ivt_size int_no || vm.cpu.in_interrupt) ≡ false = rw (valid, can.outside) in
      if-false _ _ skip
      ∙ bind-ok (vm_read64 address) _ (vm_read64-ram address vm can.cache can.entry)
      ∙ ap (λ (m : M (Unit {0})). m (forget vm)) (if-false _ _ here)
      ∙ bind-ok save_context _ (save_context-eq (forget vm) quiet_stack can.room can.size)

  pub entered-Entered : Entered int_no vm (entered int_no vm)
  entered-Entered =
      let can_words : HasWords (forget vm) = record {
        regs_word = can.words.regs_word;
        flags_word = can.words.flags_word;
        ip_word = can.words.ip_word;
      } in
      let r = saved_n-RegsPushed reg_count (forget vm) quiet_stack can.room can_words in
      let f = saved_n-IsFrame reg_count (forget vm) quiet_stack can.room can_words r in
      record {
        at_handler = refl;
        argument = update_self (saved_n reg_count (forget vm)).cpu.regs isr_arg_reg int_no;
        inside = refl;
        same_base = r.same_base;
        isp_down = omega (arith, r.isp_down);
        frame = record {
          regs_saved = f.regs_saved;
          flags_saved = f.flags_saved;
          ip_saved = f.ip_saved;
        };
      }

-- An interrupt that can be taken is taken, and the call returns. The core is then in the handler
-- that the table names, with the interrupt's number in register 31, and its registers, flags and
-- instruction pointer before the interrupt are in the 34 slots that the interrupt stack grew by.
pub interrupt_entry :
    (int_no : ℕ) (vm : Vm)
    → CanEnter int_no vm
    → (after : Vm) × (vm_enter_interrupt int_no vm ≡ ok (tt, after)) × Entered int_no vm after
interrupt_entry int_no vm can =
    (entered int_no vm, vm_enter_interrupt-eq int_no vm can, entered-Entered int_no vm can)
