-- ===== src/Machine/Interrupt/Frame.antt =====
-- The loops that save and restore the registers, over the interrupt stack as slots of 64 bits.
use lamp_vm.Common.Tests.{
  ℕ, zero, suc, ◌+◌, ◌-◌, ◌*◌, ◌^◌, ◌≤◌, ◌<◌, ◌≡◌, ◌⊎◌, inl, inr, refl, ap, ◌∙◌, arith,
}
use native.Mathlib.Nat.{eq-or-lt_of_le}
use lamp_vm.Common.Arrays.{update, update_self, update_ne}
use lamp_vm.Common.Word.{u32}
use lamp_vm.Machine.State.{Vm, ok, bind-ok, isr_stack_size}
use lamp_vm.Machine.Mmio.Cache.{CacheIsSound, forget-CacheIsSound}
use lamp_vm.Machine.Memory.Words.{two_words, two_words-store64, two_words-store64_apart}
use lamp_vm.Machine.Stack.{isr_push, isr_pop}
use lamp_vm.Machine.Stack.Lifo.{
  HasIsrStack, isr_slot, isr_pushed, isr_popped, isr_top, isr_push-eq, isr_pop-eq,
}
use lamp_vm.Machine.Interrupt.{push_regs, pop_regs}

-- The stack is where it was in a machine with the same map and stack base.
pub HasIsrStack-pushed : (v : ℕ) (vm : Vm) → HasIsrStack vm → HasIsrStack (isr_pushed v vm)
HasIsrStack-pushed v vm s = record {
  inside = s.inside;
  addressable = s.addressable;
  unclaimed = s.unclaimed;
}

abbrev pub with_regs : (ℕ → ℕ) → Vm → Vm
with_regs f vm = record vm { cpu = record vm.cpu { regs = f } }

-- The loop of `vm_enter_interrupt` from register `i` on.
abbrev pub regs_pushed : ℕ → ℕ → Vm → Vm
regs_pushed zero i vm = vm
regs_pushed (suc n) i vm = regs_pushed n (i + 1) (isr_pushed (vm.cpu.regs i) vm)

pub push_regs-eq :
    (n i : ℕ) (vm : Vm)
    → HasIsrStack vm
    → n ≤ vm.cpu.isp
    → vm.cpu.isp ≤ isr_stack_size
    → push_regs n i vm ≡ ok (tt, regs_pushed n i vm)
unfolding push_regs
push_regs-eq zero i vm s lo hi = refl
push_regs-eq (suc n) i vm s lo hi =
    bind-ok (isr_push (vm.cpu.regs i)) _ (isr_push-eq vm s (vm.cpu.regs i) (omega arith) hi)
    ∙ push_regs-eq n (i + 1) (isr_pushed (vm.cpu.regs i) vm)
        (HasIsrStack-pushed (vm.cpu.regs i) vm s) (omega arith) (omega arith)

pub regs_pushed_bitmap :
    (n i : ℕ) (vm : Vm) → (regs_pushed n i vm).interrupt_bitmap ≡ vm.interrupt_bitmap
regs_pushed_bitmap zero i vm = refl
regs_pushed_bitmap (suc n) i vm = regs_pushed_bitmap n (i + 1) (isr_pushed (vm.cpu.regs i) vm)

-- What the loop of pushes leaves.
pub record RegsPushed (n i : ℕ) (vm vm' : Vm) : Type 0 where
  pub same_regs : vm'.cpu.regs ≡ vm.cpu.regs
  pub same_base : vm'.cpu.isr_stack_base ≡ vm.cpu.isr_stack_base
  pub isp_down : vm'.cpu.isp + n ≡ vm.cpu.isp
  pub saved :
      (j : ℕ)
      → j < n
      → two_words vm'.memory (vm.cpu.isr_stack_base + (vm'.cpu.isp + (n - 1 - j)) * 8)
        ≡ vm.cpu.regs (i + j)
  pub above :
      (k : ℕ)
      → vm.cpu.isp ≤ k
      → two_words vm'.memory (vm.cpu.isr_stack_base + k * 8)
        ≡ two_words vm.memory (vm.cpu.isr_stack_base + k * 8)

module _ (n i : ℕ) (vm vm' : Vm) (words : (r : ℕ) → vm.cpu.regs r < 2 ^ 64)
    (lo : suc n ≤ vm.cpu.isp)
    (rest : RegsPushed n (i + 1) (isr_pushed (vm.cpu.regs i) vm) vm') where
  abbrev base : ℕ
  base = vm.cpu.isr_stack_base

  abbrev word_in : (ℕ → ℕ) → ℕ → ℕ
  word_in mem k = two_words mem (base + k * 8)

  first_saved : word_in vm'.memory (vm.cpu.isp - 1) ≡ vm.cpu.regs i
  first_saved =
      rest.above (vm.cpu.isp - 1) (omega arith)
      ∙ two_words-store64 vm.memory (base + (vm.cpu.isp - 1) * 8) (vm.cpu.regs i) (words i)

  all_saved :
      (j : ℕ) → j < suc n → word_in vm'.memory (vm'.cpu.isp + (suc n - 1 - j)) ≡ vm.cpu.regs (i + j)
  all_saved zero h =
      ap (word_in vm'.memory) (omega (arith, rest.isp_down))
      ∙ first_saved
      ∙ ap vm.cpu.regs (omega arith)
  all_saved (suc j) h =
      ap (word_in vm'.memory) (omega arith)
      ∙ rest.saved j (omega arith)
      ∙ ap vm.cpu.regs (omega arith)

  RegsPushed-step : RegsPushed (suc n) i vm vm'
  RegsPushed-step = record {
    same_regs = rest.same_regs;
    same_base = rest.same_base;
    isp_down = omega (arith, rest.isp_down);
    saved = all_saved;
    above = λ k h.
        rest.above k (omega arith)
        ∙ two_words-store64_apart vm.memory (base + (vm.cpu.isp - 1) * 8) (vm.cpu.regs i)
            (base + k * 8) (inr (omega arith));
  }

pub regs_pushed-RegsPushed :
    (n i : ℕ) (vm : Vm)
    → ((r : ℕ) → vm.cpu.regs r < 2 ^ 64)
    → n ≤ vm.cpu.isp
    → RegsPushed n i vm (regs_pushed n i vm)
regs_pushed-RegsPushed zero i vm words lo = record {
  same_regs = refl;
  same_base = refl;
  isp_down = omega arith;
  saved = λ j h. absurd (omega arith);
  above = λ k h. refl;
}
regs_pushed-RegsPushed (suc n) i vm words lo =
    RegsPushed-step n i vm (regs_pushed (suc n) i vm) words lo
      (regs_pushed-RegsPushed n (i + 1) (isr_pushed (vm.cpu.regs i) vm) words (omega arith))

-- The loop of `vm_iret`, from register `n - 1` down.
abbrev pub reg_popped : ℕ → Vm → Vm
reg_popped r vm = with_regs (update vm.cpu.regs r (u32 (isr_top vm))) (isr_popped vm)

abbrev pub regs_popped : ℕ → Vm → Vm
regs_popped zero vm = vm
regs_popped (suc r) vm = regs_popped r (reg_popped r vm)

pub HasIsrStack-reg_popped : (r : ℕ) (vm : Vm) → HasIsrStack vm → HasIsrStack (reg_popped r vm)
HasIsrStack-reg_popped r vm s = record {
  inside = s.inside;
  addressable = s.addressable;
  unclaimed = s.unclaimed;
}

pub pop_regs-eq :
    (n : ℕ) (vm : Vm)
    → HasIsrStack vm
    → CacheIsSound vm
    → vm.cpu.isp + n ≤ isr_stack_size
    → pop_regs n vm ≡ ok (tt, regs_popped n vm)
unfolding pop_regs
pop_regs-eq zero vm s sound h = refl
pop_regs-eq (suc r) vm s sound h =
    bind-ok isr_pop _ (isr_pop-eq vm s sound (omega arith))
    ∙ pop_regs-eq r (reg_popped r vm) (HasIsrStack-reg_popped r vm s)
        (forget-CacheIsSound (reg_popped r vm)) (omega arith)

-- What the loop of pops leaves.
pub record RegsPopped (n : ℕ) (vm vm' : Vm) : Type 0 where
  pub isp_up : vm'.cpu.isp ≡ vm.cpu.isp + n
  pub same_memory : vm'.memory ≡ vm.memory
  pub same_base : vm'.cpu.isr_stack_base ≡ vm.cpu.isr_stack_base
  pub restored :
      (r : ℕ)
      → r < n
      → vm'.cpu.regs r ≡ u32 (two_words vm.memory (isr_slot vm (vm.cpu.isp + (n - 1 - r))))
  pub others : (r : ℕ) → n ≤ r → vm'.cpu.regs r ≡ vm.cpu.regs r
  pub still_stack : HasIsrStack vm → HasIsrStack vm'
  pub still_sound : CacheIsSound vm → CacheIsSound vm'

module _ (n : ℕ) (vm vm' : Vm) (rest : RegsPopped n (reg_popped n vm) vm') where
  last_restored : vm'.cpu.regs n ≡ u32 (isr_top vm)
  last_restored = rest.others n (omega arith) ∙ update_self vm.cpu.regs n (u32 (isr_top vm))

  all_restored :
      (r : ℕ)
      → r < suc n
      → (r ≡ n) ⊎ (r < n)
      → vm'.cpu.regs r ≡ u32 (two_words vm.memory (isr_slot vm (vm.cpu.isp + (suc n - 1 - r))))
  all_restored r h (inl e) =
      ap vm'.cpu.regs e
      ∙ last_restored
      ∙ ap (λ k. u32 (two_words vm.memory (isr_slot vm k))) (omega arith)
  all_restored r h (inr l) =
      rest.restored r l ∙ ap (λ k. u32 (two_words vm.memory (isr_slot vm k))) (omega arith)

  RegsPopped-step : RegsPopped (suc n) vm vm'
  RegsPopped-step = record {
    isp_up = omega (arith, rest.isp_up);
    same_memory = rest.same_memory;
    same_base = rest.same_base;
    restored = λ r h. all_restored r h (eq-or-lt_of_le (omega arith));
    others = λ r h.
        rest.others r (omega arith) ∙ update_ne vm.cpu.regs n r (u32 (isr_top vm)) (omega arith);
    still_stack = λ s. rest.still_stack (HasIsrStack-reg_popped n vm s);
    still_sound = λ c. rest.still_sound (forget-CacheIsSound (reg_popped n vm));
  }

pub regs_popped-RegsPopped : (n : ℕ) (vm : Vm) → RegsPopped n vm (regs_popped n vm)
regs_popped-RegsPopped zero vm = record {
  isp_up = omega arith;
  same_memory = refl;
  same_base = refl;
  restored = λ r h. absurd (omega arith);
  others = λ r h. refl;
  still_stack = λ s. s;
  still_sound = λ c. c;
}
regs_popped-RegsPopped (suc n) vm =
    RegsPopped-step n vm (regs_popped (suc n) vm) (regs_popped-RegsPopped n (reg_popped n vm))
