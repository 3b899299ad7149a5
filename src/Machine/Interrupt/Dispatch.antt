-- ===== src/Machine/Interrupt/Dispatch.antt =====
-- What `vm_handle_interrupts` does with a pending interrupt.
use lamp_vm.Common.Tests.{ℕ, ◌+◌, ◌*◌, ◌≤◌, ◌<◌, ◌≡◌, ◌≢◌, inl, inr, eq-cases, refl, ◌∙◌, false}
use lamp_vm.Machine.State.{Vm, Outcome, ok, isr_stack_size, ivt_size, ivt_base, reg_count}
use lamp_vm.Machine.Mmio.Cache.{CacheIsSound, forget}
use lamp_vm.Machine.Memory.Words.{two_words}
use lamp_vm.Machine.Memory.Access.{IsRamPair}
use lamp_vm.Machine.Stack.Lifo.{HasIsrStack}
use lamp_vm.Machine.Interrupt.{vm_enter_interrupt, vm_handle_interrupts, uint64_max}
use lamp_vm.Machine.Interrupt.Pending.{pending}
use lamp_vm.Machine.Interrupt.Entry.{
  HasWords, CanEnter, Entered, entered, entered_bitmap, entered-Entered, vm_enter_interrupt-eq,
  vm_enter_interrupt-unset,
}
use lamp_vm.Machine.Interrupt.Search.{
  IsNext, Removes, taken, taken-Removes, vm_handle_interrupts-taken,
}

-- Any interrupt of the table can be looked up, and the stack has room for a frame.
pub record CanHandle (vm : Vm) : Type 0 where
  pub cache : CacheIsSound vm
  pub entries : (n : ℕ) → n < ivt_size → IsRamPair vm (ivt_base + n * 8)
  pub stack : HasIsrStack vm
  pub room : reg_count + 2 ≤ vm.cpu.isp
  pub size : vm.cpu.isp ≤ isr_stack_size
  pub words : HasWords vm

-- The table's entry of an interrupt.
abbrev pub entry_of : Vm → ℕ → ℕ
entry_of vm n = two_words vm.memory (ivt_base + n * 8)

-- What a core does about its pending interrupts: nothing, where there are none; it takes the lowest
-- one and drops it, where the table has no handler for it; it takes the lowest one and is in its
-- handler.
pub data Handles (vm : Vm) (r : Outcome (Unit {0} × Vm)) : Type 0 where
  quiet :
      ((n : ℕ) → n < ivt_size → pending vm vm.cpu.core_id n ≡ 0) → r ≡ ok (tt, vm) → Handles vm r
  ignored :
      (n : ℕ) (after : Vm)
      → IsNext vm vm.cpu.core_id n
      → entry_of vm n ≡ uint64_max
      → r ≡ ok (tt, after)
      → after.cpu ≡ vm.cpu
      → after.memory ≡ vm.memory
      → Removes vm vm.cpu.core_id n after
      → Handles vm r
  handled :
      (n : ℕ) (after : Vm)
      → IsNext vm vm.cpu.core_id n
      → entry_of vm n ≢ uint64_max
      → r ≡ ok (tt, after)
      → Entered n vm after
      → Removes vm vm.cpu.core_id n after
      → Handles vm r

module _ (vm : Vm) (can : CanHandle vm) (outside : vm.cpu.in_interrupt ≡ false) (n : ℕ)
    (next : IsNext vm vm.cpu.core_id n) where
  abbrev without : Vm
  without = taken vm vm.cpu.core_id n

  entry_in_ram : IsRamPair without (ivt_base + n * 8)
  entry_in_ram =
      let ram = can.entries n next.in_table in
      record {
        inside = ram.inside;
        addressable = ram.addressable;
        low_unclaimed = ram.low_unclaimed;
        high_unclaimed = ram.high_unclaimed;
      }

  without-CanEnter : entry_of vm n ≢ uint64_max → CanEnter n without
  without-CanEnter is_set = record {
    cache = can.cache;
    outside = outside;
    number = next.in_table;
    entry = entry_in_ram;
    is_set = is_set;
    stack = record {
      inside = can.stack.inside;
      addressable = can.stack.addressable;
      unclaimed = can.stack.unclaimed;
    };
    room = can.room;
    size = can.size;
    words = record {
      regs_word = can.words.regs_word;
      flags_word = can.words.flags_word;
      ip_word = can.words.ip_word;
    };
  }

  -- Entry saves the same context, whatever is pending.
  without-Entered : (after : Vm) → Entered n without after → Entered n vm after
  without-Entered after e = record {
    at_handler = e.at_handler;
    argument = e.argument;
    inside = e.inside;
    same_base = e.same_base;
    isp_down = e.isp_down;
    frame = record {
      regs_saved = e.frame.regs_saved;
      flags_saved = e.frame.flags_saved;
      ip_saved = e.frame.ip_saved;
    };
  }

  next-Handles : (r : Outcome (Unit {0} × Vm)) → r ≡ vm_enter_interrupt n without → Handles vm r
  next-Handles r e = elim (eq-cases (entry_of vm n) uint64_max) [
    | inl unset ↦
        ignored n (forget without) next unset
          (e
            ∙ vm_enter_interrupt-unset n without can.cache entry_in_ram next.in_table outside unset)
          refl refl (taken-Removes vm vm.cpu.core_id n (forget without) next.in_table refl)
    | inr is_set ↦
        let enters = without-CanEnter is_set in
        handled n (entered n without) next is_set (e ∙ vm_enter_interrupt-eq n without enters)
          (without-Entered (entered n without) (entered-Entered n without enters))
          (taken-Removes vm vm.cpu.core_id n (entered n without) next.in_table
            (entered_bitmap n without))
  ]

-- Outside a handler and unmasked, with a table in RAM and room on the interrupt stack, the call
-- returns: a core with nothing pending goes on unchanged; otherwise its lowest pending interrupt,
-- and no other of any core, is no longer pending afterwards, and the core is in the handler that
-- the table names, with its context saved, or, where the table's entry is not set, goes on with
-- registers and memory unchanged.
pub handle_interrupts_lowest :
    (vm : Vm)
    → CanHandle vm
    → vm.cpu.in_interrupt ≡ false
    → vm.cpu.irq_masked ≡ false
    → Handles vm (vm_handle_interrupts vm)
handle_interrupts_lowest vm can outside unmasked =
    elim (vm_handle_interrupts-taken vm outside unmasked) [
      | inl (none_pending, same) ↦ quiet none_pending same
      | inr (n, next, e) ↦ next-Handles vm can outside n next (vm_handle_interrupts vm) e
    ]
