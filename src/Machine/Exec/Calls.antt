-- ===== src/Machine/Exec/Calls.antt =====
-- CALL and RET over the call stack in RAM.
use lamp_vm.Common.Tests.{
  ℕ, ◌+◌, ◌-◌, ◌*◌, ◌^◌, ◌≤◌, ◌<◌, ◌≡◌, refl, ap, ◌∙◌, false, leb, ◌==◌, if-false, arith,
}
use lamp_vm.Common.Word.{u32, add32}
use lamp_vm.Machine.State.{Vm, ok, bind-ok, call_stack_size}
use lamp_vm.Machine.Mmio.Cache.{CacheIsSound, forget}
use lamp_vm.Machine.Memory.{vm_read64, vm_write64}
use lamp_vm.Machine.Memory.Words.{store64, two_words, two_words-store64}
use lamp_vm.Machine.Memory.Access.{IsRamPair, with_memory, vm_write64-ram, vm_read64-ram}
use lamp_vm.Machine.Stack.{call_push, call_pop}
use lamp_vm.Machine.Stack.Lifo.{IsRamStack}
use lamp_vm.Machine.Decode.{Inst}
use lamp_vm.Machine.Exec.Branch.{exec_call, exec_ret}

abbrev pub HasCallStack : Vm → Type 0
HasCallStack vm = IsRamStack vm vm.cpu.call_stack_base call_stack_size 8

abbrev call_slot : Vm → ℕ → ℕ
call_slot vm k = vm.cpu.call_stack_base + k * 8

abbrev with_csp : ℕ → Vm → Vm
with_csp n vm = record vm { cpu = record vm.cpu { csp = n } }

abbrev call_pushed : ℕ → Vm → Vm
call_pushed v vm =
    with_memory (store64 vm.memory (call_slot vm (vm.cpu.csp - 1)) v) (with_csp (vm.cpu.csp - 1) vm)

abbrev with_ip : ℕ → Vm → Vm
with_ip n vm = record vm { cpu = record vm.cpu { ip = n } }

module _ (vm : Vm) (stack : HasCallStack vm) where
  call_push-eq :
      (v : ℕ)
      → 0 < vm.cpu.csp
      → vm.cpu.csp ≤ call_stack_size
      → call_push v vm ≡ ok (tt, call_pushed v vm)
  unfolding call_push
  call_push-eq v lo hi =
      let below = with_csp (vm.cpu.csp - 1) vm in
      let nonzero : (vm.cpu.csp == 0) ≡ false = ground arith in
      let address : add32 vm.cpu.call_stack_base ((vm.cpu.csp - 1) * 8)
          ≡ call_slot vm (vm.cpu.csp - 1) =
        (omega (arith, stack.inside, stack.addressable)) in
      if-false _ _ nonzero
      ∙ ap (λ a. vm_write64 a v below) address
      ∙ vm_write64-ram (call_slot vm (vm.cpu.csp - 1)) v below (omega (arith, stack.inside))

  call_pop-eq :
      CacheIsSound vm
      → vm.cpu.csp < call_stack_size
      → call_pop vm
        ≡ ok (two_words vm.memory (call_slot vm vm.cpu.csp), with_csp (vm.cpu.csp + 1) (forget vm))
  unfolding call_pop
  call_pop-eq sound h =
      let room : leb call_stack_size vm.cpu.csp ≡ false = ground arith in
      let address : add32 vm.cpu.call_stack_base (vm.cpu.csp * 8) ≡ call_slot vm vm.cpu.csp =
        (omega (arith, stack.inside, stack.addressable)) in
      let pair : IsRamPair vm (call_slot vm vm.cpu.csp) = record {
        inside = omega (arith, stack.inside);
        addressable = stack.addressable;
        low_unclaimed = stack.unclaimed (call_slot vm vm.cpu.csp) (omega arith) (omega arith);
        high_unclaimed = stack.unclaimed (call_slot vm vm.cpu.csp + 4) (omega arith) (omega arith);
      } in
      if-false _ _ room
      ∙ bind-ok (vm_read64 (add32 vm.cpu.call_stack_base (vm.cpu.csp * 8))) _
          (ap (λ a. vm_read64 a vm) address ∙ vm_read64-ram (call_slot vm vm.cpu.csp) vm sound pair)

-- CALL with room on the call stack returns and goes to its target; RET from there returns and goes
-- on after the call, with the call stack pointer and the registers as before the call.
pub ret-call :
    (c r : Inst) (vm : Vm)
    → CacheIsSound vm
    → HasCallStack vm
    → 0 < vm.cpu.csp
    → vm.cpu.csp ≤ call_stack_size
    → vm.cpu.ip < 2 ^ 32
    → (called : Vm) × (back : Vm) × (exec_call c vm ≡ ok (tt, called))
      × (called.cpu.ip ≡ c.imm)
      × (exec_ret r called ≡ ok (tt, back))
      × (back.cpu.ip ≡ vm.cpu.ip)
      × (back.cpu.csp ≡ vm.cpu.csp)
      × (back.cpu.regs ≡ vm.cpu.regs)
unfolding exec_call exec_ret
ret-call c r vm sound stack lo hi small =
    let ip = u32 vm.cpu.ip in
    let pushed = call_pushed ip vm in
    let called = with_ip c.imm pushed in
    let popped = with_csp (vm.cpu.csp - 1 + 1) (forget called) in
    let top = two_words called.memory (call_slot called called.cpu.csp) in
    let stack' : HasCallStack called = record {
      inside = stack.inside;
      addressable = stack.addressable;
      unclaimed = stack.unclaimed;
    } in
    let saved : top ≡ ip =
      two_words-store64 vm.memory (call_slot vm (vm.cpu.csp - 1)) ip (omega arith) in
    (
      called,
      with_ip (u32 top) popped,
      bind-ok (call_push ip) _ (call_push-eq vm stack ip lo hi),
      refl,
      bind-ok call_pop _ (call_pop-eq called stack' sound (omega arith)),
      ap u32 saved ∙ omega arith,
      omega arith,
      refl,
    )
