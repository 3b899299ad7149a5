-- ===== src/Machine/Stack.antt =====
-- stack.h: the data, call and interrupt stacks. They grow down from their sizes, and every push
-- and pop is checked. `int` to `vm_addr_t` conversions are of values from 0 to the size.
pub mod Lifo
use lamp_vm.Common.Tests.{ℕ, ◌+◌, ◌-◌, ◌*◌, leb, ◌==◌, if◌then◌else◌}
use lamp_vm.Common.Word.{add32}
use lamp_vm.Machine.State.{
  Vm, M, Outcome, exit, ok, undefined, Panic, ◌>>=◌, ◌>>◌, set_cpu, pure, panic, data_stack_size,
  call_stack_size, isr_stack_size, data_stack_overflow, data_stack_underflow, call_stack_overflow,
  call_stack_underflow, isr_stack_overflow, isr_stack_underflow,
}
use lamp_vm.Machine.Memory.{vm_read32, vm_write32, vm_read64, vm_write64}

unfoldable pub data_push : ℕ → M (Unit {0})
data_push val vm =
    if vm.cpu.dsp == 0
    then exit data_stack_overflow
    else let dsp = vm.cpu.dsp - 1 in
      vm_write32 (add32 vm.cpu.data_stack_base (dsp * 4)) val
        (record vm { cpu = record vm.cpu { dsp = dsp } })

unfoldable pub data_pop : M ℕ
data_pop vm =
    if leb data_stack_size vm.cpu.dsp
    then exit data_stack_underflow
    else (do
      val ← vm_read32 (add32 vm.cpu.data_stack_base (vm.cpu.dsp * 4))
      set_cpu (λ c. record c { dsp = c.dsp + 1 })
      pure val)
        vm

unfoldable pub call_push : ℕ → M (Unit {0})
call_push val vm =
    if vm.cpu.csp == 0
    then exit call_stack_overflow
    else let csp = vm.cpu.csp - 1 in
      vm_write64 (add32 vm.cpu.call_stack_base (csp * 8)) val
        (record vm { cpu = record vm.cpu { csp = csp } })

unfoldable pub call_pop : M ℕ
call_pop vm =
    if leb call_stack_size vm.cpu.csp
    then exit call_stack_underflow
    else (do
      val ← vm_read64 (add32 vm.cpu.call_stack_base (vm.cpu.csp * 8))
      set_cpu (λ c. record c { csp = c.csp + 1 })
      pure val)
        vm

unfoldable pub isr_push : ℕ → M (Unit {0})
isr_push val vm =
    if vm.cpu.isp == 0
    then exit isr_stack_overflow
    else let isp = vm.cpu.isp - 1 in
      vm_write64 (add32 vm.cpu.isr_stack_base (isp * 8)) val
        (record vm { cpu = record vm.cpu { isp = isp } })

unfoldable pub isr_pop : M ℕ
isr_pop vm =
    if leb isr_stack_size vm.cpu.isp
    then exit isr_stack_underflow
    else (do
      val ← vm_read64 (add32 vm.cpu.isr_stack_base (vm.cpu.isp * 8))
      set_cpu (λ c. record c { isp = c.isp + 1 })
      pure val)
        vm
