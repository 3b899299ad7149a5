-- ===== src/Machine/Exec/System.antt =====
-- Ports, interrupts, other cores, halt.
use lamp_vm.Common.Tests.{
  ℕ, ◌+◌, ◌-◌, ◌%◌, ◌^◌, Bool, true, not, ◌&&◌, ◌||◌, leb, ◌==◌, if◌then◌else◌,
}
use lamp_vm.Common.Arrays.{update}
use lamp_vm.Common.Word.{add32, not32}
use lamp_vm.Common.Bits.Step.{bit_or, bit_and}
use lamp_vm.Machine.State.{
  Vm, M, ◌>>=◌, ◌>>◌, gets, modify, set_cpu, pure, panic, in_address, out_address, io_size,
  call_stack_size, data_stack_size,
}
use lamp_vm.Machine.Decode.{Inst}
use lamp_vm.Machine.Interrupt.{
  vm_enter_interrupt, vm_iret, trigger_interrupt, trigger_interrupt_target, uint64_max,
}
use lamp_vm.Machine.Io.{
  accept_io, put_io, rx_int_enabled, keyboard, screen_attribute, cpu_ctx_csp, cpu_ctx_dsp,
  cpu_ctx_irq_mask, serial_status_rx_ready, int_serial,
}
use lamp_vm.Machine.Exec.Base.{reg, set_reg, set_logic}

abbrev rx_empty : Vm → Bool
rx_empty vm = vm.serial_rx_tail == vm.serial_rx_head

-- The byte that a read of the keyboard port takes, 0 from an empty queue, and the queue after it.
unfoldable pub serial_rx_take : Vm → ℕ × Vm
serial_rx_take vm = if rx_empty vm then (0, vm) else (
  vm.serial_rx_fifo vm.serial_rx_tail,
  record vm { serial_rx_tail = (vm.serial_rx_tail + 1) % 2 ^ 8 },
)

-- Port and status follow what the queue now holds.
unfoldable pub serial_rx_refresh : Vm → Vm
serial_rx_refresh vm =
    if rx_empty vm
    then put_io screen_attribute (bit_and (vm.io screen_attribute) (not32 serial_status_rx_ready))
        (put_io keyboard 0 vm)
    else put_io screen_attribute (bit_or (vm.io screen_attribute) serial_status_rx_ready)
        (put_io keyboard (vm.serial_rx_fifo vm.serial_rx_tail) vm)

-- A read acknowledges the keyboard (0) and serial (3) interrupts of core 0, and raises the serial
-- one again if bytes are left and it is enabled.
unfoldable pub serial_rx_acknowledge : Vm → Vm
serial_rx_acknowledge vm =
    let cleared = record vm {
      interrupt_bitmap =
          update vm.interrupt_bitmap 0
            (bit_and (vm.interrupt_bitmap 0) (uint64_max - bit_or (2 ^ 3) (2 ^ 0)));
    } in
    if not (rx_empty cleared) && rx_int_enabled cleared
    then trigger_interrupt int_serial cleared
    else cleared

unfoldable pub in_keyboard : ℕ → M (Unit {0})
unfolding serial_rx_take serial_rx_refresh serial_rx_acknowledge
in_keyboard rd vm =
    let (v, taken) = serial_rx_take vm in
    (do set_reg rd v; modify (λ s. serial_rx_acknowledge (serial_rx_refresh s))) taken

unfoldable pub exec_in : Inst → M (Unit {0})
unfolding in_keyboard
exec_in i = do
  addr ← reg i.rs1
  if leb io_size addr
      then panic (in_address addr)
      else if addr == cpu_ctx_csp
      then gets (λ vm. vm.cpu.csp) >>= set_reg i.rd
      else if addr == cpu_ctx_dsp
      then gets (λ vm. vm.cpu.dsp) >>= set_reg i.rd
      else if addr == cpu_ctx_irq_mask
      then gets (λ vm. if vm.cpu.irq_masked then 1 else 0) >>= set_reg i.rd
      else if addr == keyboard
      then in_keyboard i.rd
      else if addr == screen_attribute
      then gets (λ vm. vm.io screen_attribute % 2 ^ 8) >>= set_reg i.rd
      else gets (λ vm. vm.io addr) >>= set_reg i.rd

-- `v >= 0 && v <= size` of an `int`: a negative one is a pattern from 2 ^ 31 on.
unfoldable pub exec_out : Inst → M (Unit {0})
exec_out i = do
  addr ← reg i.rs1
  if leb io_size addr then panic (out_address addr) else do
    v ← reg i.rd
    if addr == cpu_ctx_csp
        then set_cpu (λ c. if leb v call_stack_size then record c { csp = v } else c)
        else if addr == cpu_ctx_dsp
        then set_cpu (λ c. if leb v data_stack_size then record c { dsp = v } else c)
        else if addr == cpu_ctx_irq_mask
        then set_cpu (λ c. record c { irq_masked = not (v == 0) })
        else modify (accept_io addr v)

unfoldable pub exec_int : Inst → M (Unit {0})
exec_int i = reg i.rd >>= vm_enter_interrupt

unfoldable pub exec_iret : Inst → M (Unit {0})
exec_iret i = vm_iret

unfoldable pub exec_halt : Inst → M (Unit {0})
exec_halt i = modify (λ vm. record vm { halted = true })

abbrev pub release : ℕ → ℕ → Vm → Vm
release target entry vm = record vm {
  cpus = update vm.cpus target (record (vm.cpus target) { ip = entry; last_ip = entry });
  core_released = update vm.core_released target true;
}

-- The target is an `int`: 0 and the patterns from 2 ^ 31 on are `target <= 0`.
unfoldable pub exec_startap : Inst → M (Unit {0})
exec_startap i = do
  bsp ← gets (λ vm. vm.cpu.is_bsp)
  if not bsp then pure tt else do
    target ← reg i.rd
    base ← reg i.rs1
    modify λ vm.
        if (target == 0) || leb (2 ^ 31) target || leb vm.smp_cores target
        then vm
        else release target (add32 base i.imm) vm

unfoldable pub exec_ipi : Inst → M (Unit {0})
exec_ipi i = do
  target ← reg i.rd
  int_no ← reg i.rs1
  modify (trigger_interrupt_target target int_no)

unfoldable pub exec_cpuid : Inst → M (Unit {0})
exec_cpuid i = do id ← gets (λ vm. vm.cpu.core_id); set_logic i.rd id

-- FENCE orders memory between threads and PAUSE yields the thread: neither changes the state.
unfoldable pub exec_fence : Inst → M (Unit {0})
exec_fence i = pure tt

unfoldable pub exec_pause : Inst → M (Unit {0})
exec_pause i = pure tt
