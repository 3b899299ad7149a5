-- ===== src/Machine/Invariant/Devices.antt =====
-- The instructions for ports, interrupts and other cores.
use lamp_vm.Common.Tests.{
  ℕ, ◌^◌, Bool, ◌||◌, not, ◌==◌, if◌then◌else◌, if-both, if-split, leb, arith,
}
use lamp_vm.Common.Word.{add32}
use lamp_vm.Machine.State.{Vm, Vcpu, io_size, call_stack_size, data_stack_size}
use lamp_vm.Machine.Decode.{Inst}
use lamp_vm.Machine.Io.{screen_attribute, keyboard, cpu_ctx_csp, cpu_ctx_dsp, cpu_ctx_irq_mask}
use lamp_vm.Machine.Exec.System
use lamp_vm.Machine.Exec.System.{
  in_keyboard, serial_rx_take, serial_rx_refresh, serial_rx_acknowledge, release,
}
use lamp_vm.Machine.Invariant.Base.{
  IsCore, IsWellFormed, Keeps, IsAny, IsWord, IsCore-csp, IsCore-dsp, Keeps->>=, Keeps-pure,
  Keeps-panic, Keeps-modify, Keeps-gets, Keeps-set_cpu, Keeps-if, Keeps-set_logic,
}
use lamp_vm.Machine.Invariant.Frames.{trigger-IsWellFormed, Keeps-vm_enter_interrupt, Keeps-vm_iret}
use lamp_vm.Machine.Invariant.Instructions.{with_one, with_two}
use lamp_vm.Machine.Invariant.Ports.{accept_io-IsWellFormed, Keeps-in_keyboard, read_into}

masked-IsCore : (c : Vcpu) (b : Bool) → IsCore c → IsCore (record c { irq_masked = b })
masked-IsCore c b h = record {
  regs_words = h.regs_words;
  csp_inside = h.csp_inside;
  dsp_inside = h.dsp_inside;
  isp_inside = h.isp_inside;
  id_word = h.id_word;
}

started-IsCore : (c : Vcpu) (ip : ℕ) → IsCore c → IsCore (record c { ip = ip; last_ip = ip })
started-IsCore c ip h = record {
  regs_words = h.regs_words;
  csp_inside = h.csp_inside;
  dsp_inside = h.dsp_inside;
  isp_inside = h.isp_inside;
  id_word = h.id_word;
}

abbrev start : ℕ → ℕ → Vm → Vm
start target entry vm =
    if (target == 0) || leb (2 ^ 31) target || leb vm.smp_cores target
    then vm
    else release target entry vm

start-IsWellFormed :
    (target entry : ℕ) (vm : Vm) → IsWellFormed vm → IsWellFormed (start target entry vm)
start-IsWellFormed target entry vm good =
    if-both IsWellFormed ((target == 0) || leb (2 ^ 31) target || leb vm.smp_cores target) {x = vm}
      {y = release target entry vm} good
      (
        good.0,
        λ n.
            if-both IsCore (target == n) (started-IsCore (vm.cpus target) entry (good.1 target))
              (good.1 n),
        good.2,
        good.3,
        good.4,
        good.5,
        good.6,
      )

module _ (i : Inst) (word : IsWord i.imm) where
  pub Keeps-exec_in : Keeps IsAny (System.exec_in i)
  unfolding System.exec_in
  Keeps-exec_in = with_one i.rs1 λ addr p. Keeps-if (leb io_size addr) (Keeps-panic _) (
      Keeps-if (addr == cpu_ctx_csp)
        (read_into i.rd _ (λ vm good. let h = good.0.csp_inside in omega arith))
        (Keeps-if (addr == cpu_ctx_dsp)
          (read_into i.rd _ (λ vm good. let h = good.0.dsp_inside in omega arith))
          (Keeps-if (addr == cpu_ctx_irq_mask)
            (read_into i.rd _
              (λ vm good. if-both IsWord vm.cpu.irq_masked (omega arith) (omega arith)))
            (Keeps-if (addr == keyboard) (Keeps-in_keyboard i.rd) (
              Keeps-if (addr == screen_attribute) (read_into i.rd _ (λ vm good. omega arith))
                (read_into i.rd _ (λ vm good. good.4 addr)))))))

  pub Keeps-exec_out : Keeps IsAny (System.exec_out i)
  unfolding System.exec_out
  Keeps-exec_out = with_one i.rs1 λ addr p. Keeps-if (leb io_size addr) (Keeps-panic _) (
      with_one i.rd λ v q.
        Keeps-if (addr == cpu_ctx_csp)
          (Keeps-set_cpu _ λ c h.
            if-split IsCore (leb v call_stack_size) (λ e. IsCore-csp c v h (ground arith)) (λ e. h))
          (Keeps-if (addr == cpu_ctx_dsp)
            (Keeps-set_cpu _ λ c h.
              if-split IsCore (leb v data_stack_size) (λ e. IsCore-dsp c v h (ground arith))
                (λ e. h))
            (Keeps-if (addr == cpu_ctx_irq_mask)
              (Keeps-set_cpu _ λ c h. masked-IsCore c (not (v == 0)) h)
              (Keeps-modify _ λ vm good. accept_io-IsWellFormed addr v vm q good))))

  pub Keeps-exec_int : Keeps IsAny (System.exec_int i)
  unfolding System.exec_int
  Keeps-exec_int = with_one i.rd λ n p. Keeps-vm_enter_interrupt n

  pub Keeps-exec_iret : Keeps IsAny (System.exec_iret i)
  unfolding System.exec_iret
  Keeps-exec_iret = Keeps-vm_iret

  pub Keeps-exec_halt : Keeps IsAny (System.exec_halt i)
  unfolding System.exec_halt
  Keeps-exec_halt = Keeps-modify _ λ vm good. good

  pub Keeps-exec_startap : Keeps IsAny (System.exec_startap i)
  unfolding System.exec_startap
  Keeps-exec_startap =
      Keeps->>= {Q = IsAny} (Keeps-gets (λ vm. vm.cpu.is_bsp) (λ vm good. tt)) λ bsp u.
        Keeps-if (not bsp) (Keeps-pure tt tt) (
          with_two i.rd i.rs1 λ target base p q.
            Keeps-modify (start target (add32 base i.imm))
              (start-IsWellFormed target (add32 base i.imm)))

  pub Keeps-exec_ipi : Keeps IsAny (System.exec_ipi i)
  unfolding System.exec_ipi
  Keeps-exec_ipi =
      with_two i.rd i.rs1 λ target n p q. Keeps-modify _ (trigger-IsWellFormed target n)

  pub Keeps-exec_cpuid : Keeps IsAny (System.exec_cpuid i)
  unfolding System.exec_cpuid
  Keeps-exec_cpuid =
      Keeps->>= (Keeps-gets _ (λ vm good. good.0.id_word)) λ id w. Keeps-set_logic i.rd id w

  pub Keeps-exec_fence : Keeps IsAny (System.exec_fence i)
  unfolding System.exec_fence
  Keeps-exec_fence = Keeps-pure tt tt

  pub Keeps-exec_pause : Keeps IsAny (System.exec_pause i)
  unfolding System.exec_pause
  Keeps-exec_pause = Keeps-pure tt tt
