-- ===== src/Machine/Invariant/Rounds.antt =====
-- The invariant over instructions, rounds and schedules.
use lamp_vm.Common.Tests.{
  ℕ, ◌+◌, ◌%◌, ◌^◌, ◌≡◌, subst, Bool, true, false, ◌&&◌, not, Option, some, none, List, [], ◌∷◌,
  ◌==◌, if◌then◌else◌, if-both, leb, arith,
}
use lamp_vm.Machine.State.{Vm, Vcpu, Outcome, ok, exit, undefined}
use lamp_vm.Machine.Io.{disk_tick, int_disk_complete}
use lamp_vm.Machine.Decode.{Opcode, Inst, opcode_of, fetch64, decode, load64}
use lamp_vm.Machine.Exec.Float.{F32}
use lamp_vm.Machine.Step.{exec, exec_option, vm_instruction_case, thread_round, switch_core, run}
use lamp_vm.Machine.Invariant.Base.{
  IsCore, IsWellFormed, Holds, Keeps, IsAny, IsWord, Keeps->>=, Keeps-pure, Keeps-panic,
  Keeps-modify,
}
use lamp_vm.Machine.Invariant.Frames.{Keeps-vm_handle_interrupts}
use lamp_vm.Machine.Invariant.Instructions.{trigger_bsp}
use lamp_vm.Machine.Invariant.Instructions
use lamp_vm.Machine.Invariant.Transfers
use lamp_vm.Machine.Invariant.Devices
use lamp_vm.Machine.Invariant.Floats
use lamp_vm.Machine.Invariant.Floats.{ReturnsWords}

decode-imm : (w : ℕ) → IsWord (decode w).imm
unfolding decode
decode-imm w = omega arith

fetched-IsCore : (c : Vcpu) (ip last : ℕ) → IsCore c → IsCore (record c { last_ip = last; ip = ip })
fetched-IsCore c ip last h = record {
  regs_words = h.regs_words;
  csp_inside = h.csp_inside;
  dsp_inside = h.dsp_inside;
  isp_inside = h.isp_inside;
  id_word = h.id_word;
}

Keeps-fetch64 : Keeps (λ (i : Inst). IsWord i.imm) fetch64
unfolding fetch64
Keeps-fetch64 = record {
  at = λ vm good.
      if-both (Holds (λ (i : Inst). IsWord i.imm)) (leb (vm.cpu.ip % 2 ^ 32 + 8) vm.memory_size)
        (
          decode-imm (load64 vm.memory (vm.cpu.ip % 2 ^ 32)),
          (
            fetched-IsCore vm.cpu ((vm.cpu.ip % 2 ^ 32 + 8) % 2 ^ 32) (vm.cpu.ip % 2 ^ 32) good.0,
            good.1,
            good.2,
            good.3,
            good.4,
            good.5,
            good.6,
          ),
        )
        tt;
}

disk_tick-IsWellFormed : (vm : Vm) → IsWellFormed vm → IsWellFormed (disk_tick vm)
unfolding disk_tick
disk_tick-IsWellFormed vm good = if-both IsWellFormed (not vm.disk.busy) good (
    if-both IsWellFormed vm.disk.op_complete
      (trigger_bsp int_disk_complete
        (record vm { disk = record vm.disk { busy = false; op_complete = false } }) good)
      good)

abbrev ticked : Vm → Vm
ticked s = if s.cpu.core_id == 0 then disk_tick s else s

ticked-IsWellFormed : (vm : Vm) → IsWellFormed vm → IsWellFormed (ticked vm)
ticked-IsWellFormed vm good =
    if-both IsWellFormed (vm.cpu.core_id == 0) {x = disk_tick vm} {y = vm}
      (disk_tick-IsWellFormed vm good) good

switch_core-IsWellFormed : (n : ℕ) (vm : Vm) → IsWellFormed vm → IsWellFormed (switch_core n vm)
unfolding switch_core
switch_core-IsWellFormed n vm good = if-both IsWellFormed (n == vm.cpu.core_id) good (
  good.1 n,
  λ m. if-both IsCore (vm.cpu.core_id == m) good.0 (good.1 m),
  good.2,
  good.3,
  good.4,
  good.5,
  good.6,
)

module _ (f : F32) (words : ReturnsWords f) where
  Keeps-exec : (o : Opcode) (i : Inst) → IsWord i.imm → Keeps IsAny (exec f o i)
  unfolding exec
  Keeps-exec Opcode.add i w = Instructions.Keeps-exec_add i w
  Keeps-exec Opcode.sub i w = Instructions.Keeps-exec_sub i w
  Keeps-exec Opcode.mul i w = Instructions.Keeps-exec_mul i w
  Keeps-exec Opcode.cmp i w = Instructions.Keeps-exec_cmp i w
  Keeps-exec Opcode.cmpi i w = Instructions.Keeps-exec_cmpi i w
  Keeps-exec Opcode.mov i w = Instructions.Keeps-exec_mov i w
  Keeps-exec Opcode.movi i w = Instructions.Keeps-exec_movi i w
  Keeps-exec Opcode.and i w = Instructions.Keeps-exec_and i w
  Keeps-exec Opcode.or i w = Instructions.Keeps-exec_or i w
  Keeps-exec Opcode.xor i w = Instructions.Keeps-exec_xor i w
  Keeps-exec Opcode.not_op i w = Instructions.Keeps-exec_not i w
  Keeps-exec Opcode.shl i w = Instructions.Keeps-exec_shl i w
  Keeps-exec Opcode.shr i w = Instructions.Keeps-exec_shr i w
  Keeps-exec Opcode.sar i w = Instructions.Keeps-exec_sar i w
  Keeps-exec Opcode.rol i w = Instructions.Keeps-exec_rol i w
  Keeps-exec Opcode.ror i w = Instructions.Keeps-exec_ror i w
  Keeps-exec Opcode.div i w = Instructions.Keeps-exec_div i w
  Keeps-exec Opcode.mod_op i w = Instructions.Keeps-exec_mod i w
  Keeps-exec Opcode.inc i w = Instructions.Keeps-exec_inc i w
  Keeps-exec Opcode.addi i w = Instructions.Keeps-exec_addi i w
  Keeps-exec Opcode.subi i w = Instructions.Keeps-exec_subi i w
  Keeps-exec Opcode.andi i w = Instructions.Keeps-exec_andi i w
  Keeps-exec Opcode.ori i w = Instructions.Keeps-exec_ori i w
  Keeps-exec Opcode.xori i w = Instructions.Keeps-exec_xori i w
  Keeps-exec Opcode.shli i w = Instructions.Keeps-exec_shli i w
  Keeps-exec Opcode.shri i w = Instructions.Keeps-exec_shri i w
  Keeps-exec Opcode.roli i w = Instructions.Keeps-exec_roli i w
  Keeps-exec Opcode.rori i w = Instructions.Keeps-exec_rori i w
  Keeps-exec Opcode.jmp i w = Transfers.Keeps-exec_jmp i w
  Keeps-exec Opcode.rjmp i w = Transfers.Keeps-exec_rjmp i w
  Keeps-exec Opcode.call i w = Transfers.Keeps-exec_call i w
  Keeps-exec Opcode.rcall i w = Transfers.Keeps-exec_rcall i w
  Keeps-exec Opcode.callr i w = Transfers.Keeps-exec_callr i w
  Keeps-exec Opcode.ret i w = Transfers.Keeps-exec_ret i w
  Keeps-exec Opcode.jz i w = Transfers.Keeps-exec_jz i w
  Keeps-exec Opcode.rjz i w = Transfers.Keeps-exec_rjz i w
  Keeps-exec Opcode.jnz i w = Transfers.Keeps-exec_jnz i w
  Keeps-exec Opcode.rjnz i w = Transfers.Keeps-exec_rjnz i w
  Keeps-exec Opcode.jg i w = Transfers.Keeps-exec_jg i w
  Keeps-exec Opcode.jge i w = Transfers.Keeps-exec_jge i w
  Keeps-exec Opcode.jl i w = Transfers.Keeps-exec_jl i w
  Keeps-exec Opcode.jle i w = Transfers.Keeps-exec_jle i w
  Keeps-exec Opcode.jc i w = Transfers.Keeps-exec_jc i w
  Keeps-exec Opcode.jnc i w = Transfers.Keeps-exec_jnc i w
  Keeps-exec Opcode.push i w = Transfers.Keeps-exec_push i w
  Keeps-exec Opcode.pop i w = Transfers.Keeps-exec_pop i w
  Keeps-exec Opcode.load i w = Transfers.Keeps-exec_load i w
  Keeps-exec Opcode.load32_op i w = Transfers.Keeps-exec_load32 i w
  Keeps-exec Opcode.loadx32 i w = Transfers.Keeps-exec_loadx32 i w
  Keeps-exec Opcode.store i w = Transfers.Keeps-exec_store i w
  Keeps-exec Opcode.store32_op i w = Transfers.Keeps-exec_store32 i w
  Keeps-exec Opcode.storex32 i w = Transfers.Keeps-exec_storex32 i w
  Keeps-exec Opcode.memset i w = Transfers.Keeps-exec_memset i w
  Keeps-exec Opcode.memcpy i w = Transfers.Keeps-exec_memcpy i w
  Keeps-exec Opcode.cas i w = Transfers.Keeps-exec_cas i w
  Keeps-exec Opcode.xadd i w = Transfers.Keeps-exec_xadd i w
  Keeps-exec Opcode.xchg i w = Transfers.Keeps-exec_xchg i w
  Keeps-exec Opcode.ldar i w = Transfers.Keeps-exec_ldar i w
  Keeps-exec Opcode.stlr i w = Transfers.Keeps-exec_stlr i w
  Keeps-exec Opcode.in_op i w = Devices.Keeps-exec_in i w
  Keeps-exec Opcode.out_op i w = Devices.Keeps-exec_out i w
  Keeps-exec Opcode.int i w = Devices.Keeps-exec_int i w
  Keeps-exec Opcode.iret i w = Devices.Keeps-exec_iret i w
  Keeps-exec Opcode.halt i w = Devices.Keeps-exec_halt i w
  Keeps-exec Opcode.startap i w = Devices.Keeps-exec_startap i w
  Keeps-exec Opcode.ipi i w = Devices.Keeps-exec_ipi i w
  Keeps-exec Opcode.cpuid i w = Devices.Keeps-exec_cpuid i w
  Keeps-exec Opcode.fence i w = Devices.Keeps-exec_fence i w
  Keeps-exec Opcode.pause i w = Devices.Keeps-exec_pause i w
  Keeps-exec Opcode.fadd i w = Floats.Keeps-exec_fadd f words i
  Keeps-exec Opcode.fsub i w = Floats.Keeps-exec_fsub f words i
  Keeps-exec Opcode.fmul i w = Floats.Keeps-exec_fmul f words i
  Keeps-exec Opcode.fdiv i w = Floats.Keeps-exec_fdiv f words i
  Keeps-exec Opcode.fneg i w = Floats.Keeps-exec_fneg f words i
  Keeps-exec Opcode.fabs i w = Floats.Keeps-exec_fabs f words i
  Keeps-exec Opcode.fsqrt i w = Floats.Keeps-exec_fsqrt f words i
  Keeps-exec Opcode.itof i w = Floats.Keeps-exec_itof f words i
  Keeps-exec Opcode.ftoi i w = Floats.Keeps-exec_ftoi f words i
  Keeps-exec Opcode.fload32 i w = Floats.Keeps-exec_fload32 f words i
  Keeps-exec Opcode.fstore32 i w = Floats.Keeps-exec_fstore32 f words i
  Keeps-exec Opcode.fcmp i w = Floats.Keeps-exec_fcmp f words i

  exec_option-Keeps :
      (o : Option Opcode) (i : Inst) → IsWord i.imm → Keeps IsAny (exec_option f o i)
  exec_option-Keeps none i w = Keeps-panic _
  exec_option-Keeps (some o) i w = Keeps-exec o i w

  Keeps-vm_instruction_case : Keeps IsAny (vm_instruction_case f)
  unfolding vm_instruction_case
  Keeps-vm_instruction_case = Keeps->>= Keeps-fetch64 λ i w. exec_option-Keeps (opcode_of i.op) i w

  Keeps-thread_round : Keeps IsAny (thread_round f)
  unfolding thread_round
  Keeps-thread_round = record {
    at = λ vm good.
        if-both (Holds IsAny) vm.halted (tt, good)
          (if-both (Holds IsAny)
            (not (vm.cpu.core_id == 0) && not (vm.core_released vm.cpu.core_id)) (tt, good)
            ((Keeps->>= Keeps-vm_handle_interrupts λ u q.
                Keeps->>= Keeps-vm_instruction_case λ u' q'.
                  Keeps->>= (Keeps-modify ticked ticked-IsWellFormed)
                    λ u'' q''. Keeps-pure true tt).at
              vm good));
  }

  next-Holds :
      (ns : List ℕ) (o : Outcome (Bool × Vm))
      → Holds IsAny o
      → Keeps IsAny (run f ns)
      → Holds IsAny
          (elim o [ ok (go, vm') ↦ run f ns vm' | exit p ↦ exit p | undefined ↦ undefined ])
  next-Holds ns (ok (go, vm)) h rest = rest.at vm h.1
  next-Holds ns (exit p) h rest = tt
  next-Holds ns undefined h rest = tt

  Keeps-run : (schedule : List ℕ) → Keeps IsAny (run f schedule)
  unfolding run
  Keeps-run [] = record { at = λ vm good. (tt, good) }
  Keeps-run (n ∷ ns) = record {
    at = λ vm good.
        next-Holds ns (thread_round f (switch_core n vm))
          (Keeps-thread_round.at (switch_core n vm) (switch_core-IsWellFormed n vm good))
          (Keeps-run ns);
  }

  -- With a float unit that returns words, the rounds of any schedule of the cores that end without
  -- a panic or an undefined access lead from a well-formed machine to a well-formed one: registers,
  -- frame buffer and ports hold words, memory and the serial queue bytes, and the stack pointers of
  -- every core lie inside their stacks.
  pub run-IsWellFormed :
      (schedule : List ℕ) (vm after : Vm)
      → IsWellFormed vm
      → run f schedule vm ≡ ok (tt, after)
      → IsWellFormed after
  run-IsWellFormed schedule vm after good returned =
      (subst (Holds IsAny) returned ((Keeps-run schedule).at vm good)).1
