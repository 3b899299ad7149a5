-- ===== src/Machine/Step.antt =====
-- `vm_instruction_case` and a round of `vm_thread` in vm.c. The cores take turns by whole rounds:
-- a schedule says which core goes next.
use lamp_vm.Common.Tests.{
  ℕ, Bool, true, false, not, ◌&&◌, Option, some, none, List, [], ◌∷◌, ◌==◌, if◌then◌else◌,
}
use lamp_vm.Common.Arrays.{update}
use lamp_vm.Machine.State.{
  Vm, M, ok, exit, undefined, ◌>>=◌, ◌>>◌, modify, panic, pure, unknown_opcode,
}
use lamp_vm.Machine.Decode.{Opcode, Inst, opcode_of, fetch64}
use lamp_vm.Machine.Interrupt.{vm_handle_interrupts}
use lamp_vm.Machine.Io.{disk_tick}
use lamp_vm.Machine.Exec.Alu
use lamp_vm.Machine.Exec.Branch
use lamp_vm.Machine.Exec.Transfer
use lamp_vm.Machine.Exec.Atomic
use lamp_vm.Machine.Exec.System
use lamp_vm.Machine.Exec.Float
use lamp_vm.Machine.Exec.Float.{F32}

-- The thread of core `n` runs next.
unfoldable pub switch_core : ℕ → Vm → Vm
switch_core n vm =
    if n == vm.cpu.core_id
    then vm
    else record vm { cpus = update vm.cpus vm.cpu.core_id vm.cpu; cpu = vm.cpus n }

module _ (f : F32) where
  unfoldable pub exec : Opcode → Inst → M (Unit {0})
  exec Opcode.add i = Alu.exec_add i
  exec Opcode.sub i = Alu.exec_sub i
  exec Opcode.mul i = Alu.exec_mul i
  exec Opcode.cmp i = Alu.exec_cmp i
  exec Opcode.cmpi i = Alu.exec_cmpi i
  exec Opcode.mov i = Alu.exec_mov i
  exec Opcode.movi i = Alu.exec_movi i
  exec Opcode.and i = Alu.exec_and i
  exec Opcode.or i = Alu.exec_or i
  exec Opcode.xor i = Alu.exec_xor i
  exec Opcode.not_op i = Alu.exec_not i
  exec Opcode.shl i = Alu.exec_shl i
  exec Opcode.shr i = Alu.exec_shr i
  exec Opcode.sar i = Alu.exec_sar i
  exec Opcode.rol i = Alu.exec_rol i
  exec Opcode.ror i = Alu.exec_ror i
  exec Opcode.div i = Alu.exec_div i
  exec Opcode.mod_op i = Alu.exec_mod i
  exec Opcode.inc i = Alu.exec_inc i
  exec Opcode.addi i = Alu.exec_addi i
  exec Opcode.subi i = Alu.exec_subi i
  exec Opcode.andi i = Alu.exec_andi i
  exec Opcode.ori i = Alu.exec_ori i
  exec Opcode.xori i = Alu.exec_xori i
  exec Opcode.shli i = Alu.exec_shli i
  exec Opcode.shri i = Alu.exec_shri i
  exec Opcode.roli i = Alu.exec_roli i
  exec Opcode.rori i = Alu.exec_rori i
  exec Opcode.jmp i = Branch.exec_jmp i
  exec Opcode.rjmp i = Branch.exec_rjmp i
  exec Opcode.call i = Branch.exec_call i
  exec Opcode.rcall i = Branch.exec_rcall i
  exec Opcode.callr i = Branch.exec_callr i
  exec Opcode.ret i = Branch.exec_ret i
  exec Opcode.jz i = Branch.exec_jz i
  exec Opcode.rjz i = Branch.exec_rjz i
  exec Opcode.jnz i = Branch.exec_jnz i
  exec Opcode.rjnz i = Branch.exec_rjnz i
  exec Opcode.jg i = Branch.exec_jg i
  exec Opcode.jge i = Branch.exec_jge i
  exec Opcode.jl i = Branch.exec_jl i
  exec Opcode.jle i = Branch.exec_jle i
  exec Opcode.jc i = Branch.exec_jc i
  exec Opcode.jnc i = Branch.exec_jnc i
  exec Opcode.push i = Transfer.exec_push i
  exec Opcode.pop i = Transfer.exec_pop i
  exec Opcode.load i = Transfer.exec_load i
  exec Opcode.load32_op i = Transfer.exec_load32 i
  exec Opcode.loadx32 i = Transfer.exec_loadx32 i
  exec Opcode.store i = Transfer.exec_store i
  exec Opcode.store32_op i = Transfer.exec_store32 i
  exec Opcode.storex32 i = Transfer.exec_storex32 i
  exec Opcode.memset i = Transfer.exec_memset i
  exec Opcode.memcpy i = Transfer.exec_memcpy i
  exec Opcode.cas i = Atomic.exec_cas i
  exec Opcode.xadd i = Atomic.exec_xadd i
  exec Opcode.xchg i = Atomic.exec_xchg i
  exec Opcode.ldar i = Atomic.exec_ldar i
  exec Opcode.stlr i = Atomic.exec_stlr i
  exec Opcode.in_op i = System.exec_in i
  exec Opcode.out_op i = System.exec_out i
  exec Opcode.int i = System.exec_int i
  exec Opcode.iret i = System.exec_iret i
  exec Opcode.halt i = System.exec_halt i
  exec Opcode.startap i = System.exec_startap i
  exec Opcode.ipi i = System.exec_ipi i
  exec Opcode.cpuid i = System.exec_cpuid i
  exec Opcode.fence i = System.exec_fence i
  exec Opcode.pause i = System.exec_pause i
  exec Opcode.fadd i = Float.exec_fadd f i
  exec Opcode.fsub i = Float.exec_fsub f i
  exec Opcode.fmul i = Float.exec_fmul f i
  exec Opcode.fdiv i = Float.exec_fdiv f i
  exec Opcode.fneg i = Float.exec_fneg f i
  exec Opcode.fabs i = Float.exec_fabs f i
  exec Opcode.fsqrt i = Float.exec_fsqrt f i
  exec Opcode.itof i = Float.exec_itof f i
  exec Opcode.ftoi i = Float.exec_ftoi f i
  exec Opcode.fload32 i = Float.exec_fload32 f i
  exec Opcode.fstore32 i = Float.exec_fstore32 f i
  exec Opcode.fcmp i = Float.exec_fcmp f i

  abbrev pub exec_option : Option Opcode → Inst → M (Unit {0})
  exec_option (some o) i = exec o i
  exec_option none i = panic (unknown_opcode i.op)

  unfoldable pub vm_instruction_case : M (Unit {0})
  unfolding exec opcode_of
  vm_instruction_case = do i ← fetch64; exec_option (opcode_of i.op) i

  -- One turn of the loop, false when it has ended.
  unfoldable pub thread_round : M Bool
  unfolding vm_instruction_case
  thread_round vm =
      if vm.halted
      then ok (false, vm)
      else if not (vm.cpu.core_id == 0) && not (vm.core_released vm.cpu.core_id)
      then ok (true, vm)
      else (do
        vm_handle_interrupts
        vm_instruction_case
        modify (λ s. if s.cpu.core_id == 0 then disk_tick s else s)
        pure true)
          vm

  -- The rounds of a schedule.
  unfoldable pub run : List ℕ → M (Unit {0})
  unfolding thread_round switch_core
  run [] vm = ok (tt, vm)
  run (n ∷ ns) vm = elim (thread_round (switch_core n vm)) [
    | ok (go, vm') ↦ run ns vm'
    | exit p ↦ exit p
    | undefined ↦ undefined
  ]
