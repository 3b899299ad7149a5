-- ===== src/Machine/Tests/Invariant.antt =====
-- The invariant along a run of core 0 that executes HALT.
use lamp_vm.Common.Tests.{
  ◌^◌, ◌<◌, ◌≡◌, refl, true, false, some, [], ◌∷◌, ◌==◌, if◌then◌else◌, if-both, arith,
}
use lamp_vm.Machine.State.{Vm, ok}
use lamp_vm.Machine.Memory.{load32}
use lamp_vm.Machine.Interrupt.{vm_handle_interrupts, take_pending, lowest_bit}
use lamp_vm.Machine.Io.{disk_tick}
use lamp_vm.Machine.Decode.{opcode_of, load64, fetch64, decode}
use lamp_vm.Machine.Exec.Float.{F32}
use lamp_vm.Machine.Exec.System.{exec_halt}
use lamp_vm.Machine.Step.{exec, vm_instruction_case, thread_round, switch_core, run}
use lamp_vm.Machine.Invariant.Base.{IsCore, IsWellFormed}
use lamp_vm.Machine.Invariant.Floats.{ReturnsWords}
use lamp_vm.Machine.Invariant.Rounds.{run-IsWellFormed}
use lamp_vm.Machine.Tests.{machine, core}

-- A float unit that answers 0.
abbrev zero_unit : F32
zero_unit = record {
  add = λ a b. 0;
  sub = λ a b. 0;
  mul = λ a b. 0;
  div = λ a b. 0;
  neg = λ a. 0;
  fabs = λ a. 0;
  sqrt = λ a. 0;
  of_int = λ a. 0;
  to_int = λ a. some 0;
  is_nan = λ a. false;
  eq = λ a b. true;
  lt = λ a b. false;
}

zero_unit-ReturnsWords : ReturnsWords zero_unit
zero_unit-ReturnsWords = record {
  add_word = λ a b. omega arith;
  sub_word = λ a b. omega arith;
  mul_word = λ a b. omega arith;
  div_word = λ a b. omega arith;
  neg_word = λ a. omega arith;
  fabs_word = λ a. omega arith;
  sqrt_word = λ a. omega arith;
  of_int_word = λ a. omega arith;
  to_int_word = λ a v e. ground arith;
}

-- HALT at the instruction pointer 8220: its opcode 5 is the highest of the eight bytes.
abbrev with_halt : Vm
with_halt = record machine { memory = λ q. if q == 8227 then 5 else 0 }

core-IsCore : IsCore core
core-IsCore = record {
  regs_words = λ r. omega arith;
  csp_inside = omega arith;
  dsp_inside = omega arith;
  isp_inside = omega arith;
  id_word = omega arith;
}

with_halt-IsWellFormed : IsWellFormed with_halt
with_halt-IsWellFormed = (
  core-IsCore,
  λ n. core-IsCore,
  λ i. if-both (λ b. b < 2 ^ 8) (i == 8227) (omega arith) (omega arith),
  λ i. omega arith,
  λ i. omega arith,
  λ i. omega arith,
  λ i. omega arith,
)

abbrev halted_machine : Vm
halted_machine = record with_halt { halted = true; cpu = record core { ip = 8228 } }

halts : run zero_unit (0 ∷ []) with_halt ≡ ok (tt, halted_machine)
unfolding run thread_round switch_core vm_handle_interrupts take_pending lowest_bit
    vm_instruction_case fetch64 load64 load32 decode opcode_of exec exec_halt disk_tick
halts = refl

run-IsWellFormed_example : IsWellFormed halted_machine
run-IsWellFormed_example =
    run-IsWellFormed zero_unit zero_unit-ReturnsWords (0 ∷ []) with_halt halted_machine
      with_halt-IsWellFormed halts
