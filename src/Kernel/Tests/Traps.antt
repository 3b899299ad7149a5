-- ===== src/Kernel/Tests/Traps.antt =====
-- A kernel set up for interrupts, with bytes at the serial port.
use lamp_vm.Common.Tests.{ℕ, ◌+◌, ◌*◌, ◌≡◌, refl, List, [], ◌∷◌, false, arith}
use lamp_vm.Machine.State.{ivt_base}
use lamp_vm.Machine.Memory.{store32}
use lamp_vm.Machine.Memory.Words.{two_words}
use lamp_vm.Kernel.Trap.{
  Traps, SyscallRegs, Handled, irq_default, noted, trap_init, irq_common_entry, trap_dispatch,
  handle, back,
}
use lamp_vm.Kernel.Trap.Vectors.{trap_init-vectors}
use lamp_vm.Kernel.Trap.Served.{served, interrupts, trap_init-served}
use lamp_vm.Kernel.Tests.Terminal.{quiet}

abbrev raw_traps : Traps
raw_traps = record {
  trap_table = λ _. irq_default;
  trap_ready = false;
  irq_mask = λ _. 0xFFFFFFFF;
  irq_counts = λ _. 0;
  fault_div0 = false;
  last_trap_frame = record { irq_no = 0; dispatch_count = 0; tick_snapshot = 0 };
  stub_regs = record { nr = 2; arg0 = 5; arg1 = 0; arg2 = 0; arg3 = 0; arg4 = 0; arg5 = 0 };
  console = quiet;
  serial = 104 ∷ 105 ∷ 10 ∷ [];
  memory = λ _. 0xFF;
}

-- A system call that only leaves its number in the mailbox.
abbrev publishes : SyscallRegs → Traps → Traps
publishes r s = record s { memory = store32 s.memory 0x2FE008 r.nr }

trap_init-vectors_example :
    (two_words (trap_init 0x9000 raw_traps).memory (ivt_base + 0x80 * 8) ≡ 0x9000)
    × ((trap_init 0x9000 raw_traps).memory 0x800 ≡ 0xFF)
trap_init-vectors_example =
    trap_init-vectors 0x9000 0x80 0x800 raw_traps (omega arith) (omega arith) (omega arith)

-- A tick, a line typed, a stray interrupt, a system call.
abbrev busy : List ℕ
busy = 4 ∷ 3 ∷ 77 ∷ 0x80 ∷ []

trap_init-served_example :
    interrupts (irq_common_entry publishes) busy (trap_init 0x9000 raw_traps)
    ≡ interrupts (λ n s. served publishes n (noted n s)) busy (trap_init 0x9000 raw_traps)
trap_init-served_example = trap_init-served publishes (λ r s w. w) 0x9000 raw_traps busy

abbrev lines_of : Handled → ℕ
lines_of (back s) = s.console.rx_lines
lines_of _ = 0

abbrev serial_count_of : Handled → ℕ
serial_count_of (back s) = s.irq_counts 3 + s.irq_counts 77
serial_count_of _ = 0

one_serial_interrupt :
    serial_count_of (interrupts (irq_common_entry publishes) busy (trap_init 0x9000 raw_traps)) ≡ 1
unfolding interrupts irq_common_entry trap_dispatch handle trap_init
one_serial_interrupt = refl
