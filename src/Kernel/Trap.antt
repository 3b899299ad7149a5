-- ===== src/Kernel/Trap.antt =====
-- kernel/src/trap.c and kernel/src/irq.c: the vectors, the table and mask of handlers, and the handlers. The
-- serial port is the list of words it gives until it says that none is ready.
pub mod Vectors
pub mod Wired
pub mod Served
use lamp_vm.Common.Tests.{
  ℕ, zero, suc, ◌+◌, ◌*◌, ◌/◌, ◌%◌, ◌^◌, Bool, true, false, ◌||◌, not, List, [], ◌∷◌, Option, none,
  some, ltb, leb, ◌==◌, if◌then◌else◌,
}
use lamp_vm.Common.Arrays.{update}
use lamp_vm.Common.Word.{add32, ◌<<<◌}
use lamp_vm.Common.Bits.Step.{bit_and, bit_or}
use lamp_vm.Machine.Memory.{store32}
use lamp_vm.Kernel.Sched.Ticks.{schedule_tick}
use lamp_vm.Kernel.Console.{Console, rx_feed}

abbrev ivt_entries : ℕ
ivt_entries = 256

abbrev kernel_ivt_base : ℕ
kernel_ivt_base = 0

abbrev ivt_entry_size : ℕ
ivt_entry_size = 8

-- IRQ_*
abbrev irq_keyboard_no : ℕ
irq_keyboard_no = 0x00

abbrev irq_divide_by_zero_no : ℕ
irq_divide_by_zero_no = 0x01

abbrev irq_disk_complete_no : ℕ
irq_disk_complete_no = 0x02

abbrev irq_serial_no : ℕ
irq_serial_no = 0x03

abbrev irq_timer_no : ℕ
irq_timer_no = 0x04

abbrev irq_syscall_no : ℕ
irq_syscall_no = 0x80

-- The functions of type `trap_handler_t`.
pub data Handler : Type 0 where
  irq_default irq_divide_by_zero irq_disk_complete irq_serial irq_keyboard irq_timer irq_syscall :
      Handler

-- The caller's registers 0 to 6 as the stub stored them.
pub record SyscallRegs : Type 0 where
  pub nr : ℕ
  pub arg0 : ℕ
  pub arg1 : ℕ
  pub arg2 : ℕ
  pub arg3 : ℕ
  pub arg4 : ℕ
  pub arg5 : ℕ

pub record TrapFrame : Type 0 where
  pub irq_no : ℕ
  pub dispatch_count : ℕ
  pub tick_snapshot : ℕ

pub record Traps : Type 0 where
  pub trap_table : ℕ → Handler
  pub trap_ready : Bool
  pub irq_mask : ℕ → ℕ
  pub irq_counts : ℕ → ℕ
  pub fault_div0 : Bool
  pub last_trap_frame : TrapFrame
  pub stub_regs : SyscallRegs
  pub console : Console
  pub serial : List ℕ
  pub memory : ℕ → ℕ

-- A handler returns, or has called `kpanic`, which does not.
pub data Handled : Type 0 where
  back : Traps → Handled
  panicked : Traps → Handled

unfoldable pub ivt_write_entry : ℕ → ℕ → (ℕ → ℕ) → ℕ → ℕ
ivt_write_entry irq_no handler_addr mem =
    store32 (store32 mem (kernel_ivt_base + irq_no * ivt_entry_size) handler_addr)
      (kernel_ivt_base + irq_no * ivt_entry_size + 4) 0

-- The entries from `i` on, `left` of them.
unfoldable pub write_entries : ℕ → ℕ → ℕ → (ℕ → ℕ) → ℕ → ℕ
unfolding ivt_write_entry
write_entries zero i stub mem = mem
write_entries (suc left) i stub mem = write_entries left (suc i) stub (ivt_write_entry i stub mem)

-- A null handler is `irq_default`.
abbrev trap_register : ℕ → Option Handler → (ℕ → Handler) → ℕ → Handler
trap_register irq_no handler table =
    if leb ivt_entries irq_no
    then table
    else update table irq_no (elim handler [ none ↦ irq_default | some h ↦ h ])

abbrev enable : ℕ → (ℕ → ℕ) → ℕ → ℕ
enable irq_no mask = update mask (irq_no / 32) (bit_or (mask (irq_no / 32)) (1 <<< (irq_no % 32)))

abbrev pub default_table : (ℕ → Handler) → ℕ → Handler
default_table table i = if ltb i ivt_entries then irq_default else table i

abbrev pub no_mask : (ℕ → ℕ) → ℕ → ℕ
no_mask mask w = if ltb w (ivt_entries / 32) then 0 else mask w

abbrev pub register_all : (ℕ → Handler) → ℕ → Handler
register_all table = trap_register irq_syscall_no (some irq_syscall) (
    trap_register irq_timer_no (some irq_timer) (
      trap_register irq_keyboard_no (some irq_keyboard) (
        trap_register irq_serial_no (some irq_serial) (
          trap_register irq_disk_complete_no (some irq_disk_complete)
            (trap_register irq_divide_by_zero_no (some irq_divide_by_zero) table)))))

abbrev pub enable_all : (ℕ → ℕ) → ℕ → ℕ
enable_all mask = enable irq_syscall_no (
    enable irq_timer_no (
      enable irq_keyboard_no
        (enable irq_serial_no (enable irq_disk_complete_no (enable irq_divide_by_zero_no mask)))))

-- `stub` is the address of `irq_stub_entry`.
unfoldable pub trap_init : ℕ → Traps → Traps
unfolding write_entries
trap_init stub s = record s {
  trap_table = register_all (default_table s.trap_table);
  irq_mask = enable_all (no_mask s.irq_mask);
  memory = write_entries ivt_entries 0 stub s.memory;
  trap_ready = true;
}

abbrev pub counted : ℕ → Traps → Traps
counted irq_no s =
    if ltb irq_no ivt_entries
    then record s { irq_counts = update s.irq_counts irq_no (add32 (s.irq_counts irq_no) 1) }
    else s

-- `serial_drain_rx` over the words of the port.
unfoldable pub drain : List ℕ → Console → Console
drain [] c = c
drain (v ∷ vs) c = drain vs (rx_feed (v % 2 ^ 8) c)

unfoldable pub serial_drain_rx : Traps → Traps
unfolding drain
serial_drain_rx s = record s { console = drain s.serial s.console; serial = [] }

abbrev pub tick : Traps → Traps
tick s = record s { console = record s.console { sched = schedule_tick s.console.sched } }

-- `irq_*` by the pointer; `syscall_dispatch` is an argument.
unfoldable pub handle : (SyscallRegs → Traps → Traps) → Handler → ℕ → Traps → Handled
unfolding serial_drain_rx
handle dispatch irq_default n s = back (counted n s)
handle dispatch irq_divide_by_zero n s = panicked (record s { fault_div0 = true })
handle dispatch irq_disk_complete n s = back (counted n s)
handle dispatch irq_serial n s = back (serial_drain_rx (counted n s))
handle dispatch irq_keyboard n s = back (serial_drain_rx (counted n s))
handle dispatch irq_timer n s = back (tick (counted n s))
handle dispatch irq_syscall n s = back (dispatch s.stub_regs (counted n s))

abbrev pub is_enabled : (ℕ → ℕ) → ℕ → Bool
is_enabled mask irq_no = not (bit_and (mask (irq_no / 32)) (1 <<< (irq_no % 32)) == 0)

unfoldable pub trap_dispatch : (SyscallRegs → Traps → Traps) → ℕ → Traps → Handled
unfolding handle
trap_dispatch dispatch irq_no s =
    if not s.trap_ready || leb ivt_entries irq_no
    then back s
    else if not (is_enabled s.irq_mask irq_no)
    then back s
    else handle dispatch (s.trap_table irq_no) irq_no s

abbrev pub noted : ℕ → Traps → Traps
noted irq_no s = record s {
  last_trap_frame = record {
    irq_no = irq_no;
    dispatch_count = add32 s.last_trap_frame.dispatch_count 1;
    tick_snapshot = s.console.sched.ticks;
  };
}

unfoldable pub irq_common_entry : (SyscallRegs → Traps → Traps) → ℕ → Traps → Handled
unfolding trap_dispatch
irq_common_entry dispatch irq_no s = trap_dispatch dispatch irq_no (noted irq_no s)
