-- ===== src/Lib.antt =====
-- lamp-vm: a 32-bit virtual machine with several cores, memory-mapped devices, interrupts and its
-- own instruction set.
--
-- The program. `vm_thread` (vm.c) runs one core: it takes a pending interrupt, fetches and executes
-- one instruction and, on core 0, lets the disk report. Instructions reach RAM and devices through
-- memory.c, which asks `find_mmio` (mmio.h) for a device first. Devices and the disk's worker raise
-- interrupts as bits that interrupt.c turns into a call of a handler through a table in RAM.
-- A kernel (kernel/src) is compiled for the machine and runs as its program.
--
-- The files, with the code that each models:
--   Common: native numbers, tests, arrays as functions, machine words, bits.
--   Machine.State: vm.h, flags.h, panic.c. `Vm` is `struct VM` with the VCPU of the executing
--     thread as `cpu`; `M` passes the state and ends in a value, in `exit` (a call of `panic`) or in
--     `undefined` (an access outside a C array).
--   Machine.Devices: io_devices/vga_display/vga_mmio_register.c (Frame), io_devices/time (Time),
--     io_devices/sysinfo (Sysinfo).
--   Machine.Mmio: mmio.h, mmio.c and the registrations; Mmio.Cache: the lookup cache;
--     Mmio.Registers: the clocks and the frame buffer as a guest sees them.
--   Machine.Memory: memory.c; Memory.Words and Memory.Access: stores and loads of words;
--     Memory.Counter: atomic additions.
--   Machine.Stack: stack.h; Stack.Lifo: one push and one pop.
--   Machine.Interrupt: interrupt.c; Interrupt.Frame, Entry, Return: the saved context;
--     Interrupt.Pending, Search, Dispatch: the pending set and what is taken from it.
--   Machine.Flags: the flag updates of vm.c and float.h; Flags.Bits: them bit by bit.
--   Machine.Decode: INST and the opcodes of vm.h, FETCH64 of fetch.h; Decode.Fetch.
--   Machine.Io: io.c and the command side of io_devices/disk/disk.c; Io.Serial: the receive queue;
--     Io.DiskWorker: the worker; Io.DiskLife: the life of a command.
--   Machine.Exec: the cases of `vm_instruction_case`, one definition for each; Exec.Compare:
--     comparisons with conditional jumps; Exec.Calls: CALL and RET.
--   Machine.Step: the switch and a round of `vm_thread`.
--   Machine.Invariant: the ranges of registers, memory and stack pointers, instruction by
--     instruction (Instructions, Transfers, Devices, Floats) and over schedules (Rounds).
--   Machine.Tests: a concrete machine.
--   Kernel.Divmod, kernel/src/compiler_rt_divmod.c: `udivmoddi4` with its two loops (`align`,
--     `subtract`) and the signed and unsigned functions on top of it; Long: its correctness.
--   Kernel.Files, kernel/src/sched.c: the descriptors and open files of a task; Slots, Opens,
--     Modes: the functions on them. Counts, Invariant, Calls: the reference counts; Sharing: what the calls promise.
--   Kernel.Sched, kernel/src/sched.c: the task table; Queue: a queue's word; Ticks, Waits, Tasks: the
--     calls on time, on wait queues and on tasks; Loop: `pump_once`, `block_until_runnable` and a round of `sched_run`. Linked,
--     Consistent, Switches, Calls, Reaps, History: the invariant, call by call; Pick, Wake, Sleepers, Sleep: who runs next, who
--     is woken, and when.
--   Kernel.Console, kernel/src/console.c: the input ring and its line discipline; Lines: the
--     discipline on lists; Ring, Feed, Reads: what waits and what is read; Raw: reads without editing.
--   Kernel.Clock, kernel/src/syscall.c: user addresses (User), time and clocks (Times), the
--     calls on clocks and `nanosleep` (Calls); Words: what is stored is read back; Setting: a clock set
--     and read; Naps: how long a sleep is.
--   Kernel.Trap, kernel/src/trap.c and kernel/src/irq.c: vectors, handlers, mask and dispatch; Vectors:
--     the table as the machine reads it; Wired, Served: what each interrupt does.
--   Kernel.FileCalls, kernel/src/syscall.c: the calls on descriptors and sockets; Paths: opening by name.
--   Kernel.Tests: concrete operands, descriptors, tasks, a terminal, clocks and interrupts.
--
-- Choices. Numbers are naturals, with every wrap written out; a C `int` is kept as its pattern of 32
-- bits. Arrays are functions of the index and their extents are guards. Loops run on the number of
-- rounds that the code computes before the loop (registers, bytes, words, devices), so no fuel is
-- guessed; only `align` has fuel, 64 rounds, and is proved to end before, and
-- `block_until_runnable`, whose end depends on the other tasks; `erase_line` has 256 rounds for at most 255
-- bytes. Signed additions that overflow,
-- undefined in C, wrap as the compiled program does. The build is the one without VM_DEBUG and
-- VM_MEMCHECK. A round of a core, an atomic instruction and
-- a compare-and-exchange of a pending word are single steps: locks are left out, and interleavings
-- finer than an instruction are not modelled. The float unit is a parameter,
-- and so are the entries of the kernel's tasks, and the dispatch of system calls where an interrupt makes
-- one. User memory of the clock calls is RAM without the windows of devices, and the serial port is the list of
-- words it gives before it says that none is ready. A call of the kernel is one step; a timer interrupt comes between calls.
--
-- Not modelled: machine creation and the command line, the loader, the debugger, the display and
-- the text screen (SDL, terminal and file input and output), the BIOS and the rest of the
-- kernel (guest programs).
pub mod Common
pub mod Machine
pub mod Kernel
