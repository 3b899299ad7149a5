-- ===== src/Machine/Tests.antt =====
-- The machine's theorems at a concrete machine with one core of two: 64 KiB of memory, the clock
-- device, empty stacks.
mod Invariant
mod Devices
use lamp_vm.Common.Tests.{
  ℕ, ◌+◌, ◌*◌, ◌%◌, ◌<◌, ◌≤◌, ◌≡◌, ◌⊎◌, inl, inr, refl, sym, ap, ◌∙◌, true, false, some, none, List,
  [], ◌∷◌, ◌==◌, if◌then◌else◌, arith,
}
use lamp_vm.Machine.State.{
  ivt_base, Vm, Vcpu, Disk, MmioDevice, ok, ◌>>◌, time_base, call_stack_base_addr,
  data_stack_base_addr, isr_stack_base_addr, ivt_size, time_handler,
}
use lamp_vm.Machine.Mmio.{scan, device, find_mmio}
use lamp_vm.Machine.Mmio.Cache.{IsExclusive, CacheIsSound, forget, find_mmio_transparent}
use lamp_vm.Machine.Memory.{load32, vm_read32, vm_write32}
use lamp_vm.Machine.Memory.Words.{store64, two_words}
use lamp_vm.Machine.Memory.Access.{IsRamWord, vm_read32-vm_write32, with_memory}
use lamp_vm.Machine.Stack.Lifo.{HasIsrStack}
use lamp_vm.Machine.Interrupt.{
  vm_enter_interrupt, vm_iret, vm_handle_interrupts, trigger_interrupt_target,
}
use lamp_vm.Machine.Interrupt.Entry.{
  CanEnter, Entered, entered, entered-Entered, vm_enter_interrupt-eq, interrupt_entry,
}
use lamp_vm.Machine.Interrupt.Return.{CanReturn, Resumed, interrupt_return}
use lamp_vm.Machine.Interrupt.Pending.{pending, trigger_pending}
use lamp_vm.Machine.Interrupt.Dispatch.{CanHandle, Handles, handle_interrupts_lowest}
use lamp_vm.Machine.Decode.{Inst, encode, decode, fetch64}
use lamp_vm.Machine.Decode.Fetch.{IsInst, decode-encode, fetch64-store64, fetched}
use lamp_vm.Machine.Io.{vm_serial_rx_enqueue}
use lamp_vm.Machine.Io.Serial.{
  enqueue-put_bounded, take-take_oldest, waiting, put_bounded, take_oldest,
}
use lamp_vm.Machine.Io.DiskWorker.{DiskEvent, command, work, tick, disk_event, disk_events}
use lamp_vm.Machine.Io.DiskLife.{
  InPhase, StepsTo, idle, done, stuck, disk_follows_life, command_zero_sticks,
}
use lamp_vm.Machine.Exec.Alu.{exec_cmp}
use lamp_vm.Machine.Exec.Branch.{
  exec_jl, exec_jge, exec_jle, exec_jg, exec_jz, exec_jnz, exec_jc, exec_jnc,
}
use lamp_vm.Machine.Exec.System.{serial_rx_take}
use lamp_vm.Machine.Exec.Compare.{ip_of, signed_jumps, unsigned_jumps}

abbrev pub small_regs : ℕ → ℕ
small_regs r = r % 32

abbrev pub core : Vcpu
core = record {
  regs = small_regs;
  ip = 8220;
  last_ip = 8220;
  flags = 8;
  dsp = 256;
  csp = 256;
  isp = 256;
  in_interrupt = false;
  irq_masked = false;
  core_id = 0;
  call_stack_base = call_stack_base_addr;
  data_stack_base = data_stack_base_addr;
  isr_stack_base = isr_stack_base_addr;
  is_bsp = true;
}

abbrev pub quiet_disk : Disk
quiet_disk = record {
  lba = 0;
  mem_addr = 8704;
  count = 1;
  busy = false;
  current_cmd = 0;
  op_complete = false;
}

abbrev pub clock : MmioDevice
clock = device time_base (time_base + 23) time_handler

abbrev pub machine : Vm
machine = record {
  halted = false;
  memory = λ q. 0;
  memory_size = 0x10000;
  fb = λ p. 0;
  io = λ p. 0;
  serial_rx_fifo = λ i. 0;
  serial_rx_head = 0;
  serial_rx_tail = 0;
  disk = quiet_disk;
  interrupt_bitmap = λ w. 0;
  start_realtime_ns = 0;
  start_monotonic_ns = 0;
  latched_realtime = 0;
  latched_monotonic = 0;
  latched_boottime = 0;
  disk_size_bytes = 0;
  sysinfo_vendor_words = λ w. 0;
  mmio_devices = clock ∷ [];
  mmio_cache_dev = none;
  mmio_cache_start = 0;
  mmio_cache_end = 0;
  smp_cores = 2;
  cpu = core;
  cpus = λ n. core;
  core_released = λ n. true;
  timer_period_us = 0;
  timer_next_deadline_ns = 0;
  timer_enabled = false;
  host_realtime_ns = 5;
  host_monotonic_ns = 6;
  terminal = [];
}

-- Where the memory map puts RAM.
pub before_clock : (q : ℕ) → q < time_base → scan machine.mmio_devices q ≡ none
unfolding scan
before_clock q h = ground arith

after_clock : (q : ℕ) → time_base + 24 ≤ q → scan machine.mmio_devices q ≡ none
unfolding scan
after_clock q h = ground arith

pub machine-CacheIsSound : CacheIsSound machine
machine-CacheIsSound a d hit = cc

machine-IsExclusive : IsExclusive machine.mmio_devices
unfolding scan
machine-IsExclusive a b d found inside = ground arith

machine-HasIsrStack : HasIsrStack machine
machine-HasIsrStack = record {
  inside = omega arith;
  addressable = omega arith;
  unclaimed = λ q lo hi. before_clock q (omega arith);
}

pub ram_word : (q : ℕ) → time_base + 24 ≤ q → q + 4 ≤ 0x10000 → IsRamWord machine q
ram_word q lo hi = record { inside = hi; unclaimed = after_clock q lo }

-- Interrupts.
no_entry : 0 ≡ two_words machine.memory 24
unfolding load32
no_entry = refl

machine-CanEnter : CanEnter 3 machine
machine-CanEnter = record {
  cache = machine-CacheIsSound;
  outside = refl;
  number = omega arith;
  entry = record {
    inside = omega arith;
    addressable = omega arith;
    low_unclaimed = before_clock 24 (omega arith);
    high_unclaimed = before_clock 28 (omega arith);
  };
  is_set = λ e. omega (arith, no_entry ∙ e);
  stack = machine-HasIsrStack;
  room = omega arith;
  size = omega arith;
  words = record { regs_word = λ r. omega arith; flags_word = omega arith; ip_word = omega arith };
}

interrupt_entry_example :
    (after : Vm) × (vm_enter_interrupt 3 machine ≡ ok (tt, after)) × Entered 3 machine after
interrupt_entry_example = interrupt_entry 3 machine machine-CanEnter

-- The machine in the handler, with the frame that entry left.
abbrev in_handler : Vm
in_handler = record machine {
  memory = (entered 3 machine).memory;
  cpu = record core {
    isp = (entered 3 machine).cpu.isp;
    in_interrupt = true;
    flags = 0;
    ip = 9000;
  };
}

in_handler-CanReturn : CanReturn (entered 3 machine) in_handler
in_handler-CanReturn =
    let facts = entered-Entered 3 machine machine-CanEnter in
    record {
      cache = machine-CacheIsSound;
      inside = refl;
      stack = record {
        inside = omega arith;
        addressable = omega arith;
        unclaimed = λ q lo hi. before_clock q (omega arith);
      };
      same_isp = refl;
      same_base = sym facts.same_base;
      same_frame = λ k h.
          ap
            (λ (b : ℕ).
              two_words (entered 3 machine).memory (b + ((entered 3 machine).cpu.isp + k) * 8))
            (sym facts.same_base);
    }

interrupt_return_example : (back : Vm) × (vm_iret in_handler ≡ ok (tt, back)) × Resumed machine back
interrupt_return_example =
    interrupt_return 3 machine (entered 3 machine) in_handler machine-CanEnter
      (vm_enter_interrupt-eq 3 machine machine-CanEnter) in_handler-CanReturn

-- Interrupts 5 and 70 are pending on core 0.
abbrev with_pending : Vm
with_pending = record machine {
  interrupt_bitmap = λ w. if w == 0 then 32 else if w == 1 then 64 else 0;
}

with_pending-CanHandle : CanHandle with_pending
with_pending-CanHandle = record {
  cache = machine-CacheIsSound;
  entries = λ n l. record {
    inside = omega arith;
    addressable = omega arith;
    low_unclaimed = before_clock (ivt_base + n * 8) (omega arith);
    high_unclaimed = before_clock (ivt_base + n * 8 + 4) (omega arith);
  };
  stack = record {
    inside = omega arith;
    addressable = omega arith;
    unclaimed = λ q lo hi. before_clock q (omega arith);
  };
  room = omega arith;
  size = omega arith;
  words = record { regs_word = λ r. omega arith; flags_word = omega arith; ip_word = omega arith };
}

handle_interrupts_lowest_example : Handles with_pending (vm_handle_interrupts with_pending)
handle_interrupts_lowest_example =
    handle_interrupts_lowest with_pending with_pending-CanHandle refl refl

trigger_pending_example :
    (pending (trigger_interrupt_target 1 65 with_pending) 1 65 ≡ 1)
    × (pending (trigger_interrupt_target 1 65 with_pending) 0 5 ≡ pending with_pending 0 5)
trigger_pending_example =
    trigger_pending with_pending 1 65 (omega arith, omega arith, omega arith) 0 5 (omega arith)
      (inl (λ e. omega arith))

-- Memory.
vm_read32-vm_write32_example :
    (after : Vm) × (vm_write32 9000 77 machine ≡ ok (tt, after))
    × (vm_read32 9000 after ≡ ok (77, after))
    × (vm_read32 9004 after ≡ ok (load32 machine.memory 9004, after))
    × (vm_read32 9004 machine ≡ ok (load32 machine.memory 9004, forget machine))
vm_read32-vm_write32_example =
    vm_read32-vm_write32 9000 77 9004 machine (omega arith) machine-CacheIsSound
      (ram_word 9000 (omega arith) (omega arith)) (ram_word 9004 (omega arith) (omega arith))
      (inr (omega arith))

find_mmio_transparent_example :
    ((find_mmio 8196 machine).0 ≡ scan machine.mmio_devices 8196)
    × CacheIsSound (find_mmio 8196 machine).1
find_mmio_transparent_example =
    find_mmio_transparent 8196 machine machine-IsExclusive machine-CacheIsSound

abbrev pub bare : Vm
bare = record machine { memory_size = 1048576 * 64; mmio_devices = [] }

-- Instructions: CMP of registers 1 and 2, a jump to 9000, and a word.
abbrev pub compare_1_2 : Inst
compare_1_2 = record { op = 0x12; rd = 1; rs1 = 2; rs2 = 0; imm = 0 }

abbrev pub jump_9000 : Inst
jump_9000 = record { op = 0x27; rd = 0; rs1 = 0; rs2 = 0; imm = 9000 }

compare_1_2-IsInst : IsInst compare_1_2
compare_1_2-IsInst = record {
  op_byte = omega arith;
  rd_byte = omega arith;
  rs1_byte = omega arith;
  rs2_byte = omega arith;
  imm_word = omega arith;
}

signed_jumps_example :
    (ip_of ((exec_cmp compare_1_2 >> exec_jl jump_9000) machine) ≡ some 9000)
    × (ip_of ((exec_cmp compare_1_2 >> exec_jge jump_9000) machine) ≡ some 8220)
    × (ip_of ((exec_cmp compare_1_2 >> exec_jle jump_9000) machine) ≡ some 9000)
    × (ip_of ((exec_cmp compare_1_2 >> exec_jg jump_9000) machine) ≡ some 8220)
signed_jumps_example =
    signed_jumps compare_1_2 jump_9000 machine (omega arith, omega arith, omega arith, omega arith)

unsigned_jumps_example :
    (ip_of ((exec_cmp compare_1_2 >> exec_jz jump_9000) machine) ≡ some 8220)
    × (ip_of ((exec_cmp compare_1_2 >> exec_jnz jump_9000) machine) ≡ some 9000)
    × (ip_of ((exec_cmp compare_1_2 >> exec_jc jump_9000) machine) ≡ some 9000)
    × (ip_of ((exec_cmp compare_1_2 >> exec_jnc jump_9000) machine) ≡ some 8220)
unsigned_jumps_example =
    unsigned_jumps compare_1_2 jump_9000 machine
      (omega arith, omega arith, omega arith, omega arith)

decode-encode_example : decode (encode compare_1_2) ≡ compare_1_2
decode-encode_example = decode-encode compare_1_2 compare_1_2-IsInst

fetch64-store64_example :
    let stored = with_memory (store64 machine.memory 8220 (encode compare_1_2)) machine in
    fetch64 stored ≡ ok (compare_1_2, fetched stored)
fetch64-store64_example =
    fetch64-store64 compare_1_2 machine compare_1_2-IsInst (omega arith) (omega arith)

-- The serial queue with two waiting bytes across the end of the ring.
abbrev with_bytes : Vm
with_bytes = record machine {
  serial_rx_fifo = λ i. if i == 255 then 65 else 66;
  serial_rx_tail = 255;
  serial_rx_head = 1;
}

enqueue-put_bounded_example :
    let (accepted, after) = vm_serial_rx_enqueue 67 with_bytes in
    (accepted, waiting after) ≡ put_bounded 67 (65 ∷ 66 ∷ [])
enqueue-put_bounded_example = enqueue-put_bounded 67 with_bytes (omega arith, omega arith)

take-take_oldest_example :
    let (v, after) = serial_rx_take with_bytes in (v, waiting after) ≡ take_oldest (65 ∷ 66 ∷ [])
take-take_oldest_example = take-take_oldest with_bytes (omega arith, omega arith)

-- The disk: a read of one sector.
abbrev zeroes : ℕ → ℕ
zeroes i = 0

abbrev read_events : List DiskEvent
read_events = command 1 ∷ tick ∷ command 2 ∷ work (some zeroes) ∷ []

disk_follows_life_example :
    InPhase done (disk_events read_events machine).disk
    × StepsTo done tick
        (disk_events read_events machine)
        (disk_event tick (disk_events read_events machine))
disk_follows_life_example = disk_follows_life idle read_events tick machine (refl, refl)

command_zero_sticks_example : InPhase stuck (disk_events (command 0 ∷ read_events) machine).disk
command_zero_sticks_example = command_zero_sticks read_events machine (refl, refl)
