-- ===== src/Machine/Io.antt =====
-- io.c and the two entry points of disk.c on the processor side: the ports, the serial receive
-- queue, the disk command register and its completion.
pub mod Serial
pub mod DiskWorker
pub mod DiskLife
use lamp_vm.Common.Tests.{
  ℕ, ◌+◌, ◌-◌, ◌*◌, ◌/◌, ◌%◌, ◌^◌, Bool, true, false, not, ◌||◌, ◌++◌, [], ◌∷◌, leb, ◌==◌,
  if◌then◌else◌,
}
use lamp_vm.Common.Arrays.{update}
use lamp_vm.Common.Word.{u8, u16, not32, ◌<<<◌, ◌>>>◌}
use lamp_vm.Common.Bits.Step.{bit_or, bit_and}
use lamp_vm.Machine.State.{Vm, Disk, io_size}
use lamp_vm.Machine.Interrupt.{trigger_interrupt}

abbrev pub screen : ℕ
screen = 0x01

abbrev pub screen_attribute : ℕ
screen_attribute = 0x02

abbrev pub keyboard : ℕ
keyboard = 0x03

abbrev pub disk_cmd_port : ℕ
disk_cmd_port = 0x10

abbrev pub disk_lba : ℕ
disk_lba = 0x11

abbrev pub disk_mem : ℕ
disk_mem = 0x12

abbrev pub disk_count : ℕ
disk_count = 0x13

abbrev pub cpu_ctx_csp : ℕ
cpu_ctx_csp = 0xF0

abbrev pub cpu_ctx_dsp : ℕ
cpu_ctx_dsp = 0xF1

abbrev pub cpu_ctx_irq_mask : ℕ
cpu_ctx_irq_mask = 0xF2

abbrev pub serial_status_rx_ready : ℕ
serial_status_rx_ready = 0x01

abbrev pub serial_ctrl_rx_int_enable : ℕ
serial_ctrl_rx_int_enable = 0x01

abbrev pub int_serial : ℕ
int_serial = 3

abbrev pub int_disk_complete : ℕ
int_disk_complete = 2

abbrev pub put_io : ℕ → ℕ → Vm → Vm
put_io port value vm = record vm { io = update vm.io port value }

-- `(io[SCREEN_ATTRIBUTE] >> 8) & SERIAL_CTRL_RX_INT_ENABLE`, as a test.
abbrev pub rx_int_enabled : Vm → Bool
rx_int_enabled vm = not (bit_and (vm.io screen_attribute >>> 8) serial_ctrl_rx_int_enable == 0)

-- The first byte of an empty queue shows at the port and raises the interrupt, if enabled.
unfoldable pub announce_rx : Vm → Vm
announce_rx vm =
    let shown =
      put_io screen_attribute (bit_or (vm.io screen_attribute) serial_status_rx_ready)
        (put_io keyboard (vm.serial_rx_fifo vm.serial_rx_tail) vm) in
    if rx_int_enabled shown then trigger_interrupt int_serial shown else shown

-- The host hands in a byte: false when the queue of 255 bytes is full.
unfoldable pub vm_serial_rx_enqueue : ℕ → Vm → Bool × Vm
unfolding announce_rx
vm_serial_rx_enqueue c vm =
    let next = (vm.serial_rx_head + 1) % 2 ^ 8 in
    let queued = record vm {
      serial_rx_fifo = update vm.serial_rx_fifo vm.serial_rx_head c;
      serial_rx_head = next;
    } in
    if next == vm.serial_rx_tail
    then (false, vm)
    else (true, if vm.serial_rx_head == vm.serial_rx_tail then announce_rx queued else queued)

-- A command while the disk is busy is ignored.
unfoldable pub disk_cmd : ℕ → Vm → Vm
disk_cmd value vm = if vm.disk.busy then vm else record vm {
  disk = record vm.disk { current_cmd = value; busy = true; op_complete = false };
}

unfoldable pub disk_tick : Vm → Vm
disk_tick vm =
    if not vm.disk.busy
    then vm
    else if vm.disk.op_complete
    then trigger_interrupt int_disk_complete
        (record vm { disk = record vm.disk { busy = false; op_complete = false } })
    else vm

-- The port is below `io_size`, or a negative `int`, which is a pattern from 2 ^ 31 on.
unfoldable pub accept_io : ℕ → ℕ → Vm → Vm
accept_io addr value vm =
    if leb io_size addr
    then vm
    else if addr == screen
    then put_io screen value (record vm { terminal = vm.terminal ++ (u8 value ∷ []) })
    else if addr == screen_attribute
    then put_io screen_attribute (bit_or (vm.io screen_attribute % 2 ^ 8) (u8 value <<< 8)) vm
    else if addr == disk_cmd_port
    then disk_cmd value (put_io disk_cmd_port value vm)
    else if addr == disk_lba
    then put_io disk_lba value (record vm { disk = record vm.disk { lba = value } })
    else if addr == disk_mem
    then put_io disk_mem value (record vm { disk = record vm.disk { mem_addr = value } })
    else if addr == disk_count
    then put_io disk_count value (record vm { disk = record vm.disk { count = value } })
    else put_io addr value vm
