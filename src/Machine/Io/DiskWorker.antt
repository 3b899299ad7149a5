-- ===== src/Machine/Io/DiskWorker.antt =====
-- io_devices/disk/disk.c: the worker thread of the disk, and the events that reach the disk. The image is behind stdio: what `malloc` and `fread`
-- leave in the buffer is an argument, and what is handed to `fwrite` is a result.
use lamp_vm.Common.Tests.{
  ℕ, ◌+◌, ◌-◌, ◌*◌, Bool, true, not, ◌&&◌, Option, some, none, List, [], ◌∷◌, leb, ltb, ◌==◌,
  if◌then◌else◌,
}
use lamp_vm.Machine.State.{Vm}
use lamp_vm.Machine.Io.{disk_cmd, disk_tick}

abbrev pub disk_sector_size : ℕ
disk_sector_size = 512

abbrev pub disk_cmd_none : ℕ
disk_cmd_none = 0

abbrev pub disk_cmd_read : ℕ
disk_cmd_read = 1

abbrev pub disk_cmd_write : ℕ
disk_cmd_write = 2

unfoldable pub is_valid_dma : Vm → ℕ → ℕ → Bool
is_valid_dma vm addr count = not (ltb vm.memory_size (addr + count * disk_sector_size))

-- `memcpy(&vm->memory[addr], buf, bytes)`
unfoldable pub copy_in : (ℕ → ℕ) → ℕ → ℕ → Vm → Vm
copy_in buf addr bytes vm = record vm {
  memory = λ q. if leb addr q && ltb q (addr + bytes) then buf (q - addr) else vm.memory q;
}

-- What a write command hands to `fwrite`: the offset in the image and the bytes.
pub record Written : Type 0 where
  pub offset : ℕ
  pub size : ℕ
  pub byte : ℕ → ℕ

-- The transfer of one command; a DMA range outside memory and a failed `malloc` transfer nothing.
unfoldable pub worker_transfer : Option (ℕ → ℕ) → Vm → Option Written × Vm
unfolding is_valid_dma copy_in
worker_transfer none vm = (none, vm)
worker_transfer (some buf) vm =
    let d = vm.disk in
    let bytes = d.count * disk_sector_size in
    if not (is_valid_dma vm d.mem_addr d.count)
    then (none, vm)
    else if d.current_cmd == disk_cmd_read
    then (none, copy_in buf d.mem_addr bytes vm)
    else if d.current_cmd == disk_cmd_write
    then (
      some (record {
        offset = d.lba * disk_sector_size;
        size = bytes;
        byte = λ i. vm.memory (d.mem_addr + i);
      }),
      vm,
    )
    else (none, vm)

abbrev pub finish_command : Vm → Vm
finish_command vm = record vm {
  disk = record vm.disk { current_cmd = disk_cmd_none; op_complete = true };
}

-- One round of the worker's loop: it sleeps while there is no command.
unfoldable pub worker_round : Option (ℕ → ℕ) → Vm → Option Written × Vm
unfolding worker_transfer
worker_round buffer vm =
    if vm.disk.current_cmd == disk_cmd_none
    then (none, vm)
    else let (out, vm') = worker_transfer buffer vm in (out, finish_command vm')

-- What happens to the disk: a write of the command port, a round of the worker, a tick.
pub data DiskEvent : Type 0 where
  command : ℕ → DiskEvent
  work : Option (ℕ → ℕ) → DiskEvent
  tick : DiskEvent

unfoldable pub disk_event : DiskEvent → Vm → Vm
unfolding worker_round
disk_event (command v) vm = disk_cmd v vm
disk_event (work buffer) vm = (worker_round buffer vm).1
disk_event tick vm = disk_tick vm

unfoldable pub disk_events : List DiskEvent → Vm → Vm
unfolding disk_event
disk_events [] vm = vm
disk_events (e ∷ es) vm = disk_events es (disk_event e vm)
