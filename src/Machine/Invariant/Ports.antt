-- ===== src/Machine/Invariant/Ports.antt =====
-- Changes of the ports and the serial queue.
use lamp_vm.Common.Tests.{ℕ, ◌%◌, ◌^◌, ◌==◌, if-both, leb, arith, ◌++◌, [], ◌∷◌}
use lamp_vm.Common.Word.{u8, not32, ◌<<<◌}
use lamp_vm.Common.Bits.Step.{bit_or, bit_and}
use lamp_vm.Common.Bits.Fields.{bit_or-lt, bit_and-le}
use lamp_vm.Machine.State.{Vm, ◌>>=◌, gets, io_size}
use lamp_vm.Machine.Io.{
  accept_io, disk_cmd, screen, screen_attribute, put_io, keyboard, disk_cmd_port, disk_lba,
  disk_mem, disk_count, int_serial,
}
use lamp_vm.Machine.Exec.Base.{set_reg}
use lamp_vm.Machine.Exec.System.{
  in_keyboard, serial_rx_take, serial_rx_refresh, serial_rx_acknowledge,
}
use lamp_vm.Machine.Invariant.Base.{
  IsWellFormed, Keeps, IsAny, IsWord, AreWords-update, Keeps->>=, Keeps-modify, Keeps-gets,
  Keeps-set_reg,
}
use lamp_vm.Machine.Invariant.Instructions.{trigger_bsp}

put_io-IsWellFormed :
    (port v : ℕ) (vm : Vm) → IsWord v → IsWellFormed vm → IsWellFormed (put_io port v vm)
put_io-IsWellFormed port v vm w good =
    (good.0, good.1, good.2, good.3, AreWords-update vm.io port v good.4 w, good.5, good.6)

commanded-IsWellFormed : (v : ℕ) (vm : Vm) → IsWellFormed vm → IsWellFormed (disk_cmd v vm)
unfolding disk_cmd
commanded-IsWellFormed v vm good = if-both IsWellFormed vm.disk.busy good good

-- The same as a record, which is compared as a whole.
record IsBoxed (vm : Vm) : Type 0 where
  field_ok : IsWellFormed vm

boxed : (vm : Vm) → IsWellFormed vm → IsBoxed vm
boxed vm good = record { field_ok = good }

put_io-IsBoxed : (port v : ℕ) (vm : Vm) → IsWord v → IsWellFormed vm → IsBoxed (put_io port v vm)
put_io-IsBoxed port v vm w good = boxed (put_io port v vm) (put_io-IsWellFormed port v vm w good)

commanded-IsBoxed : (v : ℕ) (vm : Vm) → IsBoxed vm → IsBoxed (disk_cmd v vm)
commanded-IsBoxed v vm good = boxed (disk_cmd v vm) (commanded-IsWellFormed v vm good.field_ok)

accept_io-IsBoxed :
    (port v : ℕ) (vm : Vm) → IsWord v → IsWellFormed vm → IsBoxed (accept_io port v vm)
unfolding accept_io
accept_io-IsBoxed port v vm w good =
    let control : IsWord (bit_or (vm.io screen_attribute % 2 ^ 8) (u8 v <<< 8)) =
      bit_or-lt 32 (vm.io screen_attribute % 2 ^ 8) (u8 v <<< 8) (omega arith) (omega arith) in
    if-both IsBoxed (leb io_size port) (boxed vm good) (
      if-both IsBoxed (port == screen)
        (put_io-IsBoxed screen v (record vm { terminal = vm.terminal ++ (u8 v ∷ []) }) w good)
        (if-both IsBoxed (port == screen_attribute)
          (put_io-IsBoxed screen_attribute _ vm control good)
          (if-both IsBoxed (port == disk_cmd_port)
            (commanded-IsBoxed v (put_io disk_cmd_port v vm)
              (put_io-IsBoxed disk_cmd_port v vm w good))
            (if-both IsBoxed (port == disk_lba)
              (put_io-IsBoxed disk_lba v (record vm { disk = record vm.disk { lba = v } }) w good)
              (if-both IsBoxed (port == disk_mem)
                (put_io-IsBoxed disk_mem v (record vm { disk = record vm.disk { mem_addr = v } }) w
                  good)
                (if-both IsBoxed (port == disk_count)
                  (put_io-IsBoxed disk_count v (record vm { disk = record vm.disk { count = v } }) w
                    good)
                  (put_io-IsBoxed port v vm w good)))))))

pub accept_io-IsWellFormed :
    (port v : ℕ) (vm : Vm) → IsWord v → IsWellFormed vm → IsWellFormed (accept_io port v vm)
accept_io-IsWellFormed port v vm w good = (accept_io-IsBoxed port v vm w good).field_ok

-- A read of the keyboard port.
taken-IsWellFormed :
    (vm : Vm) → IsWellFormed vm → IsWord (serial_rx_take vm).0 × IsWellFormed (serial_rx_take vm).1
unfolding serial_rx_take
taken-IsWellFormed vm good = let byte = good.5 vm.serial_rx_tail in ground (arith, good, byte)

refresh-IsWellFormed : (vm : Vm) → IsWellFormed vm → IsWellFormed (serial_rx_refresh vm)
unfolding serial_rx_refresh
refresh-IsWellFormed vm good =
    let status = vm.io screen_attribute in
    let byte = vm.serial_rx_fifo vm.serial_rx_tail in
    let word = good.4 screen_attribute in
    if-both IsWellFormed (vm.serial_rx_tail == vm.serial_rx_head)
      (put_io-IsWellFormed screen_attribute (bit_and status (not32 1)) (put_io keyboard 0 vm)
        (omega (arith, bit_and-le status (not32 1)))
        (put_io-IsWellFormed keyboard 0 vm (omega arith) good))
      (put_io-IsWellFormed screen_attribute (bit_or status 1) (put_io keyboard byte vm)
        (bit_or-lt 32 status 1 word (omega arith))
        (put_io-IsWellFormed keyboard byte vm (let b = good.5 vm.serial_rx_tail in omega arith)
          good))

acknowledge-IsWellFormed : (vm : Vm) → IsWellFormed vm → IsWellFormed (serial_rx_acknowledge vm)
unfolding serial_rx_acknowledge
acknowledge-IsWellFormed vm good = if-both IsWellFormed _ (trigger_bsp int_serial _ good) good

pub Keeps-in_keyboard : (rd : ℕ) → Keeps IsAny (in_keyboard rd)
unfolding in_keyboard
Keeps-in_keyboard rd = record {
  at = λ vm good.
      let t = taken-IsWellFormed vm good in
      (Keeps->>= (Keeps-set_reg rd (serial_rx_take vm).0 t.0) λ u q.
          Keeps-modify _
            (λ s h. acknowledge-IsWellFormed (serial_rx_refresh s) (refresh-IsWellFormed s h))).at
        (serial_rx_take vm).1 t.1;
}

pub read_into :
    (rd : ℕ) (f : Vm → ℕ)
    → ((vm : Vm) → IsWellFormed vm → IsWord (f vm))
    → Keeps IsAny (gets f >>= set_reg rd)
read_into rd f h = Keeps->>= (Keeps-gets f h) λ v w. Keeps-set_reg rd v w
