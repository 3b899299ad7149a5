-- ===== src/Machine/Exec/Transfer.antt =====
-- Loads, stores, block operations and the data stack.
use lamp_vm.Common.Tests.{ℕ, zero, suc, ◌+◌}
use lamp_vm.Common.Word.{u8, add32}
use lamp_vm.Machine.State.{M, ◌>>=◌, ◌>>◌, set_cpu, pure}
use lamp_vm.Machine.Flags.{update_zf_sf, set_flags}
use lamp_vm.Machine.Decode.{Inst}
use lamp_vm.Machine.Memory.{vm_read8, vm_read32, vm_write8, vm_write32}
use lamp_vm.Machine.Stack.{data_push, data_pop}
use lamp_vm.Machine.Exec.Base.{reg, set_reg, set_logic}

unfoldable pub exec_push : Inst → M (Unit {0})
exec_push i = do v ← reg i.rd; data_push v

unfoldable pub exec_pop : Inst → M (Unit {0})
exec_pop i = do v ← data_pop; set_logic i.rd v

-- A byte load leaves CF and OF as they are.
unfoldable pub exec_load : Inst → M (Unit {0})
exec_load i = do
  base ← reg i.rs1
  v ← vm_read8 (add32 base i.imm)
  set_reg i.rd v
  set_cpu (set_flags (update_zf_sf v))

unfoldable pub exec_load32 : Inst → M (Unit {0})
exec_load32 i = do base ← reg i.rs1; v ← vm_read32 (add32 base i.imm); set_logic i.rd v

unfoldable pub exec_loadx32 : Inst → M (Unit {0})
exec_loadx32 i = do
  base ← reg i.rs1
  index ← reg i.rs2
  v ← vm_read32 (add32 (add32 base index) i.imm)
  set_logic i.rd v

unfoldable pub exec_store : Inst → M (Unit {0})
exec_store i = do base ← reg i.rs1; v ← reg i.rd; vm_write8 (add32 base i.imm) (u8 v)

unfoldable pub exec_store32 : Inst → M (Unit {0})
exec_store32 i = do base ← reg i.rs1; v ← reg i.rd; vm_write32 (add32 base i.imm) v

unfoldable pub exec_storex32 : Inst → M (Unit {0})
exec_storex32 i = do
  base ← reg i.rs1
  index ← reg i.rs2
  v ← reg i.rd
  vm_write32 (add32 (add32 base index) i.imm) v

-- The loops at index `i`, with `left` rounds to go.
unfoldable pub memset_from : ℕ → ℕ → ℕ → ℕ → M (Unit {0})
memset_from base value zero i = pure tt
memset_from base value (suc left) i = do
  vm_write8 (add32 base i) value
  memset_from base value left (i + 1)

unfoldable pub memcpy_from : ℕ → ℕ → ℕ → ℕ → M (Unit {0})
memcpy_from dest src zero i = pure tt
memcpy_from dest src (suc left) i = do
  v ← vm_read8 (add32 src i)
  vm_write8 (add32 dest i) v
  memcpy_from dest src left (i + 1)

unfoldable pub exec_memset : Inst → M (Unit {0})
unfolding memset_from
exec_memset i = do base ← reg i.rd; v ← reg i.rs1; memset_from base (u8 v) i.imm 0

unfoldable pub exec_memcpy : Inst → M (Unit {0})
unfolding memcpy_from
exec_memcpy i = do dest ← reg i.rd; src ← reg i.rs1; memcpy_from dest src i.imm 0
