-- ===== src/Machine/Exec/Alu.antt =====
-- Integer arithmetic, logic, shifts and comparisons. A register is a `uint32_t` and `imm` a
-- pattern of 32 bits: C's conversions to `int32_t` and back keep the pattern.
use lamp_vm.Common.Tests.{ℕ, ◌-◌, ◌/◌, ◌%◌, ◌==◌, if◌then◌else◌}
use lamp_vm.Common.Word.{u32, add32, sub32, mul32, not32, ◌<<<◌, ◌>>>◌}
use lamp_vm.Common.Bits.Step.{bit_or, bit_and, bit_xor}
use lamp_vm.Machine.State.{M, ◌>>=◌, ◌>>◌, set_cpu, modify}
use lamp_vm.Machine.Flags.{update_add_flags, update_sub_flags, set_flags}
use lamp_vm.Machine.Decode.{Inst}
use lamp_vm.Machine.Interrupt.{trigger_interrupt}
use lamp_vm.Machine.Exec.Base.{reg, set_reg, set_logic}

unfoldable pub rotl32 : ℕ → ℕ → ℕ
rotl32 v n = let sh = n % 32 in if sh == 0 then v else bit_or (u32 (v <<< sh)) (v >>> (32 - sh))

unfoldable pub rotr32 : ℕ → ℕ → ℕ
rotr32 v n = let sh = n % 32 in if sh == 0 then v else bit_or (v >>> sh) (u32 (v <<< (32 - sh)))

-- A sum or a difference with all four flags.
abbrev set_sum : ℕ → ℕ → ℕ → M (Unit {0})
set_sum r a b = do set_reg r (add32 a b); set_cpu (set_flags (update_add_flags a b (add32 a b)))

abbrev set_difference : ℕ → ℕ → ℕ → M (Unit {0})
set_difference r a b = do
  set_reg r (sub32 a b)
  set_cpu (set_flags (update_sub_flags a b (sub32 a b)))

abbrev compare_flags : ℕ → ℕ → M (Unit {0})
compare_flags a b = set_cpu (set_flags (update_sub_flags a b (sub32 a b)))

unfoldable pub exec_add : Inst → M (Unit {0})
exec_add i = do a ← reg i.rs1; b ← reg i.rs2; set_sum i.rd a b

unfoldable pub exec_sub : Inst → M (Unit {0})
exec_sub i = do a ← reg i.rs1; b ← reg i.rs2; set_difference i.rd a b

unfoldable pub exec_mul : Inst → M (Unit {0})
exec_mul i = do a ← reg i.rs1; b ← reg i.rs2; set_logic i.rd (mul32 a b)

unfoldable pub exec_cmp : Inst → M (Unit {0})
exec_cmp i = do a ← reg i.rd; b ← reg i.rs1; compare_flags a b

unfoldable pub exec_cmpi : Inst → M (Unit {0})
exec_cmpi i = do a ← reg i.rd; compare_flags a i.imm

unfoldable pub exec_mov : Inst → M (Unit {0})
exec_mov i = do a ← reg i.rs1; set_logic i.rd a

unfoldable pub exec_movi : Inst → M (Unit {0})
exec_movi i = set_logic i.rd i.imm

unfoldable pub exec_and : Inst → M (Unit {0})
exec_and i = do a ← reg i.rs1; b ← reg i.rs2; set_logic i.rd (bit_and a b)

unfoldable pub exec_or : Inst → M (Unit {0})
exec_or i = do a ← reg i.rs1; b ← reg i.rs2; set_logic i.rd (bit_or a b)

unfoldable pub exec_xor : Inst → M (Unit {0})
exec_xor i = do a ← reg i.rs1; b ← reg i.rs2; set_logic i.rd (bit_xor a b)

unfoldable pub exec_not : Inst → M (Unit {0})
exec_not i = do a ← reg i.rs1; set_logic i.rd (not32 a)

unfoldable pub exec_shl : Inst → M (Unit {0})
exec_shl i = do b ← reg i.rs2; a ← reg i.rs1; set_logic i.rd (u32 (a <<< (b % 32)))

unfoldable pub exec_shr : Inst → M (Unit {0})
exec_shr i = do b ← reg i.rs2; a ← reg i.rs1; set_logic i.rd (a >>> (b % 32))

-- `cpu->regs[rs1] >> sh`: the register is unsigned.
unfoldable pub exec_sar : Inst → M (Unit {0})
exec_sar i = do b ← reg i.rs2; a ← reg i.rs1; set_logic i.rd (a >>> (b % 32))

unfoldable pub exec_rol : Inst → M (Unit {0})
exec_rol i = do b ← reg i.rs2; a ← reg i.rs1; set_logic i.rd (rotl32 a (b % 32))

unfoldable pub exec_ror : Inst → M (Unit {0})
exec_ror i = do b ← reg i.rs2; a ← reg i.rs1; set_logic i.rd (rotr32 a (b % 32))

abbrev pub int_divide_by_zero : ℕ
int_divide_by_zero = 1

unfoldable pub exec_div : Inst → M (Unit {0})
exec_div i = do
  b ← reg i.rs2
  if b == 0
      then modify (trigger_interrupt int_divide_by_zero)
      else (reg i.rs1 >>= λ a. set_logic i.rd (a / b))

unfoldable pub exec_mod : Inst → M (Unit {0})
exec_mod i = do
  b ← reg i.rs2
  if b == 0
      then modify (trigger_interrupt int_divide_by_zero)
      else (reg i.rs1 >>= λ a. set_logic i.rd (a % b))

unfoldable pub exec_inc : Inst → M (Unit {0})
exec_inc i = do a ← reg i.rd; set_sum i.rd a 1

unfoldable pub exec_addi : Inst → M (Unit {0})
exec_addi i = do a ← reg i.rs1; set_sum i.rd a i.imm

unfoldable pub exec_subi : Inst → M (Unit {0})
exec_subi i = do a ← reg i.rs1; set_difference i.rd a i.imm

unfoldable pub exec_andi : Inst → M (Unit {0})
exec_andi i = do a ← reg i.rs1; set_logic i.rd (bit_and a i.imm)

unfoldable pub exec_ori : Inst → M (Unit {0})
exec_ori i = do a ← reg i.rs1; set_logic i.rd (bit_or a i.imm)

unfoldable pub exec_xori : Inst → M (Unit {0})
exec_xori i = do a ← reg i.rs1; set_logic i.rd (bit_xor a i.imm)

unfoldable pub exec_shli : Inst → M (Unit {0})
exec_shli i = do a ← reg i.rs1; set_logic i.rd (u32 (a <<< (i.imm % 32)))

unfoldable pub exec_shri : Inst → M (Unit {0})
exec_shri i = do a ← reg i.rs1; set_logic i.rd (a >>> (i.imm % 32))

unfoldable pub exec_roli : Inst → M (Unit {0})
exec_roli i = do a ← reg i.rs1; set_logic i.rd (rotl32 a (i.imm % 32))

unfoldable pub exec_rori : Inst → M (Unit {0})
exec_rori i = do a ← reg i.rs1; set_logic i.rd (rotr32 a (i.imm % 32))
