-- ===== src/Machine/Invariant/Instructions.antt =====
-- The instructions that compute.
use lamp_vm.Common.Tests.{ℕ, ◌-◌, ◌*◌, ◌%◌, ◌^◌, ◌==◌, if-both, arith}
use native.Mathlib.Nat.{mod-lt, mod-le, div-le_self, lt_of_le_of_lt}
use lamp_vm.Common.Word.{u32, ◌<<<◌, ◌>>>◌}
use lamp_vm.Common.Bits.Fields.{bit_or-lt, bit_and-le, bit_xor-lt}
use lamp_vm.Machine.State.{Vm, M, ◌>>=◌, ◌>>◌, set_cpu}
use lamp_vm.Machine.Interrupt.{trigger_interrupt}
use lamp_vm.Machine.Decode.{Inst}
use lamp_vm.Machine.Exec.Alu
use lamp_vm.Machine.Exec.Alu.{rotl32, rotr32}
use lamp_vm.Machine.Exec.Base.{reg, set_reg}
use lamp_vm.Machine.Flags.{set_flags}
use lamp_vm.Machine.Invariant.Base.{
  IsWellFormed, Keeps, IsAny, IsWord, Keeps->>=, Keeps-modify, Keeps-if, Keeps-reg, Keeps-set_reg,
  Keeps-set_logic, Keeps-set_flags,
}
use lamp_vm.Machine.Invariant.Frames.{trigger-IsWellFormed}

-- Shifts and rotations of words.
shifted-lt : (a n : ℕ) → IsWord a → IsWord (a >>> n)
shifted-lt a n w = lt_of_le_of_lt (div-le_self a (2 ^ n)) w

rotl32-lt : (v n : ℕ) → IsWord v → IsWord (rotl32 v n)
unfolding rotl32
rotl32-lt v n w = if-both IsWord (n % 32 == 0) w (
    bit_or-lt 32 (u32 (v <<< (n % 32))) (v >>> (32 - n % 32)) (omega arith)
      (shifted-lt v (32 - n % 32) w))

rotr32-lt : (v n : ℕ) → IsWord v → IsWord (rotr32 v n)
unfolding rotr32
rotr32-lt v n w = if-both IsWord (n % 32 == 0) w (
    bit_or-lt 32 (v >>> (n % 32)) (u32 (v <<< (32 - n % 32))) (shifted-lt v (n % 32) w)
      (omega arith))

-- A register operand, and two.
pub with_one :
    {f : ℕ → M (Unit {0})} (r : ℕ)
    → ((a : ℕ) → IsWord a → Keeps IsAny (f a))
    → Keeps IsAny (reg r >>= f)
with_one r k = Keeps->>= (Keeps-reg r) k

pub with_two :
    {f : ℕ → ℕ → M (Unit {0})} (r s : ℕ)
    → ((a b : ℕ) → IsWord a → IsWord b → Keeps IsAny (f a b))
    → Keeps IsAny (reg r >>= λ a. reg s >>= λ b. f a b)
with_two r s k = Keeps->>= (Keeps-reg r) λ a p. Keeps->>= (Keeps-reg s) λ b q. k a b p q

pub Keeps-flagged :
    (r v : ℕ) (g : ℕ → ℕ) → IsWord v → Keeps IsAny (set_reg r v >> set_cpu (set_flags g))
Keeps-flagged r v g w = Keeps->>= (Keeps-set_reg r v w) λ u q. Keeps-set_flags g

pub trigger_bsp : (n : ℕ) (vm : Vm) → IsWellFormed vm → IsWellFormed (trigger_interrupt n vm)
unfolding trigger_interrupt
trigger_bsp n vm good = trigger-IsWellFormed 0 n vm good

module _ (i : Inst) (word : IsWord i.imm) where
  pub Keeps-exec_add : Keeps IsAny (Alu.exec_add i)
  unfolding Alu.exec_add
  Keeps-exec_add = with_two i.rs1 i.rs2 λ a b p q. Keeps-flagged i.rd _ _ (omega arith)

  pub Keeps-exec_sub : Keeps IsAny (Alu.exec_sub i)
  unfolding Alu.exec_sub
  Keeps-exec_sub = with_two i.rs1 i.rs2 λ a b p q. Keeps-flagged i.rd _ _ (omega arith)

  pub Keeps-exec_mul : Keeps IsAny (Alu.exec_mul i)
  unfolding Alu.exec_mul
  Keeps-exec_mul =
      with_two i.rs1 i.rs2 λ a b p q. Keeps-set_logic i.rd _ (mod-lt (a * b) (omega arith))

  pub Keeps-exec_cmp : Keeps IsAny (Alu.exec_cmp i)
  unfolding Alu.exec_cmp
  Keeps-exec_cmp = with_two i.rd i.rs1 λ a b p q. Keeps-set_flags _

  pub Keeps-exec_cmpi : Keeps IsAny (Alu.exec_cmpi i)
  unfolding Alu.exec_cmpi
  Keeps-exec_cmpi = with_one i.rd λ a p. Keeps-set_flags _

  pub Keeps-exec_mov : Keeps IsAny (Alu.exec_mov i)
  unfolding Alu.exec_mov
  Keeps-exec_mov = with_one i.rs1 λ a p. Keeps-set_logic i.rd a p

  pub Keeps-exec_movi : Keeps IsAny (Alu.exec_movi i)
  unfolding Alu.exec_movi
  Keeps-exec_movi = Keeps-set_logic i.rd i.imm word

  pub Keeps-exec_and : Keeps IsAny (Alu.exec_and i)
  unfolding Alu.exec_and
  Keeps-exec_and =
      with_two i.rs1 i.rs2 λ a b p q. Keeps-set_logic i.rd _ (omega (arith, bit_and-le a b))

  pub Keeps-exec_or : Keeps IsAny (Alu.exec_or i)
  unfolding Alu.exec_or
  Keeps-exec_or = with_two i.rs1 i.rs2 λ a b p q. Keeps-set_logic i.rd _ (bit_or-lt 32 a b p q)

  pub Keeps-exec_xor : Keeps IsAny (Alu.exec_xor i)
  unfolding Alu.exec_xor
  Keeps-exec_xor = with_two i.rs1 i.rs2 λ a b p q. Keeps-set_logic i.rd _ (bit_xor-lt 32 a b p q)

  pub Keeps-exec_not : Keeps IsAny (Alu.exec_not i)
  unfolding Alu.exec_not
  Keeps-exec_not = with_one i.rs1 λ a p. Keeps-set_logic i.rd _ (omega arith)

  pub Keeps-exec_shl : Keeps IsAny (Alu.exec_shl i)
  unfolding Alu.exec_shl
  Keeps-exec_shl = with_two i.rs2 i.rs1 λ b a q p. Keeps-set_logic i.rd _ (omega arith)

  pub Keeps-exec_shr : Keeps IsAny (Alu.exec_shr i)
  unfolding Alu.exec_shr
  Keeps-exec_shr = with_two i.rs2 i.rs1 λ b a q p. Keeps-set_logic i.rd _ (shifted-lt a (b % 32) p)

  pub Keeps-exec_sar : Keeps IsAny (Alu.exec_sar i)
  unfolding Alu.exec_sar
  Keeps-exec_sar = with_two i.rs2 i.rs1 λ b a q p. Keeps-set_logic i.rd _ (shifted-lt a (b % 32) p)

  pub Keeps-exec_rol : Keeps IsAny (Alu.exec_rol i)
  unfolding Alu.exec_rol
  Keeps-exec_rol = with_two i.rs2 i.rs1 λ b a q p. Keeps-set_logic i.rd _ (rotl32-lt a (b % 32) p)

  pub Keeps-exec_ror : Keeps IsAny (Alu.exec_ror i)
  unfolding Alu.exec_ror
  Keeps-exec_ror = with_two i.rs2 i.rs1 λ b a q p. Keeps-set_logic i.rd _ (rotr32-lt a (b % 32) p)

  pub Keeps-exec_div : Keeps IsAny (Alu.exec_div i)
  unfolding Alu.exec_div
  Keeps-exec_div = with_one i.rs2 λ b q.
      Keeps-if (b == 0) (Keeps-modify _ (λ vm good. trigger_bsp _ vm good))
        (with_one i.rs1 λ a p. Keeps-set_logic i.rd _ (lt_of_le_of_lt (div-le_self a b) p))

  pub Keeps-exec_mod : Keeps IsAny (Alu.exec_mod i)
  unfolding Alu.exec_mod
  Keeps-exec_mod = with_one i.rs2 λ b q.
      Keeps-if (b == 0) (Keeps-modify _ (λ vm good. trigger_bsp _ vm good))
        (with_one i.rs1 λ a p. Keeps-set_logic i.rd _ (lt_of_le_of_lt (mod-le a b) p))

  pub Keeps-exec_inc : Keeps IsAny (Alu.exec_inc i)
  unfolding Alu.exec_inc
  Keeps-exec_inc = with_one i.rd λ a p. Keeps-flagged i.rd _ _ (omega arith)

  pub Keeps-exec_addi : Keeps IsAny (Alu.exec_addi i)
  unfolding Alu.exec_addi
  Keeps-exec_addi = with_one i.rs1 λ a p. Keeps-flagged i.rd _ _ (omega arith)

  pub Keeps-exec_subi : Keeps IsAny (Alu.exec_subi i)
  unfolding Alu.exec_subi
  Keeps-exec_subi = with_one i.rs1 λ a p. Keeps-flagged i.rd _ _ (omega arith)

  pub Keeps-exec_andi : Keeps IsAny (Alu.exec_andi i)
  unfolding Alu.exec_andi
  Keeps-exec_andi = with_one i.rs1 λ a p. Keeps-set_logic i.rd _ (omega (arith, bit_and-le a i.imm))

  pub Keeps-exec_ori : Keeps IsAny (Alu.exec_ori i)
  unfolding Alu.exec_ori
  Keeps-exec_ori = with_one i.rs1 λ a p. Keeps-set_logic i.rd _ (bit_or-lt 32 a i.imm p word)

  pub Keeps-exec_xori : Keeps IsAny (Alu.exec_xori i)
  unfolding Alu.exec_xori
  Keeps-exec_xori = with_one i.rs1 λ a p. Keeps-set_logic i.rd _ (bit_xor-lt 32 a i.imm p word)

  pub Keeps-exec_shli : Keeps IsAny (Alu.exec_shli i)
  unfolding Alu.exec_shli
  Keeps-exec_shli = with_one i.rs1 λ a p. Keeps-set_logic i.rd _ (omega arith)

  pub Keeps-exec_shri : Keeps IsAny (Alu.exec_shri i)
  unfolding Alu.exec_shri
  Keeps-exec_shri = with_one i.rs1 λ a p. Keeps-set_logic i.rd _ (shifted-lt a (i.imm % 32) p)

  pub Keeps-exec_roli : Keeps IsAny (Alu.exec_roli i)
  unfolding Alu.exec_roli
  Keeps-exec_roli = with_one i.rs1 λ a p. Keeps-set_logic i.rd _ (rotl32-lt a (i.imm % 32) p)

  pub Keeps-exec_rori : Keeps IsAny (Alu.exec_rori i)
  unfolding Alu.exec_rori
  Keeps-exec_rori = with_one i.rs1 λ a p. Keeps-set_logic i.rd _ (rotr32-lt a (i.imm % 32) p)
