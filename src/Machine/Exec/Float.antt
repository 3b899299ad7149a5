-- ===== src/Machine/Exec/Float.antt =====
-- The float instructions. Arithmetic on `float` is the processor's: a parameter, on the bit
-- patterns that `reg_as_f32` and `f32_as_reg` of float.h copy in and out of registers.
use lamp_vm.Common.Tests.{ℕ, ◌-◌, ◌^◌, Bool, ◌||◌, Option, some, none, if◌then◌else◌}
use lamp_vm.Common.Word.{add32, not32}
use lamp_vm.Common.Bits.Step.{bit_or, bit_and}
use lamp_vm.Machine.State.{M, undefined, ◌>>=◌, ◌>>◌, set_cpu, flag_of, flag_zf, flag_sf, flag_cf}
use lamp_vm.Machine.Flags.{update_logic_flags, update_fcmp_flags, set_flags}
use lamp_vm.Machine.Decode.{Inst}
use lamp_vm.Machine.Memory.{vm_read32, vm_write32}
use lamp_vm.Machine.Exec.Base.{reg, set_reg, set_logic}

-- `to_int` is C's conversion to `int32_t`: none where the truncated value does not fit, which C
-- leaves undefined.
pub record F32 : Type 0 where
  pub add : ℕ → ℕ → ℕ
  pub sub : ℕ → ℕ → ℕ
  pub mul : ℕ → ℕ → ℕ
  pub div : ℕ → ℕ → ℕ
  pub neg : ℕ → ℕ
  pub fabs : ℕ → ℕ
  pub sqrt : ℕ → ℕ
  pub of_int : ℕ → ℕ
  pub to_int : ℕ → Option ℕ
  pub is_nan : ℕ → Bool
  pub eq : ℕ → ℕ → Bool
  pub lt : ℕ → ℕ → Bool

-- 0.0f, 2147483647.0f (which rounds to 2 ^ 31) and -2147483648.0f.
abbrev pub zero_f32 : ℕ
zero_f32 = 0

abbrev pub int_max_f32 : ℕ
int_max_f32 = 0x4F000000

abbrev pub int_min_f32 : ℕ
int_min_f32 = 0xCF000000

module _ (f : F32) where
  -- `(r == 0.0f) ? 0 : (r < 0.0f ? -1 : 1)`, as a pattern.
  abbrev pub float_sign : ℕ → ℕ
  float_sign r = if f.eq r zero_f32 then 0 else if f.lt r zero_f32 then 2 ^ 32 - 1 else 1

  abbrev set_float : ℕ → ℕ → M (Unit {0})
  set_float rd r = do set_reg rd r; set_cpu (set_flags (update_logic_flags (float_sign r)))

  abbrev binary : (ℕ → ℕ → ℕ) → Inst → M (Unit {0})
  binary op i = do a ← reg i.rs1; b ← reg i.rs2; set_float i.rd (op a b)

  abbrev unary : (ℕ → ℕ) → Inst → M (Unit {0})
  unary op i = do a ← reg i.rs1; set_float i.rd (op a)

  unfoldable pub exec_fadd : Inst → M (Unit {0})
  exec_fadd i = binary f.add i

  unfoldable pub exec_fsub : Inst → M (Unit {0})
  exec_fsub i = binary f.sub i

  unfoldable pub exec_fmul : Inst → M (Unit {0})
  exec_fmul i = binary f.mul i

  unfoldable pub exec_fdiv : Inst → M (Unit {0})
  exec_fdiv i = binary f.div i

  unfoldable pub exec_fneg : Inst → M (Unit {0})
  exec_fneg i = unary f.neg i

  unfoldable pub exec_fabs : Inst → M (Unit {0})
  exec_fabs i = do
    a ← reg i.rs1
    set_reg i.rd (f.fabs a)
    set_cpu (set_flags (update_logic_flags (if f.eq (f.fabs a) zero_f32 then 0 else 1)))

  unfoldable pub exec_fsqrt : Inst → M (Unit {0})
  exec_fsqrt i = unary f.sqrt i

  unfoldable pub exec_itof : Inst → M (Unit {0})
  exec_itof i = unary f.of_int i

  abbrev pub out_of_int_range : ℕ → Bool
  out_of_int_range a = f.is_nan a || f.lt int_max_f32 a || f.lt a int_min_f32

  abbrev pub ftoi_flags : ℕ → ℕ
  ftoi_flags flags =
      bit_and (bit_or flags flag_of) (not32 (bit_or (bit_or flag_zf flag_sf) flag_cf))

  unfoldable pub exec_ftoi : Inst → M (Unit {0})
  exec_ftoi i = do
    a ← reg i.rs1
    if out_of_int_range a
        then (set_reg i.rd 0 >> set_cpu (set_flags ftoi_flags))
        else elim (f.to_int a) [ none ↦ (λ vm. undefined) | some v ↦ set_logic i.rd v ]

  unfoldable pub exec_fload32 : Inst → M (Unit {0})
  exec_fload32 i = do base ← reg i.rs1; bits ← vm_read32 (add32 base i.imm); set_float i.rd bits

  unfoldable pub exec_fstore32 : Inst → M (Unit {0})
  exec_fstore32 i = do base ← reg i.rs1; v ← reg i.rd; vm_write32 (add32 base i.imm) v

  unfoldable pub exec_fcmp : Inst → M (Unit {0})
  exec_fcmp i = do
    a ← reg i.rd
    b ← reg i.rs1
    set_cpu
        (set_flags (update_fcmp_flags (f.is_nan a || f.is_nan b) (f.eq a b) (f.lt a b) (f.lt b a)))
