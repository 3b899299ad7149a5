-- ===== src/Machine/Invariant/Floats.antt =====
-- The float instructions.
use lamp_vm.Common.Tests.{ℕ, ◌≡◌, refl, Option, some, none, arith}
use lamp_vm.Common.Word.{add32}
use lamp_vm.Machine.State.{undefined}
use lamp_vm.Machine.Decode.{Inst}
use lamp_vm.Machine.Exec.Base.{set_logic}
use lamp_vm.Machine.Exec.Float
use lamp_vm.Machine.Exec.Float.{F32}
use lamp_vm.Machine.Invariant.Base.{
  Keeps, IsAny, IsWord, Keeps->>=, Keeps-if, Keeps-set_logic, Keeps-set_flags,
}
use lamp_vm.Machine.Invariant.Store.{Keeps-vm_read32, Keeps-vm_write32}
use lamp_vm.Machine.Invariant.Instructions.{with_one, with_two, Keeps-flagged}

-- What the float unit returns is a word.
pub record ReturnsWords (f : F32) : Type 0 where
  pub add_word : (a b : ℕ) → IsWord (f.add a b)
  pub sub_word : (a b : ℕ) → IsWord (f.sub a b)
  pub mul_word : (a b : ℕ) → IsWord (f.mul a b)
  pub div_word : (a b : ℕ) → IsWord (f.div a b)
  pub neg_word : (a : ℕ) → IsWord (f.neg a)
  pub fabs_word : (a : ℕ) → IsWord (f.fabs a)
  pub sqrt_word : (a : ℕ) → IsWord (f.sqrt a)
  pub of_int_word : (a : ℕ) → IsWord (f.of_int a)
  pub to_int_word : (a v : ℕ) → f.to_int a ≡ some v → IsWord v

module _ (f : F32) (words : ReturnsWords f) (i : Inst) where
  pub Keeps-exec_fadd : Keeps IsAny (Float.exec_fadd f i)
  unfolding Float.exec_fadd
  Keeps-exec_fadd = with_two i.rs1 i.rs2 λ a b p q. Keeps-flagged i.rd _ _ (words.add_word a b)

  pub Keeps-exec_fsub : Keeps IsAny (Float.exec_fsub f i)
  unfolding Float.exec_fsub
  Keeps-exec_fsub = with_two i.rs1 i.rs2 λ a b p q. Keeps-flagged i.rd _ _ (words.sub_word a b)

  pub Keeps-exec_fmul : Keeps IsAny (Float.exec_fmul f i)
  unfolding Float.exec_fmul
  Keeps-exec_fmul = with_two i.rs1 i.rs2 λ a b p q. Keeps-flagged i.rd _ _ (words.mul_word a b)

  pub Keeps-exec_fdiv : Keeps IsAny (Float.exec_fdiv f i)
  unfolding Float.exec_fdiv
  Keeps-exec_fdiv = with_two i.rs1 i.rs2 λ a b p q. Keeps-flagged i.rd _ _ (words.div_word a b)

  pub Keeps-exec_fneg : Keeps IsAny (Float.exec_fneg f i)
  unfolding Float.exec_fneg
  Keeps-exec_fneg = with_one i.rs1 λ a p. Keeps-flagged i.rd _ _ (words.neg_word a)

  pub Keeps-exec_fabs : Keeps IsAny (Float.exec_fabs f i)
  unfolding Float.exec_fabs
  Keeps-exec_fabs = with_one i.rs1 λ a p. Keeps-flagged i.rd _ _ (words.fabs_word a)

  pub Keeps-exec_fsqrt : Keeps IsAny (Float.exec_fsqrt f i)
  unfolding Float.exec_fsqrt
  Keeps-exec_fsqrt = with_one i.rs1 λ a p. Keeps-flagged i.rd _ _ (words.sqrt_word a)

  pub Keeps-exec_itof : Keeps IsAny (Float.exec_itof f i)
  unfolding Float.exec_itof
  Keeps-exec_itof = with_one i.rs1 λ a p. Keeps-flagged i.rd _ _ (words.of_int_word a)

  pub Keeps-exec_fload32 : Keeps IsAny (Float.exec_fload32 f i)
  unfolding Float.exec_fload32
  Keeps-exec_fload32 =
      with_one i.rs1 λ base p.
        Keeps->>= (Keeps-vm_read32 (add32 base i.imm)) λ bits q. Keeps-flagged i.rd bits _ q

  pub Keeps-exec_fstore32 : Keeps IsAny (Float.exec_fstore32 f i)
  unfolding Float.exec_fstore32
  Keeps-exec_fstore32 = with_two i.rs1 i.rd λ base v p q. Keeps-vm_write32 (add32 base i.imm) v q

  pub Keeps-exec_fcmp : Keeps IsAny (Float.exec_fcmp f i)
  unfolding Float.exec_fcmp
  Keeps-exec_fcmp = with_two i.rd i.rs1 λ a b p q. Keeps-set_flags _

  converted :
      (o : Option ℕ)
      → ((v : ℕ) → o ≡ some v → IsWord v)
      → Keeps IsAny (elim o [ none ↦ (λ vm. undefined) | some v ↦ set_logic i.rd v ])
  converted none h = record { at = λ vm good. tt }
  converted (some v) h = Keeps-set_logic i.rd v (h v refl)

  pub Keeps-exec_ftoi : Keeps IsAny (Float.exec_ftoi f i)
  unfolding Float.exec_ftoi
  Keeps-exec_ftoi = with_one i.rs1 λ a p.
      Keeps-if (Float.out_of_int_range f a) (Keeps-flagged i.rd 0 _ (omega arith))
        (converted (f.to_int a) (words.to_int_word a))
