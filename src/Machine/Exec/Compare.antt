-- ===== src/Machine/Exec/Compare.antt =====
-- CMP followed by a conditional jump, against the order of the operands.
use lamp_vm.Common.Tests.{
  ℕ, ◌+◌, ◌^◌, ◌<◌, ◌≡◌, ap, ◌∙◌, Option, some, none, Bool, false, not, ◌&&◌, ◌||◌, ltb, leb, ◌==◌,
  if◌then◌else◌, arith,
}
use lamp_vm.Common.Word.{sub32, is_neg, biased}
use lamp_vm.Machine.State.{
  Vm, M, Outcome, ok, exit, undefined, ◌>>◌, bind-ok, reg_count, flag_zf, flag_cf,
}
use lamp_vm.Machine.Flags.{update_sub_flags, sub_overflows, has_flag}
use lamp_vm.Machine.Flags.Bits.{
  Shows, update_sub_flags-Shows, has_flag-zf, has_flag-cf, masked_sf, masked_of,
}
use lamp_vm.Machine.Decode.{Inst}
use lamp_vm.Machine.Exec.Alu.{exec_cmp}
use lamp_vm.Machine.Exec.Branch.{
  sf_equals_of, exec_jz, exec_jnz, exec_jg, exec_jge, exec_jl, exec_jle, exec_jc, exec_jnc,
}
use lamp_vm.Machine.Exec.Base.{reg, reg_in_range}

-- The difference `a - b` of the signed values is 2 ^ 31 or more.
abbrev pub difference_too_large : ℕ → ℕ → Bool
difference_too_large a b = leb (biased b + 2 ^ 31) (biased a)

abbrev pub signed_lt : ℕ → ℕ → Bool
signed_lt a b = ltb (biased a) (biased b)

abbrev cmp_flags : ℕ → ℕ → ℕ → ℕ
cmp_flags a b f = update_sub_flags a b (sub32 a b) f

module _ (a b f : ℕ) (ha : a < 2 ^ 32) (hb : b < 2 ^ 32) where
  sf_equals_of-Shows :
      (zf sf cf of : Bool) (g : ℕ) → Shows zf sf cf of g → sf_equals_of g ≡ not (sf || of)
  unfolding sf_equals_of
  sf_equals_of-Shows zf sf cf of g s =
      ground (arith, masked_sf zf sf cf of g s, masked_of zf sf cf of g s)

  sign_or_overflow :
      (is_neg (sub32 a b) || sub_overflows a b (sub32 a b))
      ≡ (signed_lt a b || difference_too_large a b)
  sign_or_overflow = ground arith

  pub sf_equals_of-cmp :
      sf_equals_of (cmp_flags a b f) ≡ not (signed_lt a b || difference_too_large a b)
  sf_equals_of-cmp =
      sf_equals_of-Shows _ _ _ _ (cmp_flags a b f) (update_sub_flags-Shows a b (sub32 a b) f)
      ∙ ap not sign_or_overflow

  pub zf-cmp : has_flag flag_zf (cmp_flags a b f) ≡ (a == b)
  zf-cmp =
      has_flag-zf _ _ _ _ (cmp_flags a b f) (update_sub_flags-Shows a b (sub32 a b) f)
      ∙ ground arith

  pub cf-cmp : has_flag flag_cf (cmp_flags a b f) ≡ ltb a b
  cf-cmp = has_flag-cf _ _ _ _ (cmp_flags a b f) (update_sub_flags-Shows a b (sub32 a b) f)

-- Where execution goes on.
abbrev pub ip_of : Outcome ((Unit {0}) × Vm) → Option ℕ
ip_of (ok (u, vm)) = some vm.cpu.ip
ip_of (exit p) = none
ip_of undefined = none

module _ (c : Inst) (vm : Vm) (hd : c.rd < reg_count) (hs : c.rs1 < reg_count) where
  abbrev left : ℕ
  left = vm.cpu.regs c.rd

  abbrev right : ℕ
  right = vm.cpu.regs c.rs1

  abbrev compared : Vm
  compared = record vm { cpu = record vm.cpu { flags = cmp_flags left right vm.cpu.flags } }

  exec_cmp-eq : (exec_cmp c) vm ≡ ok (tt, compared)
  unfolding exec_cmp
  exec_cmp-eq =
      bind-ok (reg c.rd) _ (reg_in_range c.rd vm hd)
      ∙ bind-ok (reg c.rs1) _ (reg_in_range c.rs1 vm hs)

  then_jump : (k : M (Unit {0})) → ip_of ((exec_cmp c >> k) vm) ≡ ip_of (k compared)
  then_jump k = ap ip_of (bind-ok (exec_cmp c) _ exec_cmp-eq)

-- The operands of `c` hold words.
abbrev pub HasOperands : Inst → Vm → Type 0
HasOperands c vm =
    (c.rd < reg_count)
    × (c.rs1 < reg_count)
    × (vm.cpu.regs c.rd < 2 ^ 32)
    × (vm.cpu.regs c.rs1 < 2 ^ 32)

module _ (c j : Inst) (vm : Vm) (h : HasOperands c vm) where
  abbrev a : ℕ
  a = vm.cpu.regs c.rd

  abbrev b : ℕ
  b = vm.cpu.regs c.rs1

  abbrev goes : Bool → Option ℕ
  goes t = some (if t then j.imm else vm.cpu.ip)

  jl_after_cmp :
      ip_of ((exec_cmp c >> exec_jl j) vm) ≡ goes (signed_lt a b || difference_too_large a b)
  unfolding exec_jl
  jl_after_cmp =
      then_jump c vm h.0 h.1 (exec_jl j) ∙ ground (arith, sf_equals_of-cmp a b vm.cpu.flags h.2 h.3)

  jge_after_cmp :
      ip_of ((exec_cmp c >> exec_jge j) vm) ≡ goes (not (signed_lt a b || difference_too_large a b))
  unfolding exec_jge
  jge_after_cmp =
      then_jump c vm h.0 h.1 (exec_jge j)
      ∙ ground (arith, sf_equals_of-cmp a b vm.cpu.flags h.2 h.3)

  jg_after_cmp :
      ip_of ((exec_cmp c >> exec_jg j) vm)
      ≡ goes (not (a == b) && not (signed_lt a b || difference_too_large a b))
  unfolding exec_jg
  jg_after_cmp =
      then_jump c vm h.0 h.1 (exec_jg j)
      ∙ ground (arith, sf_equals_of-cmp a b vm.cpu.flags h.2 h.3, zf-cmp a b vm.cpu.flags h.2 h.3)

  jle_after_cmp :
      ip_of ((exec_cmp c >> exec_jle j) vm)
      ≡ goes ((a == b) || (signed_lt a b || difference_too_large a b))
  unfolding exec_jle
  jle_after_cmp =
      then_jump c vm h.0 h.1 (exec_jle j)
      ∙ ground (arith, sf_equals_of-cmp a b vm.cpu.flags h.2 h.3, zf-cmp a b vm.cpu.flags h.2 h.3)

  -- After CMP of two words, JL is taken exactly when the first is below the second in the signed
  -- order, or their difference is 2 ^ 31 or more, too large for 32 bits; JGE is taken in the other
  -- cases; JLE as JL or when the words are equal; JG in the other cases. So where the difference is
  -- too large JL and JLE are taken though the first operand is the larger one.
  pub signed_jumps :
      (ip_of ((exec_cmp c >> exec_jl j) vm) ≡ goes (signed_lt a b || difference_too_large a b))
      × (ip_of ((exec_cmp c >> exec_jge j) vm)
          ≡ goes (not (signed_lt a b || difference_too_large a b)))
      × (ip_of ((exec_cmp c >> exec_jle j) vm)
          ≡ goes ((a == b) || (signed_lt a b || difference_too_large a b)))
      × (ip_of ((exec_cmp c >> exec_jg j) vm)
          ≡ goes (not (a == b) && not (signed_lt a b || difference_too_large a b)))
  signed_jumps = (jl_after_cmp, jge_after_cmp, jle_after_cmp, jg_after_cmp)

  -- After CMP of two words whose signed difference fits in 32 bits, JL, JGE, JLE and JG are taken
  -- exactly when the first operand is less, not less, not greater and greater than the second.
  signed_jumps_in_range :
      difference_too_large a b ≡ false
      → (ip_of ((exec_cmp c >> exec_jl j) vm) ≡ goes (signed_lt a b))
        × (ip_of ((exec_cmp c >> exec_jge j) vm) ≡ goes (not (signed_lt a b)))
        × (ip_of ((exec_cmp c >> exec_jle j) vm) ≡ goes (not (signed_lt b a)))
        × (ip_of ((exec_cmp c >> exec_jg j) vm) ≡ goes (signed_lt b a))
  signed_jumps_in_range fits = (
    jl_after_cmp ∙ ground arith,
    jge_after_cmp ∙ ground arith,
    jle_after_cmp ∙ ap goes (ground arith),
    jg_after_cmp ∙ ap goes (ground arith),
  )

  -- After CMP of two words, JZ and JNZ test equality, JC and JNC the unsigned order.
  pub unsigned_jumps :
      (ip_of ((exec_cmp c >> exec_jz j) vm) ≡ goes (a == b))
      × (ip_of ((exec_cmp c >> exec_jnz j) vm) ≡ goes (not (a == b)))
      × (ip_of ((exec_cmp c >> exec_jc j) vm) ≡ goes (ltb a b))
      × (ip_of ((exec_cmp c >> exec_jnc j) vm) ≡ goes (not (ltb a b)))
  unfolding exec_jz exec_jnz exec_jc exec_jnc
  unsigned_jumps =
      let z = zf-cmp a b vm.cpu.flags h.2 h.3 in
      let k = cf-cmp a b vm.cpu.flags h.2 h.3 in
      (
        then_jump c vm h.0 h.1 (exec_jz j) ∙ ground (arith, z),
        then_jump c vm h.0 h.1 (exec_jnz j) ∙ ground (arith, z),
        then_jump c vm h.0 h.1 (exec_jc j) ∙ ground (arith, k),
        then_jump c vm h.0 h.1 (exec_jnc j) ∙ ground (arith, k),
      )
