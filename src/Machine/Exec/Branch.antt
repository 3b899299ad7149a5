-- ===== src/Machine/Exec/Branch.antt =====
-- Jumps, calls and returns.
use lamp_vm.Common.Tests.{ℕ, Bool, not, ◌&&◌, ◌||◌, ◌==◌, if◌then◌else◌}
use lamp_vm.Common.Word.{u32, add32}
use lamp_vm.Common.Bits.Step.{bit_and}
use lamp_vm.Machine.State.{Vcpu, M, ◌>>=◌, ◌>>◌, gets, set_cpu, flag_zf, flag_sf, flag_of, flag_cf}
use lamp_vm.Machine.Flags.{has_flag}
use lamp_vm.Machine.Decode.{Inst}
use lamp_vm.Machine.Stack.{call_push, call_pop}
use lamp_vm.Machine.Exec.Base.{reg}

-- The sum in `int64_t`, cut to 32 bits, is the sum of the patterns.
unfoldable pub rel_target_from_last_ip : Vcpu → ℕ → ℕ
rel_target_from_last_ip c imm = add32 (u32 c.last_ip) imm

abbrev set_ip : ℕ → M (Unit {0})
set_ip target = set_cpu (λ c. record c { ip = target })

abbrev jump_relative : ℕ → M (Unit {0})
jump_relative imm = set_cpu (λ c. record c { ip = rel_target_from_last_ip c imm })

abbrev jump_if : (ℕ → Bool) → ℕ → M (Unit {0})
jump_if test target = set_cpu (λ c. if test c.flags then record c { ip = target } else c)

unfoldable pub exec_jmp : Inst → M (Unit {0})
exec_jmp i = set_ip i.imm

unfoldable pub exec_rjmp : Inst → M (Unit {0})
unfolding rel_target_from_last_ip
exec_rjmp i = jump_relative i.imm

abbrev push_return : M (Unit {0})
push_return = gets (λ vm. u32 vm.cpu.ip) >>= call_push

unfoldable pub exec_call : Inst → M (Unit {0})
exec_call i = do push_return; set_ip i.imm

unfoldable pub exec_rcall : Inst → M (Unit {0})
unfolding rel_target_from_last_ip
exec_rcall i = do push_return; jump_relative i.imm

unfoldable pub exec_callr : Inst → M (Unit {0})
exec_callr i = do push_return; target ← reg i.rd; set_ip target

unfoldable pub exec_ret : Inst → M (Unit {0})
exec_ret i = do target ← call_pop; set_ip (u32 target)

unfoldable pub exec_jz : Inst → M (Unit {0})
exec_jz i = jump_if (has_flag flag_zf) i.imm

unfoldable pub exec_rjz : Inst → M (Unit {0})
unfolding rel_target_from_last_ip
exec_rjz i =
    set_cpu
      λ c. if has_flag flag_zf c.flags then record c { ip = rel_target_from_last_ip c i.imm } else c

unfoldable pub exec_jnz : Inst → M (Unit {0})
exec_jnz i = jump_if (λ f. not (has_flag flag_zf f)) i.imm

unfoldable pub exec_rjnz : Inst → M (Unit {0})
unfolding rel_target_from_last_ip
exec_rjnz i =
    set_cpu
      λ c. if has_flag flag_zf c.flags then c else record c { ip = rel_target_from_last_ip c i.imm }

-- `(flags & FLAG_SF) == (flags & FLAG_OF)`: the two masked words are compared, as they stand.
unfoldable pub sf_equals_of : ℕ → Bool
sf_equals_of flags = bit_and flags flag_sf == bit_and flags flag_of

unfoldable pub exec_jg : Inst → M (Unit {0})
unfolding sf_equals_of
exec_jg i = jump_if (λ f. not (has_flag flag_zf f) && sf_equals_of f) i.imm

unfoldable pub exec_jge : Inst → M (Unit {0})
unfolding sf_equals_of
exec_jge i = jump_if sf_equals_of i.imm

unfoldable pub exec_jl : Inst → M (Unit {0})
unfolding sf_equals_of
exec_jl i = jump_if (λ f. not (sf_equals_of f)) i.imm

unfoldable pub exec_jle : Inst → M (Unit {0})
unfolding sf_equals_of
exec_jle i = jump_if (λ f. has_flag flag_zf f || not (sf_equals_of f)) i.imm

unfoldable pub exec_jc : Inst → M (Unit {0})
exec_jc i = jump_if (has_flag flag_cf) i.imm

unfoldable pub exec_jnc : Inst → M (Unit {0})
exec_jnc i = jump_if (λ f. not (has_flag flag_cf f)) i.imm
