-- ===== src/Machine/Exec/Atomic.antt =====
-- The atomic instructions. `ensure_atomic_aligned_or_panic` comes first in each.
use lamp_vm.Common.Tests.{ℕ, ◌%◌, ◌==◌, if◌then◌else◌}
use lamp_vm.Common.Word.{add32}
use lamp_vm.Machine.State.{
  M, ◌>>=◌, ◌>>◌, set_cpu, pure, panic, AtomicOp, cas, xadd, xchg, ldar, stlr, atomic_unaligned,
}
use lamp_vm.Machine.Flags.{update_add_flags, set_cas_flags, set_flags}
use lamp_vm.Machine.Decode.{Inst}
use lamp_vm.Machine.Memory.{
  vm_atomic_load32_acquire, vm_atomic_store32_release, vm_atomic_exchange32_seqcst,
  vm_atomic_fetch_add32_seqcst, vm_atomic_compare_exchange32_seqcst,
}
use lamp_vm.Machine.Exec.Base.{reg, set_reg, set_logic}

unfoldable pub ensure_aligned : AtomicOp → ℕ → M (Unit {0})
ensure_aligned op addr = if addr % 4 == 0 then pure tt else panic (atomic_unaligned op addr)

abbrev address : AtomicOp → Inst → M ℕ
address op i = do base ← reg i.rs1; ensure_aligned op (add32 base i.imm); pure (add32 base i.imm)

unfoldable pub exec_cas : Inst → M (Unit {0})
unfolding ensure_aligned
exec_cas i = do
  addr ← address cas i
  expected ← reg i.rd
  desired ← reg i.rs2
  (old, success) ← vm_atomic_compare_exchange32_seqcst addr expected desired
  set_cpu (set_flags (set_cas_flags success))
  set_reg i.rd old

unfoldable pub exec_xadd : Inst → M (Unit {0})
unfolding ensure_aligned
exec_xadd i = do
  addr ← address xadd i
  addend ← reg i.rs2
  old ← vm_atomic_fetch_add32_seqcst addr addend
  set_reg i.rd old
  set_cpu (set_flags (update_add_flags old addend (add32 old addend)))

unfoldable pub exec_xchg : Inst → M (Unit {0})
unfolding ensure_aligned
exec_xchg i = do
  addr ← address xchg i
  newv ← reg i.rs2
  old ← vm_atomic_exchange32_seqcst addr newv
  set_logic i.rd old

unfoldable pub exec_ldar : Inst → M (Unit {0})
unfolding ensure_aligned
exec_ldar i = do addr ← address ldar i; v ← vm_atomic_load32_acquire addr; set_logic i.rd v

unfoldable pub exec_stlr : Inst → M (Unit {0})
unfolding ensure_aligned
exec_stlr i = do addr ← address stlr i; v ← reg i.rd; vm_atomic_store32_release addr v
