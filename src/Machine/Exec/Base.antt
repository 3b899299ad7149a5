-- ===== src/Machine/Exec/Base.antt =====
-- Access to the registers. `regs` has 32 entries and an instruction's register fields have eight
-- bits: vm.c indexes without a check, and past the end C leaves the access undefined.
use lamp_vm.Common.Tests.{ℕ, ◌<◌, ◌≤◌, ◌≡◌, ltb, if◌then◌else◌, lt→ltb, le→ltb_false}
use lamp_vm.Common.Arrays.{update}
use lamp_vm.Machine.State.{Vm, M, ok, undefined, ◌>>◌, set_cpu, reg_count}
use lamp_vm.Machine.Flags.{update_logic_flags, set_flags}

unfoldable pub reg : ℕ → M ℕ
reg r vm = if ltb r reg_count then ok (vm.cpu.regs r, vm) else undefined

unfoldable pub set_reg : ℕ → ℕ → M (Unit {0})
set_reg r v vm =
    if ltb r reg_count
    then ok (tt, record vm { cpu = record vm.cpu { regs = update vm.cpu.regs r v } })
    else undefined

-- `cpu->regs[rd] = v; update_logic_flags(vm, cpu->regs[rd]);`
unfoldable pub set_logic : ℕ → ℕ → M (Unit {0})
unfolding set_reg
set_logic r v = do set_reg r v; set_cpu (set_flags (update_logic_flags v))

abbrev pub with_reg : ℕ → ℕ → Vm → Vm
with_reg r v vm = record vm { cpu = record vm.cpu { regs = update vm.cpu.regs r v } }

-- An access to one of the 32 registers is defined.
pub reg_in_range : (r : ℕ) (vm : Vm) → r < reg_count → reg r vm ≡ ok (vm.cpu.regs r, vm)
unfolding reg
reg_in_range r vm h = rw (lt→ltb _ _ h)

pub set_reg_in_range :
    (r v : ℕ) (vm : Vm) → r < reg_count → set_reg r v vm ≡ ok (tt, with_reg r v vm)
unfolding set_reg
set_reg_in_range r v vm h = rw (lt→ltb _ _ h)

-- An access past them is not.
pub reg_past_end : (r : ℕ) (vm : Vm) → reg_count ≤ r → reg r vm ≡ undefined
unfolding reg
reg_past_end r vm h = rw (le→ltb_false _ _ h)
