-- ===== src/Kernel/Tests.antt =====
-- Division at concrete operands; the children hold concrete tables of descriptors, tasks and terminals.
mod Files
pub mod Tasks
pub mod Terminal
mod Clock
mod Traps
mod Paths
use lamp_vm.Common.Tests.{ℕ, ◌<◌, ◌≡◌, ◌⊎◌, arith}
use lamp_vm.Kernel.Divmod.{udivmoddi4}
use lamp_vm.Kernel.Divmod.Long.{udivmoddi4-div-mod}

abbrev seven : ℕ
seven = 7

udivmoddi4-div-mod_example :
    ((seven ≡ 0) × (udivmoddi4 1000000 seven ≡ (0, 0)))
    ⊎ ((0 < seven) × (udivmoddi4 1000000 seven ≡ (142857, 1)))
udivmoddi4-div-mod_example = udivmoddi4-div-mod 1000000 seven (omega arith)
