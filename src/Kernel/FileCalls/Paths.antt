-- ===== src/Kernel/FileCalls/Paths.antt =====
-- Paths in user memory, and what is opened by name.
use lamp_vm.Common.Tests.{ℕ, ◌+◌, ◌≤◌, ◌≡◌, ◌≢◌, List, [], ◌∷◌, ◌==◌, if◌then◌else◌}
use lamp_vm.Kernel.Clock.{Kernel}
use lamp_vm.Kernel.FileCalls.{dev_null_path, dev_zero_path, dev_tty_path}

-- The characters at `a` and the 0 after them.
abbrev pub IsStringAt : List ℕ → ℕ → (ℕ → ℕ) → Type 0
IsStringAt [] a mem = mem a ≡ 0
IsStringAt (c ∷ cs) a mem = (mem a ≡ c) × (c ≢ 0) × IsStringAt cs (a + 1) mem

-- The names of the devices by number.
abbrev pub device_path : ℕ → List ℕ
device_path n = if n == 1 then dev_null_path else if n == 2 then dev_zero_path else dev_tty_path

abbrev pub IsDevice : ℕ → Type 0
IsDevice n = (1 ≤ n) × (n ≤ 3)
