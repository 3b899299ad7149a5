-- ===== src/Kernel/Clock/User.antt =====
-- kernel/src/syscall.c: reads and writes at addresses that a caller gives.
use lamp_vm.Common.Tests.{
  ℕ, ◌+◌, ◌-◌, Bool, true, false, ◌||◌, not, Option, none, some, leb, ◌==◌, if◌then◌else◌,
}
use lamp_vm.Machine.Memory.{load32, store32}
use lamp_vm.Kernel.Clock.{Timespec, Timeval, mem_size}

unfoldable pub ptr_range_ok : ℕ → ℕ → Bool
ptr_range_ok addr len =
    if addr == 0 || len == 0
    then false
    else if leb mem_size addr
    then false
    else leb len (mem_size - addr)

-- Whether it was written, and the memory.
abbrev pub user_write32 : ℕ → ℕ → (ℕ → ℕ) → Bool × (ℕ → ℕ)
user_write32 addr v mem =
    if not (ptr_range_ok addr 4) then (false, mem) else (true, store32 mem addr v)

abbrev pub store_pair : (ℕ → ℕ) → ℕ → ℕ → ℕ → ℕ → ℕ
store_pair mem addr x y = store32 (store32 mem addr x) (addr + 4) y

abbrev pub user_read_timespec : ℕ → (ℕ → ℕ) → Option Timespec
user_read_timespec addr mem =
    if not (ptr_range_ok addr 8)
    then none
    else some (record { tv_sec = load32 mem addr; tv_nsec = load32 mem (addr + 4) })

abbrev pub user_write_timespec : ℕ → Timespec → (ℕ → ℕ) → Bool × (ℕ → ℕ)
user_write_timespec addr ts mem =
    if not (ptr_range_ok addr 8)
    then (false, mem)
    else (true, store_pair mem addr ts.tv_sec ts.tv_nsec)

abbrev pub user_write_timespec_zero : ℕ → (ℕ → ℕ) → Bool × (ℕ → ℕ)
user_write_timespec_zero addr mem =
    if addr == 0
    then (true, mem)
    else if not (ptr_range_ok addr 8)
    then (false, mem)
    else (true, store_pair mem addr 0 0)

abbrev pub user_write_timeval : ℕ → Timeval → (ℕ → ℕ) → Bool × (ℕ → ℕ)
user_write_timeval addr tv mem =
    if not (ptr_range_ok addr 8)
    then (false, mem)
    else (true, store_pair mem addr tv.tv_sec tv.tv_usec)
