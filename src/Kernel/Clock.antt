-- ===== src/Kernel/Clock.antt =====
-- kernel/src/syscall.c: user addresses, time conversions, and the calls on clocks and sleep. Memory is RAM, a
-- function of the address; the time registers are a function of theirs, read low word first.
pub mod Words
pub mod Setting
pub mod Naps
pub mod User
pub mod Times
pub mod Calls
use lamp_vm.Common.Tests.{
  ℕ, ◌+◌, ◌-◌, ◌*◌, ◌/◌, ◌%◌, ◌^◌, Bool, true, false, ◌&&◌, ◌||◌, not, Option, none, some, ltb, leb,
  ◌==◌, if◌then◌else◌,
}
use lamp_vm.Common.Word.{u32, u64, add32, mul32, is_neg, is_pos, ◌<<<◌}
use lamp_vm.Common.Bits.Step.{bit_or}
use lamp_vm.Machine.Memory.{load32, store32}
use lamp_vm.Kernel.Sched.{Sched, tick_period_us}
use lamp_vm.Kernel.Sched.Ticks.{sleep_ticks}

-- ERRNO_*, those of the calls that are modelled.
pub data Errno : Type 0 where
  eintr efault einval eoverflow enoent ebadf emfile enotconn enotsock eopnotsupp eafnosupport :
      Errno

-- `ret` with `err` ERRNO_OK, or -1 with an error.
pub data Reply : Type 0 where
  returned : ℕ → Reply
  failed : Errno → Reply

pub record Timespec : Type 0 where
  pub tv_sec : ℕ
  pub tv_nsec : ℕ

pub record Timeval : Type 0 where
  pub tv_sec : ℕ
  pub tv_usec : ℕ

pub record Offset : Type 0 where
  pub neg : Bool
  pub mag_ns : ℕ

pub record Kernel : Type 0 where
  pub memory : ℕ → ℕ
  pub realtime_offset : Offset
  pub sched : Sched

abbrev pub mem_size : ℕ
mem_size = 0x04000000

abbrev pub ns_per_sec : ℕ
ns_per_sec = 1000000000

abbrev pub us_per_sec : ℕ
us_per_sec = 1000000

abbrev pub ns_per_us : ℕ
ns_per_us = 1000

abbrev pub max_u32 : ℕ
max_u32 = 0xFFFFFFFF

abbrev pub max_u64 : ℕ
max_u64 = 2 ^ 64 - 1

abbrev pub max_sec : ℕ
max_sec = 0x7FFFFFFF

abbrev pub clock_resolution_ns : ℕ
clock_resolution_ns = 1

-- TIME_MMIO_*, the low words; a high word is 4 further.
abbrev pub realtime_lo : ℕ
realtime_lo = 0x2004

abbrev pub monotonic_lo : ℕ
monotonic_lo = 0x200C

abbrev pub boot_lo : ℕ
boot_lo = 0x2014

-- SYS_CLOCK_*
abbrev pub clock_realtime : ℕ
clock_realtime = 0

abbrev pub clock_monotonic : ℕ
clock_monotonic = 1

abbrev pub clock_boottime : ℕ
clock_boottime = 7
