-- ===== src/Kernel/Clock/Times.antt =====
-- kernel/src/syscall.c: conversions of time, and the clocks.
use lamp_vm.Common.Tests.{
  ℕ, ◌+◌, ◌-◌, ◌*◌, ◌/◌, ◌%◌, Bool, false, ◌||◌, not, Option, none, some, ltb, leb, ◌==◌,
  if◌then◌else◌,
}
use lamp_vm.Common.Word.{u32, u64, add32, mul32, is_neg, is_pos, ◌<<<◌}
use lamp_vm.Common.Bits.Step.{bit_or}
use lamp_vm.Kernel.Clock.{
  Timespec, Timeval, Offset, ns_per_sec, ns_per_us, max_u32, max_u64, max_sec, realtime_lo,
  monotonic_lo, boot_lo, clock_realtime, clock_monotonic, clock_boottime,
}

abbrev pub div_ceil_u32 : ℕ → ℕ → ℕ
div_ceil_u32 numer denom =
    if denom == 0 then max_u32 else add32 (numer / denom) (if numer % denom == 0 then 0 else 1)

abbrev pub mmio_read_time_ns : (ℕ → ℕ) → ℕ → ℕ
mmio_read_time_ns mmio low = bit_or (mmio (low + 4) <<< 32) (mmio low)

abbrev pub clockid_is_supported : ℕ → Bool
clockid_is_supported id =
    id == clock_realtime || id == clock_monotonic || id == 2 || id == clock_boottime

abbrev pub apply_realtime_offset : Offset → ℕ → ℕ
apply_realtime_offset o raw =
    if not o.neg
    then (if ltb (max_u64 - o.mag_ns) raw then max_u64 else raw + o.mag_ns)
    else if leb raw o.mag_ns
    then 0
    else raw - o.mag_ns

abbrev pub clockid_read_time_ns : ℕ → (ℕ → ℕ) → Offset → Option ℕ
clockid_read_time_ns id mmio o =
    if id == clock_realtime
    then some (apply_realtime_offset o (mmio_read_time_ns mmio realtime_lo))
    else if id == clock_monotonic
    then some (mmio_read_time_ns mmio monotonic_lo)
    else if id == 2 || id == clock_boottime
    then some (mmio_read_time_ns mmio boot_lo)
    else none

abbrev pub time_ns_to_timespec : ℕ → Option Timespec
time_ns_to_timespec ns =
    if ltb max_sec (ns / ns_per_sec)
    then none
    else some (record { tv_sec = u32 (ns / ns_per_sec); tv_nsec = u32 (ns % ns_per_sec) })

abbrev pub time_ns_to_timeval : ℕ → Option Timeval
time_ns_to_timeval ns =
    if ltb max_sec (ns / ns_per_sec)
    then none
    else some
        (record { tv_sec = u32 (ns / ns_per_sec); tv_usec = u32 (ns % ns_per_sec / ns_per_us) })

-- A field that is negative, or a second or more of nanoseconds.
abbrev pub is_bad_timespec : Timespec → Bool
is_bad_timespec ts = is_neg ts.tv_sec || is_neg ts.tv_nsec || leb ns_per_sec ts.tv_nsec

abbrev pub timespec_to_ns : Timespec → Option ℕ
timespec_to_ns ts =
    if is_bad_timespec ts then none else some (u64 (u64 (ts.tv_sec * ns_per_sec) + ts.tv_nsec))

-- With the period of a tick that `sched_tick_period_us` gives.
abbrev pub timeout_ms_to_ticks : ℕ → ℕ → ℕ
timeout_ms_to_ticks tick_us timeout_ms =
    if not (is_pos timeout_ms)
    then 0
    else if tick_us == 0
    then 1
    else div_ceil_u32
        (if ltb (max_u32 / ns_per_us) timeout_ms then max_u32 else mul32 timeout_ms ns_per_us)
        tick_us

-- `syscall_init`'s clock.
abbrev pub no_offset : Offset
no_offset = record { neg = false; mag_ns = 0 }
