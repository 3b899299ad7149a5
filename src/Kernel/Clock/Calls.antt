-- ===== src/Kernel/Clock/Calls.antt =====
-- kernel/src/syscall.c: the calls on clocks and `nanosleep`.
use lamp_vm.Common.Tests.{
  ℕ, ◌-◌, ◌/◌, Bool, true, false, ◌&&◌, not, Option, none, some, ltb, leb, ◌==◌, if◌then◌else◌,
}
use lamp_vm.Common.Word.{add32, mul32}
use lamp_vm.Kernel.Sched.{tick_period_us}
use lamp_vm.Kernel.Sched.Ticks.{sleep_ticks}
use lamp_vm.Kernel.Clock.{
  Reply, Timespec, Offset, Kernel, us_per_sec, ns_per_us, max_u32, clock_resolution_ns, realtime_lo,
  clock_realtime, clock_monotonic, eintr, efault, einval, eoverflow, returned, failed,
}
use lamp_vm.Kernel.Clock.User.{
  user_write32, user_read_timespec, user_write_timespec, user_write_timespec_zero,
  user_write_timeval,
}
use lamp_vm.Kernel.Clock.Times.{
  div_ceil_u32, mmio_read_time_ns, clockid_is_supported, apply_realtime_offset,
  clockid_read_time_ns, time_ns_to_timespec, time_ns_to_timeval, is_bad_timespec, timespec_to_ns,
}

abbrev pub answer : Kernel → Bool × (ℕ → ℕ) → Reply × Kernel
answer k (wrote, mem) = (if wrote then returned 0 else failed efault, record k { memory = mem })

unfoldable pub clock_getres : ℕ → ℕ → Kernel → Reply × Kernel
clock_getres id res_addr k =
    if not (clockid_is_supported id)
    then (failed einval, k)
    else if not (res_addr == 0)
    then answer k (
        user_write_timespec res_addr (record { tv_sec = 0; tv_nsec = clock_resolution_ns })
          k.memory)
    else (returned 0, k)

unfoldable pub clock_gettime : ℕ → ℕ → (ℕ → ℕ) → Kernel → Reply × Kernel
clock_gettime id ts_addr mmio k =
    if ts_addr == 0
    then (failed efault, k)
    else elim (clockid_read_time_ns id mmio k.realtime_offset) [
      | none ↦ (failed einval, k)
      | some ns ↦ elim (time_ns_to_timespec ns) [
        | none ↦ (failed eoverflow, k)
        | some ts ↦ answer k (user_write_timespec ts_addr ts k.memory)
      ]
    ]

-- The offset that makes the raw time the target.
abbrev pub offset_to : ℕ → ℕ → Offset
offset_to target raw =
    if leb raw target
    then record { neg = false; mag_ns = target - raw }
    else record { neg = true; mag_ns = raw - target }

unfoldable pub clock_settime : ℕ → ℕ → (ℕ → ℕ) → Kernel → Reply × Kernel
clock_settime id tp_addr mmio k =
    if id == clock_monotonic
    then (failed einval, k)
    else if not (id == clock_realtime)
    then (failed einval, k)
    else elim (if tp_addr == 0 then none else user_read_timespec tp_addr k.memory) [
      | none ↦ (failed efault, k)
      | some tp ↦ elim (timespec_to_ns tp) [
        | none ↦ (failed einval, k)
        | some target ↦ (
          returned 0,
          record k { realtime_offset = offset_to target (mmio_read_time_ns mmio realtime_lo) },
        )
      ]
    ]

-- The two words of the time zone; the second is not tried when the first is refused.
abbrev write_timezone : ℕ → (ℕ → ℕ) → Bool × (ℕ → ℕ)
write_timezone tz mem =
    let (wrote, mem') = user_write32 tz 0 mem in
    if not wrote then (false, mem') else user_write32 (add32 tz 4) 0 mem'

unfoldable pub gettimeofday : ℕ → ℕ → (ℕ → ℕ) → Kernel → Reply × Kernel
gettimeofday tv_addr tz_addr mmio k =
    if tv_addr == 0
    then (failed efault, k)
    else elim (time_ns_to_timeval
        (apply_realtime_offset k.realtime_offset (mmio_read_time_ns mmio realtime_lo))) [
          | none ↦ (failed eoverflow, k)
          | some tv ↦
              let (wrote, mem) = user_write_timeval tv_addr tv k.memory in
              if not wrote
              then (failed efault, record k { memory = mem })
              else if not (tz_addr == 0)
              then answer k (write_timezone tz_addr mem)
              else (returned 0, record k { memory = mem })
        ]

-- Microseconds, rounded up and held at the greatest word.
abbrev pub total_us : Timespec → ℕ
total_us req =
    if ltb (max_u32 / us_per_sec) req.tv_sec
    then max_u32
    else let secs = mul32 req.tv_sec us_per_sec in
      let part = div_ceil_u32 req.tv_nsec ns_per_us in
      if ltb (max_u32 - part) secs then max_u32 else add32 secs part

abbrev pub at_least_one : ℕ → ℕ
at_least_one ticks = if ticks == 0 then 1 else ticks

-- `nanosleep` with its request.
abbrev pub nap : ℕ → Timespec → Kernel → Reply × Kernel
nap rem_addr req k =
    if is_bad_timespec req
    then (failed einval, k)
    else let (wrote, mem) = user_write_timespec_zero rem_addr k.memory in
      let k' = record k { memory = mem } in
      if not wrote
      then (failed efault, k')
      else if req.tv_sec == 0 && req.tv_nsec == 0
      then (returned 0, k')
      else if tick_period_us == 0
      then (failed eintr, k')
      else (
        returned 0,
        record k' {
          sched = sleep_ticks (at_least_one (div_ceil_u32 (total_us req) tick_period_us)) k.sched;
        },
      )

abbrev pub nap_read : ℕ → Kernel → Option Timespec → Reply × Kernel
nap_read rem_addr k none = (failed efault, k)
nap_read rem_addr k (some req) = nap rem_addr req k

unfoldable pub nanosleep : ℕ → ℕ → Kernel → Reply × Kernel
nanosleep req_addr rem_addr k = nap_read rem_addr k (user_read_timespec req_addr k.memory)
