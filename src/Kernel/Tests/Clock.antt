-- ===== src/Kernel/Tests/Clock.antt =====
-- A clock set and read; sleeps of no, one and the greatest number of ticks.
use lamp_vm.Common.Tests.{ℕ, ◌==◌, if◌then◌else◌, ◌≡◌, refl, false, some, ◌+◌, arith}
use lamp_vm.Kernel.Clock.{
  Timespec, Kernel, returned, failed, efault, einval, eoverflow, clock_realtime,
}
use lamp_vm.Kernel.Clock.Times.{no_offset, timeout_ms_to_ticks, timespec_to_ns}
use lamp_vm.Kernel.Clock.User.{store_pair, ptr_range_ok, user_read_timespec}
use lamp_vm.Kernel.Clock.Calls.{clock_settime, clock_gettime, gettimeofday, clock_getres, nanosleep}
use lamp_vm.Kernel.Clock.Words.{user_read_timespec-user_write_timespec}
use lamp_vm.Kernel.Clock.Setting.{clock_gettime-clock_settime}
use lamp_vm.Kernel.Clock.Naps.{Naps, nanosleep-Naps}
use lamp_vm.Kernel.Sched.Ticks.{sleep_ticks}
use lamp_vm.Kernel.Tests.Tasks.{memory_zero}

abbrev thousand : Timespec
thousand = record { tv_sec = 1000; tv_nsec = 5 }

abbrev with_request : Timespec → Kernel
with_request ts = record {
  memory = store_pair (λ _. 0) 0x1000 ts.tv_sec ts.tv_nsec;
  realtime_offset = no_offset;
  sched = memory_zero;
}

abbrev raw : ℕ → ℕ → ℕ
raw ns a = if a == 0x2004 then ns else 0

clock_gettime-clock_settime_example :
    (k' k'' : Kernel) × (clock_settime clock_realtime 0x1000 (raw 700) (with_request thousand)
      ≡ (returned 0, k'))
    × (clock_gettime clock_realtime 0x2000 (raw 750) k' ≡ (returned 0, k''))
    × (now : Timespec) × (user_read_timespec 0x2000 k''.memory ≡ some now)
    × (timespec_to_ns now ≡ some (1000000000005 + 50))
unfolding ptr_range_ok
clock_gettime-clock_settime_example =
    clock_gettime-clock_settime 0x1000 0x2000 1000000000005 50 thousand (raw 700) (raw 750)
      (with_request thousand) refl
      (user_read_timespec-user_write_timespec 0x1000 thousand (λ _. 0) (omega arith) (omega arith)
        refl)
      refl (omega arith) refl

-- Two hours, of which 71 minutes are slept.
abbrev two_hours : Timespec
two_hours = record { tv_sec = 7200; tv_nsec = 0 }

nanosleep-Naps_example :
    (ticks : ℕ) × Naps two_hours ticks
    × (nanosleep 0x1000 0 (with_request two_hours)
        ≡ (returned 0, record (with_request two_hours) { sched = sleep_ticks ticks memory_zero }))
unfolding ptr_range_ok
nanosleep-Naps_example =
    nanosleep-Naps 0x1000 0 two_hours (with_request two_hours)
      (user_read_timespec-user_write_timespec 0x1000 two_hours (λ _. 0) (omega arith) (omega arith)
        refl)
      refl (omega arith) refl

reads_to_nowhere :
    (clock_gettime clock_realtime 0 (raw 5) (with_request thousand)).0 ≡ failed efault
unfolding clock_gettime
reads_to_nowhere = refl

no_such_clock : (clock_getres 3 0 (with_request thousand)).0 ≡ failed einval
unfolding clock_getres
no_such_clock = refl

past_2038 :
    (gettimeofday 0x1000 0 (raw 5) (record (with_request thousand) {
      realtime_offset = record { neg = false; mag_ns = 2147483648000000000 };
    })).0
    ≡ failed eoverflow
unfolding gettimeofday
past_2038 = refl

two_ticks : timeout_ms_to_ticks 50000 51 ≡ 2
two_ticks = refl
