-- ===== src/Kernel/Clock/Setting.antt =====
-- Setting the wall clock, and reading it later.
use lamp_vm.Common.Tests.{
  ℕ, ◌+◌, ◌*◌, ◌/◌, ◌%◌, ◌^◌, ◌≤◌, ◌<◌, ◌≡◌, ap, ◌∙◌, true, false, none, some, leb, ◌==◌, arith,
  le→ltb_false, lt→leb_false, if-false,
}
use lamp_vm.Common.Word.{u32}
use lamp_vm.Kernel.Clock.{
  Timespec, Kernel, returned, ns_per_sec, max_sec, max_u64, clock_realtime, realtime_lo,
}
use lamp_vm.Kernel.Clock.User.{ptr_range_ok, store_pair, user_read_timespec}
use lamp_vm.Kernel.Clock.Times.{
  mmio_read_time_ns, apply_realtime_offset, time_ns_to_timespec, timespec_to_ns,
}
use lamp_vm.Kernel.Clock.Calls.{offset_to, clock_settime, clock_gettime}
use lamp_vm.Kernel.Clock.Words.{not_null, read_in_range, user_read_timespec-user_write_timespec}

abbrev raw_realtime : (ℕ → ℕ) → ℕ
raw_realtime mmio = mmio_read_time_ns mmio realtime_lo

abbrev split_ns : ℕ → Timespec
split_ns ns = record { tv_sec = ns / ns_per_sec; tv_nsec = ns % ns_per_sec }

-- The clock advances from the target by what the raw time advances.
apply_realtime_offset-offset_to :
    (target raw d : ℕ)
    → target + d ≤ max_u64
    → apply_realtime_offset (offset_to target raw) (raw + d) ≡ target + d
apply_realtime_offset-offset_to target raw d h = ground arith

time_ns_to_timespec-split :
    (ns : ℕ) → ns < 2 ^ 31 * ns_per_sec → time_ns_to_timespec ns ≡ some (split_ns ns)
time_ns_to_timespec-split ns h =
    let e1 : u32 (ns / ns_per_sec) ≡ ns / ns_per_sec = omega arith in
    let e2 : u32 (ns % ns_per_sec) ≡ ns % ns_per_sec = omega arith in
    if-false none _ (le→ltb_false max_sec (ns / ns_per_sec) (omega arith)) ∙ rw (e1, e2)

timespec_to_ns-split : (ns : ℕ) → ns < 2 ^ 31 * ns_per_sec → timespec_to_ns (split_ns ns) ≡ some ns
timespec_to_ns-split ns h =
    let e1 : leb (2 ^ 31) (ns / ns_per_sec) ≡ false = lt→leb_false _ _ (omega arith) in
    let e2 : leb (2 ^ 31) (ns % ns_per_sec) ≡ false = lt→leb_false _ _ (omega arith) in
    let e3 : leb ns_per_sec (ns % ns_per_sec) ≡ false = lt→leb_false _ _ (omega arith) in
    rw (e1, e2, e3) (ap some (omega arith))

-- What a read of the wall clock leaves at `dst`.
clock_gettime-eq :
    (dst ns : ℕ) (mmio : ℕ → ℕ) (k : Kernel)
    → ns < 2 ^ 31 * ns_per_sec
    → ptr_range_ok dst 8 ≡ true
    → apply_realtime_offset k.realtime_offset (raw_realtime mmio) ≡ ns
    → clock_gettime clock_realtime dst mmio k ≡ (
      returned 0,
      record k { memory = store_pair k.memory dst (ns / ns_per_sec) (ns % ns_per_sec) },
    )
unfolding clock_gettime
clock_gettime-eq dst ns mmio k h ok e =
    let ne : (dst == 0) ≡ false = not_null dst ok in rw (ne, e, time_ns_to_timespec-split ns h, ok)

clock_settime-eq :
    (tp t : ℕ) (ts : Timespec) (mmio : ℕ → ℕ) (k : Kernel)
    → user_read_timespec tp k.memory ≡ some ts
    → timespec_to_ns ts ≡ some t
    → clock_settime clock_realtime tp mmio k
      ≡ (returned 0, record k { realtime_offset = offset_to t (raw_realtime mmio) })
unfolding clock_settime
clock_settime-eq tp t ts mmio k er et =
    let ne : (tp == 0) ≡ false = not_null tp (read_in_range tp ts k.memory er) in rw (ne, er, et)

-- A wall clock that is set reads, later, the time it was set to plus the raw time that has passed.
pub clock_gettime-clock_settime :
    (tp dst t d : ℕ) (ts : Timespec) (mmio later : ℕ → ℕ) (k : Kernel)
    → ptr_range_ok dst 8 ≡ true
    → user_read_timespec tp k.memory ≡ some ts
    → timespec_to_ns ts ≡ some t
    → t + d < 2 ^ 31 * ns_per_sec
    → raw_realtime later ≡ raw_realtime mmio + d
    → (k' k'' : Kernel) × (clock_settime clock_realtime tp mmio k ≡ (returned 0, k'))
      × (clock_gettime clock_realtime dst later k' ≡ (returned 0, k''))
      × (now : Timespec) × (user_read_timespec dst k''.memory ≡ some now)
      × (timespec_to_ns now ≡ some (t + d))
clock_gettime-clock_settime tp dst t d ts mmio later k ok er et h passed =
    let k' = record k { realtime_offset = offset_to t (raw_realtime mmio) } in
    let reads : apply_realtime_offset k'.realtime_offset (raw_realtime later) ≡ t + d =
      ap (apply_realtime_offset k'.realtime_offset) passed
      ∙ apply_realtime_offset-offset_to t (raw_realtime mmio) d (omega arith) in
    let now = split_ns (t + d) in
    (
      k',
      record k' { memory = store_pair k'.memory dst now.tv_sec now.tv_nsec },
      clock_settime-eq tp t ts mmio k er et,
      clock_gettime-eq dst (t + d) later k' h ok reads,
      now,
      user_read_timespec-user_write_timespec dst now k'.memory (omega arith) (omega arith) ok,
      timespec_to_ns-split (t + d) h,
    )
