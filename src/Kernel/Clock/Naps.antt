-- ===== src/Kernel/Clock/Naps.antt =====
-- How long `nanosleep` sleeps.
use lamp_vm.Common.Tests.{
  ℕ, ◌+◌, ◌*◌, ◌≤◌, ◌<◌, ◌≡◌, ap, ◌∙◌, true, false, not, some, ◌==◌, ◌&&◌, if-false, if-true,
  if◌then◌else◌, ltb, lt→ltb, le→ltb_false, arith, lt-cases, inl, inr,
}
use lamp_vm.Kernel.Sched.Ticks.{sleep_ticks}
use lamp_vm.Kernel.Sched.{tick_period_us}
use lamp_vm.Kernel.Clock.{Timespec, Kernel, returned, ns_per_sec, ns_per_us, max_u32}
use lamp_vm.Kernel.Clock.Times.{div_ceil_u32, is_bad_timespec}
use lamp_vm.Kernel.Clock.Calls.{total_us, at_least_one, nanosleep, nap_read}
use lamp_vm.Kernel.Clock.User.{user_read_timespec, user_write_timespec_zero}

abbrev requested_ns : Timespec → ℕ
requested_ns ts = ts.tv_sec * ns_per_sec + ts.tv_nsec

abbrev tick_ns : ℕ
tick_ns = tick_period_us * ns_per_us

abbrev longest_ns : ℕ
longest_ns = max_u32 * ns_per_us

abbrev nap_ticks : Timespec → ℕ
nap_ticks req = at_least_one (div_ceil_u32 (total_us req) tick_period_us)

total_us-covers :
    (req : Timespec)
    → req.tv_nsec < ns_per_sec
    → requested_ns req ≤ longest_ns
    → (requested_ns req ≤ total_us req * ns_per_us)
      × (total_us req * ns_per_us < requested_ns req + ns_per_us)
total_us-covers req h l = ground arith

total_us-capped :
    (req : Timespec)
    → req.tv_nsec < ns_per_sec
    → longest_ns ≤ requested_ns req
    → total_us req ≡ max_u32
total_us-capped req h l = ground arith

nap_ticks-least :
    (us : ℕ)
    → 0 < us
    → us ≤ max_u32
    → (us ≤ at_least_one (div_ceil_u32 us tick_period_us) * tick_period_us)
      × (at_least_one (div_ceil_u32 us tick_period_us) * tick_period_us < us + tick_period_us)
nap_ticks-least us p l = ground arith

-- What is asked for, or the greatest word of microseconds where that is shorter.
abbrev granted_ns : Timespec → ℕ
granted_ns req = if ltb longest_ns (requested_ns req) then longest_ns else requested_ns req

-- The fewest ticks that last as long.
pub record Naps (req : Timespec) (ticks : ℕ) : Type 0 where
  pub long_enough : granted_ns req ≤ ticks * tick_ns
  pub not_longer : ticks * tick_ns < granted_ns req + tick_ns

nap_ticks-Naps :
    (req : Timespec) → req.tv_nsec < ns_per_sec → 0 < requested_ns req → Naps req (nap_ticks req)
nap_ticks-Naps req h p = elim (lt-cases longest_ns (requested_ns req)) [
  | inl l ↦
      let e = total_us-capped req h (omega arith) in
      let g : granted_ns req ≡ longest_ns = if-true _ _ (lt→ltb _ _ l) in
      let (c, d) = nap_ticks-least (total_us req) (omega arith) (omega arith) in
      record { long_enough = omega arith; not_longer = omega arith }
  | inr l ↦
      let (a, b) = total_us-covers req h l in
      let g : granted_ns req ≡ requested_ns req = if-false _ _ (le→ltb_false _ _ l) in
      let (c, d) = nap_ticks-least (total_us req) (omega arith) (omega arith) in
      record { long_enough = omega arith; not_longer = omega arith }
]

-- A valid request, other than for no time, sleeps for such ticks, and clears the remaining time where one is asked.
pub nanosleep-Naps :
    (req_addr rem_addr : ℕ) (req : Timespec) (k : Kernel)
    → user_read_timespec req_addr k.memory ≡ some req
    → is_bad_timespec req ≡ false
    → 0 < requested_ns req
    → (user_write_timespec_zero rem_addr k.memory).0 ≡ true
    → (ticks : ℕ) × Naps req ticks
      × (nanosleep req_addr rem_addr k ≡ (
        returned 0,
        record k {
          memory = (user_write_timespec_zero rem_addr k.memory).1;
          sched = sleep_ticks ticks k.sched;
        },
      ))
unfolding nanosleep
nanosleep-Naps req_addr rem_addr req k er good some_time wrote =
    let l : req.tv_nsec < ns_per_sec = ground arith in
    let z : (req.tv_sec == 0 && req.tv_nsec == 0) ≡ false = ground arith in
    (
      nap_ticks req,
      nap_ticks-Naps req l some_time,
      ap (nap_read rem_addr k) er
          ∙ if-false _ _ good
          ∙ if-false _ _ (ap not wrote)
          ∙ if-false _ _ z,
    )
