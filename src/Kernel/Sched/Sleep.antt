-- ===== src/Kernel/Sched/Sleep.antt =====
-- When a sleeping task wakes.
use lamp_vm.Common.Tests.{
  ℕ, zero, suc, ◌+◌, ◌-◌, ◌^◌, ◌<◌, ◌≤◌, ◌≡◌, refl, sym, ap, ◌∙◌, inl, inr, ◌⊎◌, Bool, true, false,
  ◌||◌, not, some, ltb, ◌==◌, if◌then◌else◌, if-true, if-false, if-split, option-split, arith,
}
use lamp_vm.Common.Arrays.{update_self}
use lamp_vm.Common.Word.{add32}
use lamp_vm.Kernel.Sched.{
  Sched, sleeping, runnable, max_tasks, waits, is_running, set_slot, current_slot,
}
use lamp_vm.Kernel.Sched.Ticks.{schedule_tick, slept, sleep_ticks}
use lamp_vm.Kernel.Sched.Consistent.{IsConsistent}
use lamp_vm.Kernel.Sched.Switches.{
  schedule_tick-IsConsistent, sleep_ticks-IsConsistent, current_slot-lt,
}
use lamp_vm.Kernel.Sched.Wake.{awakened}
use lamp_vm.Kernel.Sched.Sleepers.{schedule_tick-woken_at, schedule_tick_ticks}

-- `n` ticks.
unfoldable pub pass : ℕ → Sched → Sched
pass zero s = s
pass (suc n) s = pass n (schedule_tick s)

-- A task in its sleep.
pub record Asleep (i : ℕ) (s : Sched) : Type 0 where
  pub consistent : IsConsistent s
  pub here : i < max_tasks
  pub used : (s.tasks i).used ≡ true
  pub state : (s.tasks i).state ≡ sleeping

-- One tick before the deadline, and one at it.
tick_early :
    (i : ℕ) (s : Sched)
    → Asleep i s
    → ((s.tasks i).wake_tick ≡ 0) ⊎ (add32 s.ticks 1 < (s.tasks i).wake_tick)
    → (schedule_tick s).tasks i ≡ s.tasks i
tick_early i s a early =
    let t = s.tasks i in
    schedule_tick-woken_at s i a.consistent a.here (ap is_running a.state)
    ∙ if-false t _ (ap not a.used)
    ∙ if-false t _ (ap (λ x. not (waits x)) a.state)
    ∙ if-true {b = t.wake_tick == 0 || ltb (add32 s.ticks 1) t.wake_tick} t _ (ground arith)

wakes_up :
    (i : ℕ) (s : Sched)
    → Asleep i s
    → 0 < (s.tasks i).wake_tick
    → (s.tasks i).wake_tick ≤ add32 s.ticks 1
    → (schedule_tick s).tasks i ≡ awakened (s.tasks i)
wakes_up i s a due late =
    let t = s.tasks i in
    schedule_tick-woken_at s i a.consistent a.here (ap is_running a.state)
    ∙ if-false t _ (ap not a.used)
    ∙ if-false t _ (ap (λ x. not (waits x)) a.state)
    ∙ if-false {b = t.wake_tick == 0 || ltb (add32 s.ticks 1) t.wake_tick} t _ (ground arith)

tick-Asleep :
    (i : ℕ) (s : Sched)
    → Asleep i s
    → (schedule_tick s).tasks i ≡ s.tasks i
    → Asleep i (schedule_tick s)
tick-Asleep i s a same = record {
  consistent = schedule_tick-IsConsistent s a.consistent;
  here = a.here;
  used = ap (λ t. t.used) same ∙ a.used;
  state = ap (λ t. t.state) same ∙ a.state;
}

sleeps_until :
    (n k i : ℕ) (s : Sched)
    → Asleep i s
    → s.ticks + suc n ≡ (s.tasks i).wake_tick
    → (s.tasks i).wake_tick < 2 ^ 32
    → k ≤ suc n
    → ((pass k s).tasks i).state ≡ (if ltb k (suc n) then sleeping else runnable)
unfolding pass
sleeps_until n zero i s a e small l =
    a.state ∙ sym (if-true {b = ltb 0 (suc n)} sleeping runnable (ground arith))
sleeps_until zero (suc zero) i s a e small l =
    ap (λ t. t.state) (wakes_up i s a (omega (arith, e)) (omega (arith, e, small)))
sleeps_until zero (suc (suc k)) i s a e small l = absurd (omega (arith, l))
sleeps_until (suc n) (suc k) i s a e small l =
    let same = tick_early i s a (inr (omega (arith, e, small))) in
    let deadline : ((schedule_tick s).tasks i).wake_tick ≡ (s.tasks i).wake_tick =
      ap (λ t. t.wake_tick) same in
    let now = schedule_tick_ticks s in
    sleeps_until n k i (schedule_tick s) (tick-Asleep i s a same)
      (omega (arith, e, small, deadline, now)) (omega (arith, small, deadline)) (omega (arith, l))
    ∙ ap (λ (b : Bool). if b then sleeping else runnable) {x = ltb k (suc n)}
        {y = ltb (suc k) (suc (suc n))} (ground arith)

-- A sleep lasts one tick at least.
abbrev span : ℕ → ℕ
span n = if n == 0 then 1 else n

abbrev deadline : ℕ → Sched → ℕ
deadline n s = add32 s.ticks (span n)

module _ (n i : ℕ) (s : Sched) (cur : current_slot s ≡ some i)
    (busy : (s.tasks i).is_idle ≡ false) where
  abbrev sleeper : Sched
  sleeper = record (set_slot i (slept (deadline n s)) s) { need_resched = true }

  sleep_ticks_lem : sleep_ticks n s ≡ sleeper
  unfolding sleep_ticks
  sleep_ticks_lem =
      option-split (λ (g : Sched). g ≡ sleeper) (current_slot s)
        (λ e. absurd (ground (arith, cur, e)))
        λ k e.
          let same : k ≡ i = ground (arith, cur, e) in
          if-split (λ (g : Sched). g ≡ sleeper) (s.tasks k).is_idle
            (λ idle. absurd (not_idle (ap (λ (j : ℕ). (s.tasks j).is_idle) same ∙ busy) idle))
            (λ awake.
              ap (λ (j : ℕ). record (set_slot j (slept (deadline n s)) s) { need_resched = true })
                same)
    where
      not_idle : {b : Bool} → b ≡ false → b ≡ true → ⊥
      not_idle p q = cc

  sleep_ticks_slot : (sleep_ticks n s).tasks i ≡ slept (deadline n s) (s.tasks i)
  sleep_ticks_slot =
      ap (λ (g : Sched). g.tasks i) sleep_ticks_lem
      ∙ update_self s.tasks i (slept (deadline n s) (s.tasks i))

  sleep_ticks-Asleep : IsConsistent s → Asleep i (sleep_ticks n s)
  sleep_ticks-Asleep v =
      let (l, u, at) = current_slot-lt s i cur in
      record {
        consistent = sleep_ticks-IsConsistent n s v;
        here = l;
        used = ap (λ t. t.used) sleep_ticks_slot ∙ u;
        state = ap (λ t. t.state) sleep_ticks_slot;
      }

  -- A task that goes to sleep for `n` ticks, or for 1 if `n` is 0, while the count of ticks does not
  -- wrap meanwhile, sleeps through every tick before the last of them and is runnable after it.
  pub sleep_ticks-sleeps_until :
      (k : ℕ)
      → IsConsistent s
      → s.ticks + span n < 2 ^ 32
      → k ≤ span n
      → ((pass k (sleep_ticks n s)).tasks i).state ≡ (if ltb k (span n) then sleeping else runnable)
  sleep_ticks-sleeps_until k v small l =
      let last = span n - 1 in
      let whole : suc last ≡ span n = ground arith in
      let at : ((sleep_ticks n s).tasks i).wake_tick ≡ deadline n s =
        ap (λ t. t.wake_tick) sleep_ticks_slot in
      let now : (sleep_ticks n s).ticks ≡ s.ticks = ap (λ (g : Sched). g.ticks) sleep_ticks_lem in
      sleeps_until last k i (sleep_ticks n s) (sleep_ticks-Asleep v)
        (omega (arith, at, now, whole, small)) (omega (arith, at, small)) (omega (arith, l, whole))
      ∙ ap (λ (m : ℕ). if ltb k m then sleeping else runnable) whole

still_forever :
    (k i : ℕ) (s : Sched) → Asleep i s → (s.tasks i).wake_tick ≡ 0 → (pass k s).tasks i ≡ s.tasks i
unfolding pass
still_forever zero i s a e = refl
still_forever (suc k) i s a e =
    let same = tick_early i s a (inl e) in
    still_forever k i (schedule_tick s) (tick-Asleep i s a same) (ap (λ t. t.wake_tick) same ∙ e)
    ∙ same

-- A task that goes to sleep when the count of ticks and its sleep add up to 2^32 is never woken by
-- the clock: it sleeps after any number of ticks.
pub sleep_ticks-forever :
    (n i : ℕ) (s : Sched) (k : ℕ)
    → current_slot s ≡ some i
    → (s.tasks i).is_idle ≡ false
    → IsConsistent s
    → s.ticks + span n ≡ 2 ^ 32
    → ((pass k (sleep_ticks n s)).tasks i).state ≡ sleeping
sleep_ticks-forever n i s k cur busy v wraps =
    let a = sleep_ticks-Asleep n i s cur busy v in
    let at : ((sleep_ticks n s).tasks i).wake_tick ≡ deadline n s =
      ap (λ t. t.wake_tick) (sleep_ticks_slot n i s cur busy) in
    ap (λ t. t.state) (still_forever k i (sleep_ticks n s) a (omega (arith, at, wraps))) ∙ a.state
