-- ===== src/Kernel/Tests/Tasks.antt =====
-- A scheduler with a few tasks.
use lamp_vm.Common.Tests.{
  ℕ, ◌<◌, ◌-◌, ◌^◌, ◌++◌, ◌≡◌, ◌⊎◌, refl, true, false, List, [], ◌∷◌, some, ltb, if◌then◌else◌,
  arith,
}
use lamp_vm.Kernel.Sched.{Sched, zero_slot, alloc_slot, current_slot, sleeping, runnable, set_slot}
use lamp_vm.Kernel.Sched.Tasks.{init, spawn}
use lamp_vm.Kernel.Sched.Ticks.{sleep_ticks, idx_runnable, pick_next_idx}
use lamp_vm.Kernel.Sched.Waits.{waitq_sleep, waitq_wake_all, waitq_wake_one}
use lamp_vm.Kernel.Sched.Loop.{is_ready, run_round, repicked, started, finished}
use lamp_vm.Kernel.Sched.Consistent.{IsConsistent}
use lamp_vm.Kernel.Sched.History.{
  SchedCall, spawns, starts, returns, switches, wakes_all, sleeps_on, return_from, history, perform,
  start, history-IsConsistent,
}
use lamp_vm.Kernel.Sched.Pick.{ahead, pick_next_idx-ahead, run_round-runs}
use lamp_vm.Kernel.Sched.Wake.{woken_if, waitq_wake_all-woken_if, WakesOne, waitq_wake_one-WakesOne}
use lamp_vm.Kernel.Sched.Sleep.{pass, sleep_ticks-sleeps_until, sleep_ticks-forever}

abbrev pub memory_zero : Sched
memory_zero = record {
  ticks = 0;
  need_resched = false;
  current_idx = 0;
  next_tid = 0;
  tasks = λ i. zero_slot;
  queues = λ q. 0;
  timer_period_us = 0;
}

-- Two tasks that wait on queue 16, and a third.
abbrev three_tasks : List SchedCall
three_tasks =
    spawns 70 (some 100) 0
    ∷ spawns 71 (some 101) 0
    ∷ spawns 72 (some 102) 0
    ∷ switches 1
    ∷ starts 1
    ∷ sleeps_on 0 0
    ∷ switches 2
    ∷ starts 2
    ∷ sleeps_on 0 5
    ∷ switches 3
    ∷ starts 3
    ∷ []

abbrev waiting : Sched
waiting = history three_tasks (init 9 8 memory_zero)

history-IsConsistent_example : IsConsistent waiting
history-IsConsistent_example = history-IsConsistent 9 8 memory_zero three_tasks (λ q l. refl)

waitq_wake_all-woken_if_example :
    (waitq_wake_all 16 waiting).tasks 2 ≡ woken_if 16 (waiting.tasks 2)
waitq_wake_all-woken_if_example =
    waitq_wake_all-woken_if 16 waiting
      (history-IsConsistent 9 8 memory_zero three_tasks (λ q l. refl)) 2 (omega arith)

waitq_wake_one-WakesOne_example : WakesOne 16 0 waiting (waitq_wake_one 16 waiting)
waitq_wake_one-WakesOne_example =
    waitq_wake_one-WakesOne 16 waiting
      (history-IsConsistent 9 8 memory_zero three_tasks (λ q l. refl))

current_is_three : current_slot waiting ≡ some 3
unfolding current_slot history perform init spawn alloc_slot start waitq_sleep
current_is_three = refl

three_is_busy : (waiting.tasks 3).is_idle ≡ false
unfolding current_slot history perform init spawn alloc_slot start waitq_sleep
three_is_busy = refl

no_tick_yet : waiting.ticks ≡ 0
unfolding current_slot history perform init spawn alloc_slot start waitq_sleep
no_tick_yet = refl

sleep_ticks-sleeps_until_example :
    ((pass 3 (sleep_ticks 4 waiting)).tasks 3).state ≡ (if ltb 3 4 then sleeping else runnable)
sleep_ticks-sleeps_until_example =
    sleep_ticks-sleeps_until 4 3 waiting current_is_three three_is_busy 3
      (history-IsConsistent 9 8 memory_zero three_tasks (λ q l. refl)) (omega (arith, no_tick_yet))
      (omega arith)

-- The same tables four ticks before the count wraps.
abbrev late : Sched
late = record waiting { ticks = 2 ^ 32 - 4 }

late-IsConsistent : IsConsistent late
late-IsConsistent =
    let v = history-IsConsistent 9 8 memory_zero three_tasks (λ q l. refl) in
    record { links = v.links; sound = v.sound }

late_three : current_slot late ≡ some 3
unfolding current_slot history perform init spawn alloc_slot start waitq_sleep
late_three = refl

sleep_ticks-forever_example : ((pass 1000 (sleep_ticks 4 late)).tasks 3).state ≡ sleeping
sleep_ticks-forever_example =
    sleep_ticks-forever 4 3 late 1000 late_three three_is_busy late-IsConsistent (omega arith)

-- With the two woken and the third back, task 2 is two places behind the current one.
abbrev rested : Sched
rested = history (returns 3 ∷ wakes_all 16 ∷ []) waiting

rested_two : idx_runnable rested 2 ≡ true
unfolding idx_runnable history perform init spawn alloc_slot start return_from waitq_sleep
    waitq_wake_all
rested_two = refl

rested_current : rested.current_idx ≡ 3
unfolding idx_runnable history perform init spawn alloc_slot start return_from waitq_sleep
    waitq_wake_all
rested_current = refl

pick_next_idx-ahead_example :
    (idx_runnable rested (pick_next_idx rested) ≡ true)
    × ((pick_next_idx rested ≡ 2) ⊎ (ahead (pick_next_idx rested) 2 < ahead rested.current_idx 2))
pick_next_idx-ahead_example =
    pick_next_idx-ahead rested 2 (omega (arith, rested_current)) (omega arith) rested_two

rested-IsConsistent : IsConsistent rested
unfolding history
rested-IsConsistent =
    history-IsConsistent 9 8 memory_zero (three_tasks ++ (returns 3 ∷ wakes_all 16 ∷ []))
      (λ q l. refl)

root_is_ready : is_ready (rested.tasks 0) ≡ true
unfolding idx_runnable history perform init spawn alloc_slot start return_from waitq_sleep
    waitq_wake_all
root_is_ready = refl

-- Every entry sleeps for three ticks.
abbrev nap : ℕ → ℕ → ℕ → Sched → Sched
nap e i arg s = sleep_ticks 3 s

run_round-runs_example :
    (i : ℕ) × (e : ℕ) × (is_ready (rested.tasks i) ≡ true)
    × ((rested.tasks i).entry ≡ some e)
    × (i ≡ (repicked rested).current_idx)
    × (run_round nap rested
        ≡ set_slot i finished (nap e i (rested.tasks i).arg (set_slot i started (repicked rested))))
run_round-runs_example =
    run_round-runs nap rested rested-IsConsistent (omega (arith, rested_current)) root_is_ready
