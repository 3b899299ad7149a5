-- ===== src/Kernel/Sched/Ticks.antt =====
-- kernel/src/sched.c: who runs next, what a tick does, and sleeping for ticks.
use lamp_vm.Common.Tests.{
  ℕ, zero, suc, ◌%◌, Bool, true, false, ◌&&◌, ◌||◌, not, none, some, ltb, leb, ◌==◌, if◌then◌else◌,
}
use lamp_vm.Common.Word.{add32}
use lamp_vm.Kernel.Sched.{
  max_tasks, quantum_ticks, Slot, Sched, is_runnable, is_running, waits, set_slot, detach_waitq,
  current_slot, awaken, runnable, sleeping,
}

unfoldable pub idx_runnable : Sched → ℕ → Bool
idx_runnable s i =
    if i == 0
    then false
    else if leb max_tasks i
    then false
    else if not (s.tasks i).used
    then false
    else is_runnable (s.tasks i).state

-- The search for the next task, from `off` places after the current one on.
unfoldable pub pick_from : Sched → ℕ → ℕ → ℕ
unfolding idx_runnable
pick_from s zero off = 0
pick_from s (suc rounds) off =
    let i = add32 s.current_idx off % max_tasks in
    let rest = pick_from s rounds (suc off) in if idx_runnable s i then i else rest

unfoldable pub pick_next_idx : Sched → ℕ
unfolding pick_from
pick_next_idx s = pick_from s max_tasks 1

unfoldable pub wake_sleeper : ℕ → ℕ → Sched → Sched
unfolding detach_waitq
wake_sleeper now i s =
    let t = s.tasks i in
    if not t.used
    then s
    else if not (waits t.state)
    then s
    else if t.wake_tick == 0 || ltb now t.wake_tick
    then s
    else awaken i s

unfoldable pub wake_sleepers_from : ℕ → ℕ → ℕ → Sched → Sched
unfolding wake_sleeper
wake_sleepers_from now zero i s = s
wake_sleepers_from now (suc rounds) i s =
    wake_sleepers_from now rounds (suc i) (wake_sleeper now i s)

unfoldable pub try_wake_sleepers : ℕ → Sched → Sched
unfolding wake_sleepers_from
try_wake_sleepers now s = wake_sleepers_from now max_tasks 0 s

-- The current task has run for one more tick.
unfoldable pub charge_quantum : Sched → Sched
charge_quantum s =
    let i = s.current_idx in
    let t = s.tasks i in
    let quantum = add32 t.quantum_used 1 in
    if ltb i max_tasks && (t.used && not t.is_idle && is_running t.state)
    then record (set_slot i (λ t. record t { quantum_used = quantum }) s) {
      need_resched = if leb quantum_ticks quantum then true else s.need_resched;
    }
    else s

unfoldable pub schedule_tick : Sched → Sched
unfolding try_wake_sleepers charge_quantum
schedule_tick s =
    let now = add32 s.ticks 1 in charge_quantum (try_wake_sleepers now (record s { ticks = now }))

unfoldable pub yield_task : Sched → Sched
unfolding current_slot
yield_task s = elim (current_slot s) [
  | none ↦ s
  | some i ↦
      record (set_slot i
        (λ t. record t {
          state = if is_running t.state then runnable else t.state;
          quantum_used = 0;
        })
        s) { need_resched = true }
]

abbrev pub slept : ℕ → Slot → Slot
slept wake t = record t { wake_tick = wake; state = sleeping; quantum_used = 0 }

unfoldable pub sleep_ticks : ℕ → Sched → Sched
unfolding current_slot
sleep_ticks ticks s = elim (current_slot s) [
  | none ↦ s
  | some i ↦
      if (s.tasks i).is_idle
      then s
      else record (set_slot i (slept (add32 s.ticks (if ticks == 0 then 1 else ticks))) s) {
        need_resched = true;
      }
]
