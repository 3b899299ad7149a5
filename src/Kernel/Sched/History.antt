-- ===== src/Kernel/Sched/History.antt =====
-- The scheduler's calls as data, in any order, from the start of the kernel on; and the loop that
-- runs tasks.
use lamp_vm.Common.Tests.{
  ℕ, ◌+◌, ◌<◌, ◌≤◌, ◌≡◌, refl, sym, ap, ◌∙◌, inl, Bool, false, ◌&&◌, Option, List, [], ◌∷◌, ltb,
  ◌==◌, if◌then◌else◌, if-split, arith,
}
use lamp_vm.Kernel.Files.Counts.{stdio-IsCounted, zero_files-IsCounted}
use lamp_vm.Kernel.Files.Calls.{FdCall, call}
use lamp_vm.Kernel.Sched.{Sched, max_tasks, set_slot}
use lamp_vm.Kernel.Sched.Tasks.{spawn, exit_code, waitpid, on_files, init}
use lamp_vm.Kernel.Sched.Ticks.{schedule_tick, yield_task, sleep_ticks}
use lamp_vm.Kernel.Sched.Waits.{waitq_sleep, waitq_wake_one, waitq_wake_all}
use lamp_vm.Kernel.Sched.Queue.{test_bit, test_bit-zero}
use lamp_vm.Kernel.Sched.Loop.{started, finished, is_ready}
use lamp_vm.Kernel.Sched.Linked.{is_on}
use lamp_vm.Kernel.Sched.Consistent.{IsConsistent, IsSound, set_slot-IsConsistent, not_waiting}
use lamp_vm.Kernel.Sched.Calls.{
  spawn-IsConsistent, waitq_sleep-IsConsistent, exit_code-IsConsistent,
}
use lamp_vm.Kernel.Sched.Reaps.{waitpid-IsConsistent, on_files-IsConsistent}
use lamp_vm.Kernel.Sched.Switches.{
  schedule_tick-IsConsistent, yield_task-IsConsistent, sleep_ticks-IsConsistent,
  waitq_wake_one-IsConsistent, waitq_wake_all-IsConsistent,
}

-- `starts`, `returns` and `switches` are what the loops do before and after a task's entry. The
-- queues that tasks name stand outside the table.
pub data SchedCall : Type 0 where
  spawns : ℕ → Option ℕ → ℕ → SchedCall
  ticks yields : SchedCall
  sleeps exits wakes_one wakes_all starts returns switches : ℕ → SchedCall
  sleeps_on : ℕ → ℕ → SchedCall
  waits_for : ℕ → ℕ → Bool → SchedCall
  on_descriptor : FdCall → SchedCall

unfoldable pub start : ℕ → Sched → Sched
start i s = if ltb i max_tasks && is_ready (s.tasks i) then set_slot i started s else s

unfoldable pub return_from : ℕ → Sched → Sched
return_from i s = if ltb i max_tasks then set_slot i finished s else s

unfoldable pub perform : SchedCall → Sched → Sched
unfolding start return_from spawn schedule_tick yield_task sleep_ticks waitq_sleep waitq_wake_one
    waitq_wake_all exit_code waitpid
perform (spawns name entry arg) s = (spawn name entry arg s).1
perform ticks s = schedule_tick s
perform yields s = yield_task s
perform (sleeps n) s = sleep_ticks n s
perform (exits code) s = exit_code code s
perform (wakes_one q) s = waitq_wake_one q s
perform (wakes_all q) s = waitq_wake_all q s
perform (starts i) s = start i s
perform (returns i) s = return_from i s
perform (switches i) s = record s { current_idx = i }
perform (sleeps_on q timeout) s = waitq_sleep (q + max_tasks) timeout s
perform (waits_for pid options has_out) s = (waitpid pid options has_out s).2
perform (on_descriptor c) s = (on_files (call c) s).1

unfoldable pub history : List SchedCall → Sched → Sched
history [] s = s
history (c ∷ cs) s = history cs (perform c s)

module _ (entry name : ℕ) (s : Sched) where
  on_no_queue : (i q : ℕ) → i < max_tasks → is_on ((init entry name s).tasks i).waitq q ≡ false
  unfolding init
  on_no_queue i q l = ground arith

  no_bits : (q : ℕ) → (max_tasks ≤ q → s.queues q ≡ 0) → (init entry name s).queues q ≡ 0
  unfolding init
  no_bits q empty =
      if-split (λ (w : ℕ). w ≡ 0) (ltb q max_tasks) (λ e. refl) (λ e. empty (ground arith))

  init-IsSound : (i : ℕ) → i < max_tasks → IsSound i ((init entry name s).tasks i)
  unfolding init
  init-IsSound i l =
      if-split (IsSound i) (0 == i)
        (λ e. record {
          counted = stdio-IsCounted;
          queued = λ b. cc;
          idle = ground arith;
          root = λ z. refl;
          has_entry = λ u. refl;
        })
        (λ e.
          if-split (IsSound i) (ltb i max_tasks)
            (λ below. record {
              counted = zero_files-IsCounted;
              queued = λ b. cc;
              idle = ground arith;
              root = λ z. ground arith;
              has_entry = λ u. cc;
            })
            (λ above. absurd (ground arith)))

  init-IsConsistent : ((q : ℕ) → max_tasks ≤ q → s.queues q ≡ 0) → IsConsistent (init entry name s)
  init-IsConsistent empty = record {
    links = record {
      linked = λ i q l.
          ap (λ w. test_bit w i) (no_bits q (empty q)) ∙ test_bit-zero i ∙ sym (on_no_queue i q l);
      waiting = λ i q l o. ground (arith, on_no_queue i q l);
      own_child = λ i q l m o. ground (arith, on_no_queue i q l);
    };
    sound = init-IsSound;
  }

start-IsConsistent : (i : ℕ) (s : Sched) → IsConsistent s → IsConsistent (start i s)
unfolding start
start-IsConsistent i s v =
    if-split IsConsistent (ltb i max_tasks && is_ready (s.tasks i))
      (λ e.
        let l : i < max_tasks = ground arith in
        let old = v.sound i l in
        let free = not_waiting i s l v (ground arith) in
        let c =
          set_slot-IsConsistent i s l v (started (s.tasks i)) refl (λ q o. ground (arith, free))
            (record {
              counted = old.counted;
              queued = λ b. cc;
              idle = old.idle;
              root = λ z. ground (arith, old.root z);
              has_entry = old.has_entry;
            }) in
        record { links = c.0; sound = c.1 })
      (λ e. v)

return_from-IsConsistent : (i : ℕ) (s : Sched) → IsConsistent s → IsConsistent (return_from i s)
unfolding return_from
return_from-IsConsistent i s v =
    if-split IsConsistent (ltb i max_tasks)
      (λ e.
        let l : i < max_tasks = ground arith in
        let old = v.sound i l in
        let c =
          set_slot-IsConsistent i s l v (finished (s.tasks i)) refl
            (λ q o. ground (arith, v.links.waiting i q l))
            (record {
              counted = old.counted;
              queued = λ b. ground (arith, old.queued);
              idle = old.idle;
              root = λ z. ground (arith, old.root z);
              has_entry = old.has_entry;
            }) in
        record { links = c.0; sound = c.1 })
      (λ e. v)

perform-IsConsistent : (c : SchedCall) (s : Sched) → IsConsistent s → IsConsistent (perform c s)
unfolding perform
perform-IsConsistent (spawns name entry arg) s v = spawn-IsConsistent name entry arg s v
perform-IsConsistent ticks s v = schedule_tick-IsConsistent s v
perform-IsConsistent yields s v = yield_task-IsConsistent s v
perform-IsConsistent (sleeps n) s v = sleep_ticks-IsConsistent n s v
perform-IsConsistent (exits code) s v = exit_code-IsConsistent code s v
perform-IsConsistent (wakes_one q) s v = waitq_wake_one-IsConsistent q s v
perform-IsConsistent (wakes_all q) s v = waitq_wake_all-IsConsistent q s v
perform-IsConsistent (starts i) s v = start-IsConsistent i s v
perform-IsConsistent (returns i) s v = return_from-IsConsistent i s v
perform-IsConsistent (switches i) s v = record { links = v.links; sound = v.sound }
perform-IsConsistent (sleeps_on q timeout) s v =
    waitq_sleep-IsConsistent (q + max_tasks) timeout s (inl (omega arith)) v
perform-IsConsistent (waits_for pid options has_out) s v =
    waitpid-IsConsistent pid options has_out s v
perform-IsConsistent (on_descriptor c) s v = on_files-IsConsistent c s v

history_keeps : (cs : List SchedCall) (s : Sched) → IsConsistent s → IsConsistent (history cs s)
unfolding history
history_keeps [] s v = v
history_keeps (c ∷ cs) s v = history_keeps cs (perform c s) (perform-IsConsistent c s v)

-- From `sched_init` on, with no bits in the queues outside the table, any calls in any order keep
-- the tables consistent: a queue holds exactly the tasks that point to it, and these wait; a
-- blocked task stands on a queue; the descriptors of every task are counted; slot 0 can run.
pub history-IsConsistent :
    (entry name : ℕ) (s : Sched) (cs : List SchedCall)
    → ((q : ℕ) → max_tasks ≤ q → s.queues q ≡ 0)
    → IsConsistent (history cs (init entry name s))
history-IsConsistent entry name s cs empty =
    history_keeps cs (init entry name s) (init-IsConsistent entry name s empty)
