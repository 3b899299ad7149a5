-- ===== src/Kernel/Sched/Waits.antt =====
-- kernel/src/sched.c: waiting on a queue, and waking one or all of its tasks.
use lamp_vm.Common.Tests.{ℕ, zero, suc, ◌-◌, true, ◌||◌, not, none, some, ◌==◌, if◌then◌else◌}
use lamp_vm.Common.Arrays.{update}
use lamp_vm.Common.Word.{add32}
use lamp_vm.Kernel.Sched.Queue.{set_bit, test_bit}
use lamp_vm.Kernel.Sched.{max_tasks, Sched, waits, detach_waitq, current_slot, awaken, blocked}

abbrev pub put_on : ℕ → ℕ → ℕ → Sched → Sched
put_on i q wake s = record s {
  tasks =
      update s.tasks i (record (s.tasks i) {
        waitq = some q;
        state = blocked;
        wake_tick = wake;
        quantum_used = 0;
      });
  queues = update s.queues q (set_bit (s.queues q) i);
  need_resched = true;
}

unfoldable pub waitq_sleep : ℕ → ℕ → Sched → Sched
unfolding current_slot detach_waitq set_bit
waitq_sleep q timeout_ticks s = elim (current_slot s) [
  | none ↦ s
  | some i ↦
      if (s.tasks i).is_idle
      then s
      else put_on i q (if timeout_ticks == 0 then 0 else add32 s.ticks timeout_ticks)
          (detach_waitq i s)
]

unfoldable pub wake_slot : ℕ → Sched → Sched
unfolding detach_waitq
wake_slot i s =
    let t = s.tasks i in
    if not t.used || t.is_idle then s else if not (waits t.state) then s else awaken i s

unfoldable pub wake_one_from : ℕ → ℕ → ℕ → Sched → Sched
unfolding wake_slot test_bit
wake_one_from q zero i s = s
wake_one_from q (suc rounds) i s =
    let rest = wake_one_from q rounds (suc i) s in
    if not (test_bit (s.queues q) i) then rest else wake_slot i s

unfoldable pub waitq_wake_one : ℕ → Sched → Sched
unfolding wake_one_from
waitq_wake_one q s = wake_one_from q (max_tasks - 1) 1 s

unfoldable pub wake_all_from : ℕ → ℕ → ℕ → Sched → Sched
unfolding wake_slot test_bit
wake_all_from q zero i s = s
wake_all_from q (suc rounds) i s =
    wake_all_from q rounds (suc i) (if not (test_bit (s.queues q) i) then s else wake_slot i s)

unfoldable pub waitq_wake_all : ℕ → Sched → Sched
unfolding wake_all_from
waitq_wake_all q s = wake_all_from q (max_tasks - 1) 1 s
