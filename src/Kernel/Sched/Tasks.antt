-- ===== src/Kernel/Sched/Tasks.antt =====
-- kernel/src/sched.c: tasks are created, found, stopped and reaped.
use lamp_vm.Common.Tests.{
  ℕ, zero, suc, ◌-◌, Bool, true, false, ◌&&◌, ◌||◌, not, Option, none, some, ltb, ◌==◌,
  if◌then◌else◌,
}
use lamp_vm.Common.Arrays.{update}
use lamp_vm.Common.Word.{add32, is_neg, ◌<<<◌}
use lamp_vm.Common.Bits.Step.{bit_and}
use lamp_vm.Kernel.Files.{Files, FdResult, ebadf}
use lamp_vm.Kernel.Files.Slots.{fd_table_init_stdio, slot_close_all_fds}
use lamp_vm.Kernel.Sched.{
  max_tasks, tick_period_us, minus_one, minus_two, Slot, Sched, is_zombie, zero_slot, set_slot,
  clear_task, waitq_init, detach_waitq, alloc_slot, current_slot, runnable, zombie,
}
use lamp_vm.Kernel.Sched.Waits.{waitq_sleep, waitq_wake_all}

unfoldable find_tid_from : Sched → ℕ → ℕ → ℕ → Option ℕ
find_tid_from s tid zero i = none
find_tid_from s tid (suc rounds) i =
    let rest = find_tid_from s tid rounds (suc i) in
    if (s.tasks i).used && ((s.tasks i).tid == tid) then some i else rest

unfoldable pub find_by_tid : Sched → ℕ → Option ℕ
unfolding find_tid_from
find_by_tid s tid = if tid == 0 then some 0 else find_tid_from s tid (max_tasks - 1) 1

unfoldable pub task_is_child_of : Slot → ℕ → ℕ → Bool
task_is_child_of t parent_tid pid =
    if not t.used || t.is_idle
    then false
    else if not (t.parent_tid == parent_tid)
    then false
    else if pid == minus_one
    then true
    else t.tid == pid

-- The result, the status stored through `status_out`, and the tables after.
abbrev pub Waited : Type 0
Waited = ℕ × Option ℕ × Sched

unfoldable pub reap_from : ℕ → ℕ → Bool → ℕ → ℕ → Bool → Sched → Waited
unfolding task_is_child_of clear_task
reap_from parent_tid pid has_out zero i has_child s =
    (if not has_child then minus_one else 0, none, s)
reap_from parent_tid pid has_out (suc rounds) i has_child s =
    let t = s.tasks i in
    let skip = reap_from parent_tid pid has_out rounds (suc i) has_child s in
    let alive = reap_from parent_tid pid has_out rounds (suc i) true s in
    if not (task_is_child_of t parent_tid pid)
    then skip
    else if not (is_zombie t.state)
    then alive
    else (t.tid, if has_out then some (bit_and t.exit_code 0xff <<< 8) else none, clear_task i s)

unfoldable pub try_reap_child : ℕ → ℕ → Bool → Sched → Waited
unfolding reap_from
try_reap_child parent_tid pid has_out s = reap_from parent_tid pid has_out (max_tasks - 1) 1 false s

-- Every field of a new task's slot is set.
abbrev pub spawned : ℕ → ℕ → ℕ → ℕ → ℕ → Slot
spawned tid parent_tid name entry arg = record {
  tid = tid;
  state = runnable;
  wake_tick = 0;
  run_ticks = 0;
  arg = arg;
  used = true;
  is_idle = false;
  quantum_used = 0;
  parent_tid = parent_tid;
  exit_code = 0;
  entry = some entry;
  name = name;
  waitq = none;
  files = fd_table_init_stdio;
}

unfoldable pub parent_of_new : Sched → ℕ
unfolding current_slot
parent_of_new s = elim (current_slot s) [ none ↦ 0 | some p ↦ (s.tasks p).tid ]

unfoldable pub spawn_in : ℕ → ℕ → ℕ → ℕ → Sched → ℕ × Sched
unfolding parent_of_new waitq_init
spawn_in i name entry arg s =
    let next = add32 s.next_tid 1 in
    (
      s.next_tid,
      record (waitq_init i s) {
        tasks = update s.tasks i (spawned s.next_tid (parent_of_new s) name entry arg);
        next_tid = if next == 0 then 1 else next;
        need_resched = true;
      },
    )

unfoldable pub spawn : ℕ → Option ℕ → ℕ → Sched → ℕ × Sched
unfolding alloc_slot spawn_in
spawn name entry arg s = elim entry [
  | none ↦ (minus_one, s)
  | some e ↦ elim (alloc_slot s) [ none ↦ (minus_one, s) | some i ↦ spawn_in i name e arg s ]
]

-- A parent that is not -1 has its child queue woken.
abbrev pub wake_parent : ℕ → Sched → Sched
wake_parent parent_tid s =
    if is_neg parent_tid
    then s
    else elim (find_by_tid s parent_tid) [ none ↦ s | some p ↦ waitq_wake_all p s ]

abbrev pub exited : ℕ → Slot → Slot
exited code t = record t {
  files = slot_close_all_fds t.files;
  exit_code = code;
  state = zombie;
  wake_tick = 0;
  quantum_used = 0;
}

unfoldable pub exit_code : ℕ → Sched → Sched
unfolding current_slot detach_waitq slot_close_all_fds find_by_tid waitq_wake_all
exit_code code s = elim (current_slot s) [
  | none ↦ s
  | some i ↦
      if (s.tasks i).is_idle
      then s
      else record (wake_parent (s.tasks i).parent_tid
          (set_slot i (exited code) (detach_waitq i s))) { need_resched = true }
]

unfoldable pub waitpid : ℕ → ℕ → Bool → Sched → Waited
unfolding current_slot try_reap_child waitq_sleep
waitpid pid options has_out s = elim (current_slot s) [
  | none ↦ (minus_one, none, s)
  | some i ↦
      if (s.tasks i).is_idle
      then (minus_one, none, s)
      else let r = try_reap_child (s.tasks i).tid pid has_out s in
        if not (r.0 == 0)
        then r
        else if not (bit_and options 1 == 0)
        then (0, r.1, r.2)
        else (minus_two, r.1, waitq_sleep i 0 r.2)
]

-- The calls of `sched_fd_*` on the current slot's tables.
abbrev pub on_files : (Files → FdResult × Files) → Sched → FdResult × Sched
on_files f s = elim (current_slot s) [
  | none ↦ (ebadf, s)
  | some i ↦
      let (r, files) = f (s.tasks i).files in (r, set_slot i (λ t. record t { files = files }) s)
]

abbrev root_slot : ℕ → ℕ → Slot
root_slot entry name = record zero_slot {
  used = true;
  is_idle = true;
  entry = some entry;
  name = name;
  parent_tid = minus_one;
  state = runnable;
  files = fd_table_init_stdio;
}

-- `sched_init`, from whatever was in memory.
unfoldable pub init : ℕ → ℕ → Sched → Sched
init entry name s = record {
  ticks = 0;
  need_resched = false;
  current_idx = 0;
  next_tid = 1;
  tasks = update (λ i. if ltb i max_tasks then zero_slot else s.tasks i) 0 (root_slot entry name);
  queues = λ q. if ltb q max_tasks then 0 else s.queues q;
  timer_period_us = tick_period_us;
}
