-- ===== src/Kernel/Sched/Reaps.antt =====
-- Reaping a child, and the calls on descriptors, keep queues and tasks in agreement.
use lamp_vm.Common.Tests.{
  ℕ, zero, suc, ◌+◌, ◌<◌, ◌≤◌, ◌≡◌, refl, sym, ◌∙◌, inr, Bool, true, false, not, ◌==◌, if-split,
  if-both, option-split, arith,
}
use lamp_vm.Common.Bits.Step.{bit_and}
use lamp_vm.Kernel.Files.{FdResult}
use lamp_vm.Kernel.Files.Counts.{zero_files-IsCounted}
use lamp_vm.Kernel.Files.Calls.{FdCall, call, call-IsCounted}
use lamp_vm.Kernel.Sched.Calls.{waitq_sleep-IsConsistent}
use lamp_vm.Kernel.Sched.{Sched, max_tasks, is_zombie, current_slot, clear_task, zero_slot}
use lamp_vm.Kernel.Sched.Tasks.{
  Waited, waitpid, reap_from, try_reap_child, on_files, task_is_child_of,
}
use lamp_vm.Kernel.Sched.Consistent.{
  IsConsistent, set_slot-IsConsistent, renew-IsConsistent, not_waiting,
}
use lamp_vm.Kernel.Sched.Switches.{current_slot-lt}

clear_task-IsConsistent :
    (i : ℕ) (s : Sched)
    → i < max_tasks
    → 1 ≤ i
    → is_zombie (s.tasks i).state ≡ true
    → IsConsistent s
    → IsConsistent (clear_task i s)
unfolding clear_task
clear_task-IsConsistent i s l one z v =
    let c = renew-IsConsistent i s l v zero_slot (not_waiting i s l v (ground arith)) refl (record {
      counted = zero_files-IsCounted;
      queued = λ b. cc;
      idle = ground arith;
      root = λ z. absurd (omega (arith, z, one));
      has_entry = λ u. cc;
    }) in
    record { links = c.0; sound = c.1 }

reap_from-IsConsistent :
    (parent pid : ℕ) (has_out : Bool) (rounds i : ℕ) (has_child : Bool) (s : Sched)
    → rounds + i ≤ max_tasks
    → 1 ≤ i
    → IsConsistent s
    → IsConsistent (reap_from parent pid has_out rounds i has_child s).2
unfolding reap_from
reap_from-IsConsistent parent pid has_out zero i has_child s l one v = v
reap_from-IsConsistent parent pid has_out (suc rounds) i has_child s l one v =
    let P : Waited → Type 0 = (λ r. IsConsistent r.2) in
    if-both P (not (task_is_child_of (s.tasks i) parent pid))
      (reap_from-IsConsistent parent pid has_out rounds (suc i) has_child s (omega (arith, l))
        (omega (arith, one)) v)
      (if-split P (not (is_zombie (s.tasks i).state))
        (λ alive.
          reap_from-IsConsistent parent pid has_out rounds (suc i) true s (omega (arith, l))
            (omega (arith, one)) v)
        (λ dead. clear_task-IsConsistent i s (omega (arith, l)) one (ground arith) v))

reap_from_current :
    (parent pid : ℕ) (has_out : Bool) (rounds i : ℕ) (has_child : Bool) (s : Sched)
    → (reap_from parent pid has_out rounds i has_child s).2.current_idx ≡ s.current_idx
unfolding reap_from clear_task
reap_from_current parent pid has_out zero i has_child s = refl
reap_from_current parent pid has_out (suc rounds) i has_child s =
    let P : Waited → Type 0 = λ r. r.2.current_idx ≡ s.current_idx in
    if-both P (not (task_is_child_of (s.tasks i) parent pid))
      (reap_from_current parent pid has_out rounds (suc i) has_child s)
      (if-both P (not (is_zombie (s.tasks i).state))
        (reap_from_current parent pid has_out rounds (suc i) true s) refl)

-- A search for a child that ended leaves consistent tables and the current task.
abbrev pub Reaps : Sched → Waited → Type 0
Reaps s r = IsConsistent r.2 × (r.2.current_idx ≡ s.current_idx)

try_reap_child-Reaps :
    (parent pid : ℕ) (has_out : Bool) (s : Sched)
    → IsConsistent s
    → Reaps s (try_reap_child parent pid has_out s)
unfolding try_reap_child
try_reap_child-Reaps parent pid has_out s v = (
  reap_from-IsConsistent parent pid has_out 15 1 false s (omega arith) (omega arith) v,
  reap_from_current parent pid has_out 15 1 false s,
)

pub waitpid-IsConsistent :
    (pid options : ℕ) (has_out : Bool) (s : Sched)
    → IsConsistent s
    → IsConsistent (waitpid pid options has_out s).2
unfolding waitpid
waitpid-IsConsistent pid options has_out s v =
    let P : Waited → Type 0 = λ r. IsConsistent r.2 in
    option-split P (current_slot s) (λ e. v)
      λ i e. if-both P (s.tasks i).is_idle v (
        let (w, same) = try_reap_child-Reaps (s.tasks i).tid pid has_out s v in
        let r = try_reap_child (s.tasks i).tid pid has_out s in
        if-both P (not (r.0 == 0)) w (
          if-both P (not (bit_and options 1 == 0)) w
            (waitq_sleep-IsConsistent i 0 r.2 (inr (sym (same ∙ (current_slot-lt s i e).2))) w)))

pub on_files-IsConsistent :
    (c : FdCall) (s : Sched) → IsConsistent s → IsConsistent (on_files (call c) s).1
on_files-IsConsistent c s v =
    option-split (λ (r : FdResult × Sched). IsConsistent r.1) (current_slot s) (λ e. v)
      λ i e.
        let (l, u, at) = current_slot-lt s i e in
        let old = v.sound i l in
        let c =
          set_slot-IsConsistent i s l v
            (record (s.tasks i) { files = (call c (s.tasks i).files).1 }) refl
            (λ q o. ground (arith, v.links.waiting i q l))
            (record {
              counted = call-IsCounted c (s.tasks i).files old.counted;
              queued = old.queued;
              idle = old.idle;
              root = old.root;
              has_entry = old.has_entry;
            }) in
        record { links = c.0; sound = c.1 }
