-- ===== src/Kernel/Sched/Calls.antt =====
-- Every call of the scheduler keeps its tables consistent.
use lamp_vm.Common.Tests.{
  ℕ, ◌<◌, ◌≤◌, ◌≡◌, refl, sym, ap, ◌∙◌, subst, ◌⊎◌, true, false, Option, none, some, if-split,
  if-both, option-split, arith,
}
use lamp_vm.Common.Word.{is_neg}
use lamp_vm.Kernel.Files.Counts.{stdio-IsCounted}
use lamp_vm.Kernel.Files.Invariant.{first_unused-lt}
use lamp_vm.Kernel.Files.Sharing.{close_all-IsCounted}
use lamp_vm.Kernel.Sched.{
  Slot, Sched, blocked, max_tasks, detach_waitq, set_slot, alloc_slot, current_slot, waitq_init,
}
use lamp_vm.Kernel.Sched.Tasks.{
  spawn, spawn_in, spawned, parent_of_new, wake_parent, find_by_tid, exited, exit_code,
}
use lamp_vm.Kernel.Sched.Waits.{put_on, waitq_sleep}
use lamp_vm.Kernel.Sched.Linked.{may_wait, link-IsLinked}
use lamp_vm.Kernel.Sched.Consistent.{
  IsConsistent, IsSound, detached, detach_waitq-Detached, update-IsSound, leave-IsConsistent,
  renew-IsConsistent, not_waiting,
}
use lamp_vm.Kernel.Sched.Switches.{waitq_wake_all-IsConsistent, current_slot-lt}

exited-IsConsistent :
    (code i : ℕ) (s : Sched)
    → i < max_tasks
    → (s.tasks i).is_idle ≡ false
    → IsConsistent s
    → IsConsistent (set_slot i (exited code) (detach_waitq i s))
exited-IsConsistent code i s l busy v =
    let old = v.sound i l in
    leave-IsConsistent i s l v (exited code) refl (record {
      counted = close_all-IsCounted (s.tasks i).files old.counted;
      queued = λ b. cc;
      idle = old.idle;
      root = λ z. ground (arith, old.idle);
      has_entry = old.has_entry;
    })

wake_parent-IsConsistent : (p : ℕ) (s : Sched) → IsConsistent s → IsConsistent (wake_parent p s)
wake_parent-IsConsistent p s v = if-both IsConsistent (is_neg p) v (
    option-split IsConsistent (find_by_tid s p) (λ e. v) (λ i e. waitq_wake_all-IsConsistent i s v))

pub exit_code-IsConsistent :
    (code : ℕ) (s : Sched) → IsConsistent s → IsConsistent (exit_code code s)
unfolding exit_code
exit_code-IsConsistent code s v =
    option-split IsConsistent (current_slot s) (λ e. v)
      λ i e.
        if-split IsConsistent (s.tasks i).is_idle (λ idle. v)
          λ busy.
            let (l, u, at) = current_slot-lt s i e in
            let c =
              wake_parent-IsConsistent (s.tasks i).parent_tid
                (set_slot i (exited code) (detach_waitq i s))
                (exited-IsConsistent code i s l busy v) in
            record { links = c.links; sound = c.sound }

put_on-IsConsistent :
    (i q wake : ℕ) (s : Sched)
    → i < max_tasks
    → (s.tasks i).used ≡ true
    → (s.tasks i).is_idle ≡ false
    → (max_tasks ≤ q) ⊎ (q ≡ i)
    → IsConsistent s
    → IsConsistent (put_on i q wake (detach_waitq i s))
put_on-IsConsistent i q wake s l u busy place v =
    let d = detach_waitq-Detached i s l v.links in
    let old = v.sound i l in
    let g = detach_waitq i s in
    let t : Slot = record (g.tasks i) {
      waitq = some q;
      state = blocked;
      wake_tick = wake;
      quantum_used = 0;
    } in
    let t' : Slot = record (detached (s.tasks i)) {
      waitq = some q;
      state = blocked;
      wake_tick = wake;
      quantum_used = 0;
    } in
    let same : t ≡ t' = (λ k. record (d.self k) {
      waitq = some q;
      state = blocked;
      wake_tick = wake;
      quantum_used = 0;
    }) in
    record {
      links =
          link-IsLinked g.tasks g.queues d.links i l t q (ap (λ x. x.waitq) d.self) refl
            (ap may_wait same ∙ ground arith) place;
      sound = update-IsSound s.tasks g.tasks i t v.sound d.others (
          subst (IsSound i) (sym same) (record {
            counted = old.counted;
            queued = λ b. refl;
            idle = old.idle;
            root = λ z. ground (arith, old.idle);
            has_entry = old.has_entry;
          }));
    }

-- The queue is outside the table, or the child queue of the current slot.
pub waitq_sleep-IsConsistent :
    (q timeout : ℕ) (s : Sched)
    → (max_tasks ≤ q) ⊎ (q ≡ s.current_idx)
    → IsConsistent s
    → IsConsistent (waitq_sleep q timeout s)
unfolding waitq_sleep
waitq_sleep-IsConsistent q timeout s place v =
    option-split IsConsistent (current_slot s) (λ e. v)
      λ i e.
        if-split IsConsistent (s.tasks i).is_idle (λ idle. v)
          λ busy.
            let (l, u, at) = current_slot-lt s i e in
            put_on-IsConsistent i q _ s l u busy
              (subst (λ (k : ℕ). (max_tasks ≤ q) ⊎ (q ≡ k)) at place) v

alloc_slot-lt :
    (s : Sched) (i : ℕ)
    → alloc_slot s ≡ some i
    → (i < max_tasks) × (1 ≤ i) × ((s.tasks i).used ≡ false)
unfolding alloc_slot
alloc_slot-lt s i e = ground (arith, first_unused-lt (λ i. (s.tasks i).used) 15 1 i e)

spawn_in-IsConsistent :
    (i name entry arg : ℕ) (s : Sched)
    → i < max_tasks
    → 1 ≤ i
    → (s.tasks i).used ≡ false
    → IsConsistent s
    → IsConsistent (spawn_in i name entry arg s).1
unfolding spawn_in waitq_init
spawn_in-IsConsistent i name entry arg s l one u v =
    let c =
      renew-IsConsistent i s l v (spawned s.next_tid (parent_of_new s) name entry arg)
        (not_waiting i s l v (ground arith)) refl
        (record {
          counted = stdio-IsCounted;
          queued = λ b. cc;
          idle = ground arith;
          root = λ z. absurd (omega (arith, z, one));
          has_entry = λ u. refl;
        }) in
    record { links = c.0; sound = c.1 }

pub spawn-IsConsistent :
    (name : ℕ) (entry : Option ℕ) (arg : ℕ) (s : Sched)
    → IsConsistent s
    → IsConsistent (spawn name entry arg s).1
unfolding spawn
spawn-IsConsistent name none arg s v = v
spawn-IsConsistent name (some e) arg s v =
    option-split (λ (r : ℕ × Sched). IsConsistent r.1) (alloc_slot s) (λ x. v)
      λ i found.
        let (l, one, u) = alloc_slot-lt s i found in spawn_in-IsConsistent i name e arg s l one u v
