-- ===== src/Kernel/Sched/Switches.antt =====
-- Ticks, wakes, sleeps and yields keep queues and tasks in agreement.
use lamp_vm.Common.Tests.{
  ℕ, zero, suc, ◌+◌, ◌<◌, ◌≤◌, ◌≡◌, refl, sym, ◌∙◌, subst, true, ◌&&◌, not, some, ltb, ◌==◌,
  if◌then◌else◌, if-split, if-both, option-split, arith,
}
use lamp_vm.Common.Arrays.{update}
use lamp_vm.Common.Word.{add32}
use lamp_vm.Kernel.Files.Counts.{IsCounted}
use lamp_vm.Kernel.Sched.{Slot, Sched, runnable, sleeping, max_tasks, current_slot, is_running}
use lamp_vm.Kernel.Sched.Ticks.{
  wake_sleeper, wake_sleepers_from, try_wake_sleepers, yield_task, charge_quantum, schedule_tick,
  sleep_ticks,
}
use lamp_vm.Kernel.Sched.Waits.{wake_one_from, waitq_wake_one, wake_all_from, waitq_wake_all}
use lamp_vm.Kernel.Sched.Queue.{test_bit}
use lamp_vm.Kernel.Sched.Linked.{IsLinked}
use lamp_vm.Kernel.Sched.Consistent.{
  IsConsistent, IsSound, set_slot-IsConsistent, wake_sleeper-IsConsistent, wake_slot-IsConsistent,
}

pub wake_sleepers_from-IsConsistent :
    (now rounds i : ℕ) (s : Sched)
    → rounds + i ≤ max_tasks
    → IsConsistent s
    → IsConsistent (wake_sleepers_from now rounds i s)
unfolding wake_sleepers_from
wake_sleepers_from-IsConsistent now zero i s l v = v
wake_sleepers_from-IsConsistent now (suc rounds) i s l v =
    wake_sleepers_from-IsConsistent now rounds (suc i) (wake_sleeper now i s) (omega (arith, l))
      (wake_sleeper-IsConsistent i s (omega (arith, l)) v now)

pub wake_all_from-IsConsistent :
    (q rounds i : ℕ) (s : Sched)
    → rounds + i ≤ max_tasks
    → IsConsistent s
    → IsConsistent (wake_all_from q rounds i s)
unfolding wake_all_from
wake_all_from-IsConsistent q zero i s l v = v
wake_all_from-IsConsistent q (suc rounds) i s l v =
    wake_all_from-IsConsistent q rounds (suc i) _ (omega (arith, l)) (
      if-both IsConsistent (not (test_bit (s.queues q) i)) v
        (wake_slot-IsConsistent i s (omega (arith, l)) v))

pub wake_one_from-IsConsistent :
    (q rounds i : ℕ) (s : Sched)
    → rounds + i ≤ max_tasks
    → IsConsistent s
    → IsConsistent (wake_one_from q rounds i s)
unfolding wake_one_from
wake_one_from-IsConsistent q zero i s l v = v
wake_one_from-IsConsistent q (suc rounds) i s l v =
    if-both IsConsistent (not (test_bit (s.queues q) i))
      (wake_one_from-IsConsistent q rounds (suc i) s (omega (arith, l)) v)
      (wake_slot-IsConsistent i s (omega (arith, l)) v)

pub waitq_wake_all-IsConsistent :
    (q : ℕ) (s : Sched) → IsConsistent s → IsConsistent (waitq_wake_all q s)
unfolding waitq_wake_all
waitq_wake_all-IsConsistent q s v = wake_all_from-IsConsistent q 15 1 s (omega arith) v

pub waitq_wake_one-IsConsistent :
    (q : ℕ) (s : Sched) → IsConsistent s → IsConsistent (waitq_wake_one q s)
unfolding waitq_wake_one
waitq_wake_one-IsConsistent q s v = wake_one_from-IsConsistent q 15 1 s (omega arith) v

pub current_slot-lt :
    (s : Sched) (i : ℕ)
    → current_slot s ≡ some i
    → (i < max_tasks) × ((s.tasks i).used ≡ true) × (s.current_idx ≡ i)
unfolding current_slot
current_slot-lt s i e = ground arith

pub yield_task-IsConsistent : (s : Sched) → IsConsistent s → IsConsistent (yield_task s)
unfolding yield_task
yield_task-IsConsistent s v =
    option-split IsConsistent (current_slot s) (λ e. v)
      λ i e.
        let (l, u, at) = current_slot-lt s i e in
        let old = v.sound i l in
        let t : Slot = record (s.tasks i) {
          state = if is_running (s.tasks i).state then runnable else (s.tasks i).state;
          quantum_used = 0;
        } in
        let c =
          set_slot-IsConsistent i s l v t refl (λ q o. ground (arith, v.links.waiting i q l))
            (record {
              counted = old.counted;
              queued = λ b. ground (arith, old.queued);
              idle = old.idle;
              root = λ z. ground (arith, old.root z);
              has_entry = old.has_entry;
            }) in
        record { links = c.0; sound = c.1 }

-- A running or runnable task, or one that waits as before, keeps its place.
module _ (s : Sched) (v : IsConsistent s) (i : ℕ) (l : i < max_tasks) (t : Slot) where
  pub same_place :
      t.waitq ≡ (s.tasks i).waitq
      → t.files ≡ (s.tasks i).files
      → t.state ≡ (s.tasks i).state
      → t.is_idle ≡ (s.tasks i).is_idle
      → t.used ≡ (s.tasks i).used
      → t.entry ≡ (s.tasks i).entry
      → IsLinked (update s.tasks i t) s.queues
        × ((j : ℕ) → j < max_tasks → IsSound j (update s.tasks i t j))
  same_place w f st id u en =
      let old = v.sound i l in
      set_slot-IsConsistent i s l v t w (λ q o. ground (arith, v.links.waiting i q l))
        (record {
          counted = subst IsCounted (sym f) old.counted;
          queued = λ b. ground (arith, old.queued);
          idle = id ∙ old.idle;
          root = λ z. ground (arith, old.root z);
          has_entry = ground (arith, old.has_entry);
        })

pub charge_quantum-IsConsistent : (s : Sched) → IsConsistent s → IsConsistent (charge_quantum s)
unfolding charge_quantum
charge_quantum-IsConsistent s v =
    let t = s.tasks s.current_idx in
    if-split IsConsistent
      (ltb s.current_idx max_tasks && (t.used && not t.is_idle && is_running t.state))
      (λ e.
        let c =
          same_place s v s.current_idx (ground arith)
            (record t { quantum_used = add32 t.quantum_used 1 }) refl refl refl refl refl refl in
        record { links = c.0; sound = c.1 })
      (λ e. v)

pub schedule_tick-IsConsistent : (s : Sched) → IsConsistent s → IsConsistent (schedule_tick s)
unfolding schedule_tick try_wake_sleepers
schedule_tick-IsConsistent s v =
    let now = add32 s.ticks 1 in
    charge_quantum-IsConsistent (wake_sleepers_from now 16 0 (record s { ticks = now })) (
      wake_sleepers_from-IsConsistent now 16 0 (record s { ticks = now }) (omega arith)
        (record { links = v.links; sound = v.sound }))

pub sleep_ticks-IsConsistent :
    (ticks : ℕ) (s : Sched) → IsConsistent s → IsConsistent (sleep_ticks ticks s)
unfolding sleep_ticks
sleep_ticks-IsConsistent ticks s v =
    option-split IsConsistent (current_slot s) (λ e. v)
      λ i e.
        if-split IsConsistent (s.tasks i).is_idle (λ idle. v)
          λ busy.
            let (l, u, at) = current_slot-lt s i e in
            let old = v.sound i l in
            let c =
              set_slot-IsConsistent i s l v
                (record (s.tasks i) {
                  wake_tick = add32 s.ticks (if ticks == 0 then 1 else ticks);
                  state = sleeping;
                  quantum_used = 0;
                })
                refl (λ q o. ground arith)
                (record {
                  counted = old.counted;
                  queued = λ b. cc;
                  idle = old.idle;
                  root = λ z. ground (arith, old.idle);
                  has_entry = old.has_entry;
                }) in
            record { links = c.0; sound = c.1 }
