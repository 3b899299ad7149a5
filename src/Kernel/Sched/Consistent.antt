-- ===== src/Kernel/Sched/Consistent.antt =====
-- The invariant of the scheduler's tables, and the changes that every call is made of.
use lamp_vm.Common.Tests.{
  ℕ, ◌<◌, ◌≡◌, ◌≢◌, refl, sym, ap, ◌∙◌, subst, inl, inr, Bool, true, false, ◌&&◌, ◌||◌, not, Option,
  none, some, ltb, ◌==◌, if-split, if-both, option-split, eq-cases, arith,
}
use lamp_vm.Common.Arrays.{update, update_self, update_ne}
use lamp_vm.Kernel.Files.Counts.{IsCounted}
use lamp_vm.Kernel.Sched.{
  Slot, Sched, TaskState, runnable, running, blocked, max_tasks, waits, detach_waitq, awake, awaken,
  set_slot,
}
use lamp_vm.Kernel.Sched.Ticks.{wake_sleeper}
use lamp_vm.Kernel.Sched.Waits.{wake_slot}
use lamp_vm.Kernel.Sched.Linked.{
  IsLinked, is_on, may_wait, replace-IsLinked, unlink-IsLinked, clear-IsLinked,
}

abbrev pub is_some : Option ℕ → Bool
is_some none = false
is_some (some a) = true

abbrev pub is_blocked : TaskState → Bool
is_blocked blocked = true
is_blocked _ = false

abbrev pub can_run : TaskState → Bool
can_run runnable = true
can_run running = true
can_run _ = false

-- A slot by itself: its descriptors are counted, it stands on a queue if it is blocked, exactly
-- slot 0 is idle, and slot 0 can always run. Used slots have an entry.
pub record IsSound (i : ℕ) (t : Slot) : Type 0 where
  pub counted : IsCounted t.files
  pub queued : is_blocked t.state ≡ true → is_some t.waitq ≡ true
  pub idle : t.is_idle ≡ (i == 0)
  pub root : i ≡ 0 → (t.used && can_run t.state) ≡ true
  pub has_entry : t.used ≡ true → is_some t.entry ≡ true

pub record IsConsistent (s : Sched) : Type 0 where
  pub links : IsLinked s.tasks s.queues
  pub sound : (i : ℕ) → i < max_tasks → IsSound i (s.tasks i)

-- A slot's change keeps the others sound.
pub update-IsSound :
    (tasks new : ℕ → Slot) (i : ℕ) (t : Slot)
    → ((j : ℕ) → j < max_tasks → IsSound j (tasks j))
    → ((j : ℕ) → j ≢ i → new j ≡ tasks j)
    → IsSound i t
    → (j : ℕ) → j < max_tasks
    → IsSound j (update new i t j)
update-IsSound tasks new i t all same one j l = elim (eq-cases j i) [
  | inl e ↦
      subst (λ (k : ℕ). IsSound k (update new i t k)) (sym e)
        (subst (IsSound i) (sym (update_self new i t)) one)
  | inr ne ↦ subst (IsSound j) (sym (update_ne new i j t (λ e. ne (sym e)) ∙ same j ne)) (all j l)
]

abbrev pub detached : Slot → Slot
detached t = record t { waitq = none }

-- What `detach_waitq` leaves.
pub record Detached (i : ℕ) (s g : Sched) : Type 0 where
  pub links : IsLinked g.tasks g.queues
  pub self : g.tasks i ≡ detached (s.tasks i)
  pub others : (j : ℕ) → j ≢ i → g.tasks j ≡ s.tasks j

pub detach_waitq-Detached :
    (i : ℕ) (s : Sched)
    → i < max_tasks
    → IsLinked s.tasks s.queues
    → Detached i s (detach_waitq i s)
unfolding detach_waitq
detach_waitq-Detached i s l v =
    option-split (Detached i s) (s.tasks i).waitq
      (λ e. record {
        links = v;
        self = λ k. record (s.tasks i) { waitq = e k };
        others = λ j ne. refl;
      })
      (λ p e. record {
        links =
            if-split (IsLinked (update s.tasks i (detached (s.tasks i)))) (ltb i max_tasks)
              (λ below. unlink-IsLinked s.tasks s.queues v i l (detached (s.tasks i)) p e refl)
              (λ above. absurd (ground arith));
        self = update_self s.tasks i (detached (s.tasks i));
        others = λ j ne. update_ne s.tasks i j (detached (s.tasks i)) (λ e'. ne (sym e'));
      })

module _ (i : ℕ) (s : Sched) (l : i < max_tasks) (v : IsConsistent s) where
  -- A change of a slot that keeps its queue.
  pub set_slot-IsConsistent :
      (t : Slot)
      → t.waitq ≡ (s.tasks i).waitq
      → ((q : ℕ) → is_on t.waitq q ≡ true → may_wait t ≡ true)
      → IsSound i t
      → IsLinked (update s.tasks i t) s.queues
        × ((j : ℕ) → j < max_tasks → IsSound j (update s.tasks i t j))
  set_slot-IsConsistent t e w h = (
    replace-IsLinked s.tasks s.queues v.links i l t e w,
    update-IsSound s.tasks s.tasks i t v.sound (λ j ne. refl) h,
  )

  -- A task that leaves its queue.
  pub leave-IsConsistent :
      (f : Slot → Slot)
      → (f (detached (s.tasks i))).waitq ≡ none
      → IsSound i (f (detached (s.tasks i)))
      → IsConsistent (set_slot i f (detach_waitq i s))
  leave-IsConsistent f e h =
      let d = detach_waitq-Detached i s l v.links in
      let at : f ((detach_waitq i s).tasks i) ≡ f (detached (s.tasks i)) = ap f d.self in
      let gone : (f ((detach_waitq i s).tasks i)).waitq ≡ none = ap (λ t. t.waitq) at ∙ e in
      record {
        links =
            replace-IsLinked (detach_waitq i s).tasks (detach_waitq i s).queues d.links i l
              (f ((detach_waitq i s).tasks i)) (gone ∙ sym (ap (λ t. t.waitq) d.self))
              (λ q o. ground (arith, gone));
        sound =
            update-IsSound s.tasks (detach_waitq i s).tasks i (f ((detach_waitq i s).tasks i))
              v.sound d.others (subst (IsSound i) (sym at) h);
      }

  -- A slot on no queue is given a new task, or none; its child queue is emptied.
  pub renew-IsConsistent :
      (t : Slot)
      → (s.tasks i).waitq ≡ none
      → t.waitq ≡ none
      → IsSound i t
      → IsLinked (update s.tasks i t) (update s.queues i 0)
        × ((j : ℕ) → j < max_tasks → IsSound j (update s.tasks i t j))
  renew-IsConsistent t e w h = (
    clear-IsLinked s.tasks s.queues v.links i l t e w,
    update-IsSound s.tasks s.tasks i t v.sound (λ j ne. refl) h,
  )

  -- A task that does not wait stands on no queue.
  pub not_waiting : may_wait (s.tasks i) ≡ false → (s.tasks i).waitq ≡ none
  not_waiting e = on_none (s.tasks i).waitq (λ q. v.links.waiting i q l)
    where
      on_none :
          (w : Option ℕ) → ((q : ℕ) → is_on w q ≡ true → may_wait (s.tasks i) ≡ true) → w ≡ none
      on_none none h = refl
      on_none (some q) h = absurd (ground (arith, e, h q))

  -- A waiting task becomes runnable.
  pub awaken-IsConsistent : IsConsistent (awaken i s)
  unfolding detach_waitq
  awaken-IsConsistent =
      let old = v.sound i l in
      let c = leave-IsConsistent awake refl (record {
        counted = old.counted;
        queued = λ e. cc;
        idle = old.idle;
        root = λ e. ground (arith, old.root e);
        has_entry = old.has_entry;
      }) in
      record { links = c.links; sound = c.sound }

  pub wake_sleeper-IsConsistent : (now : ℕ) → IsConsistent (wake_sleeper now i s)
  unfolding wake_sleeper
  wake_sleeper-IsConsistent now = if-both IsConsistent (not (s.tasks i).used) v (
      if-both IsConsistent (not (waits (s.tasks i).state)) v (
        if-both IsConsistent ((s.tasks i).wake_tick == 0 || ltb now (s.tasks i).wake_tick) v
          awaken-IsConsistent))

  pub wake_slot-IsConsistent : IsConsistent (wake_slot i s)
  unfolding wake_slot
  wake_slot-IsConsistent =
      if-both IsConsistent (not (s.tasks i).used || (s.tasks i).is_idle) v
        (if-both IsConsistent (not (waits (s.tasks i).state)) v awaken-IsConsistent)
