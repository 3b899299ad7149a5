-- ===== src/Kernel/Sched/Wake.antt =====
-- Whom the wake calls wake.
use lamp_vm.Common.Tests.{
  ℕ, zero, suc, ◌+◌, ◌<◌, ◌≤◌, ◌≡◌, ◌≢◌, refl, sym, ap, ◌∙◌, subst, inl, inr, true, false, ◌||◌,
  not, if◌then◌else◌, if-true, if-false, if-split, if-both, eq-cases, arith,
}
use lamp_vm.Common.Arrays.{update_self, update_ne}
use lamp_vm.Kernel.Sched.{Slot, Sched, max_tasks, waits, detach_waitq, awake, awaken}
use lamp_vm.Kernel.Sched.Waits.{
  wake_slot, wake_one_from, waitq_wake_one, wake_all_from, waitq_wake_all,
}
use lamp_vm.Kernel.Sched.Queue.{test_bit}
use lamp_vm.Kernel.Sched.Linked.{IsLinked, is_on}
use lamp_vm.Kernel.Sched.Consistent.{
  IsConsistent, detached, detach_waitq-Detached, wake_slot-IsConsistent,
}

-- A task that was woken: off its queue, runnable, with no deadline and a fresh quantum.
abbrev pub awakened : Slot → Slot
awakened t = awake (detached t)

abbrev pub woken_if : ℕ → Slot → Slot
woken_if q t = if is_on t.waitq q then awakened t else t

-- Slot `i` was woken and the others are as before.
pub record Woken (i : ℕ) (s g : Sched) : Type 0 where
  pub self : g.tasks i ≡ awakened (s.tasks i)
  pub others : (j : ℕ) → j ≢ i → g.tasks j ≡ s.tasks j

pub awaken-Woken :
    (i : ℕ) (s : Sched) → i < max_tasks → IsLinked s.tasks s.queues → Woken i s (awaken i s)
unfolding detach_waitq
awaken-Woken i s l v =
    let d = detach_waitq-Detached i s l v in
    record {
      self =
          update_self (detach_waitq i s).tasks i (awake ((detach_waitq i s).tasks i))
          ∙ ap awake d.self;
      others = λ j ne.
          update_ne (detach_waitq i s).tasks i j (awake ((detach_waitq i s).tasks i))
            (λ e. ne (sym e))
          ∙ d.others j ne;
    }

module _ (q i : ℕ) (s : Sched) (l : i < max_tasks) (v : IsConsistent s) where
  wake_slot-Woken : is_on (s.tasks i).waitq q ≡ true → Woken i s (wake_slot i s)
  unfolding wake_slot
  wake_slot-Woken on =
      let ready = v.links.waiting i q l on in
      if-split (Woken i s) (not (s.tasks i).used || (s.tasks i).is_idle)
        (λ e. absurd (ground (arith, ready)))
        λ e.
          if-split (Woken i s) (not (waits (s.tasks i).state))
            (λ e'. absurd (ground (arith, ready))) λ e'. awaken-Woken i s l v.links

  -- The next step of the loop of `wake_all`.
  abbrev stepped : Sched
  stepped = if not (test_bit (s.queues q) i) then s else wake_slot i s

  stepped-IsConsistent : IsConsistent stepped
  stepped-IsConsistent =
      if-both IsConsistent (not (test_bit (s.queues q) i)) v (wake_slot-IsConsistent i s l v)

  stepped_others : (j : ℕ) → j ≢ i → stepped.tasks j ≡ s.tasks j
  stepped_others j ne =
      if-split (λ (g : Sched). g.tasks j ≡ s.tasks j) (not (test_bit (s.queues q) i)) (λ off. refl)
        (λ on. (wake_slot-Woken (ground (arith, v.links.linked i q l))).others j ne)

  stepped_self : stepped.tasks i ≡ woken_if q (s.tasks i)
  stepped_self =
      if-split (λ (g : Sched). g.tasks i ≡ woken_if q (s.tasks i)) (not (test_bit (s.queues q) i))
        (λ off.
          let no_wait : is_on (s.tasks i).waitq q ≡ false = ground (arith, v.links.linked i q l) in
          sym (if-false _ _ no_wait))
        (λ on.
          let wait : is_on (s.tasks i).waitq q ≡ true = ground (arith, v.links.linked i q l) in
          (wake_slot-Woken wait).self ∙ sym (if-true _ _ wait))

wake_all_from-eq :
    (q rounds i : ℕ) (s : Sched)
    → rounds + i ≤ max_tasks
    → IsConsistent s
    → (j : ℕ)
    → (j < i → (wake_all_from q rounds i s).tasks j ≡ s.tasks j)
      × (i ≤ j → j < rounds + i → (wake_all_from q rounds i s).tasks j ≡ woken_if q (s.tasks j))
unfolding wake_all_from
wake_all_from-eq q zero i s l v j = (λ b. refl, λ a b. absurd (omega (arith, a, b)))
wake_all_from-eq q (suc rounds) i s l v j =
    let here : i < max_tasks = omega (arith, l) in
    let s' = stepped q i s here v in
    let (before, after) =
      wake_all_from-eq q rounds (suc i) s' (omega (arith, l)) (stepped-IsConsistent q i s here v)
        j in
    (
      λ b. before (omega (arith, b)) ∙ stepped_others q i s here v j (λ e. omega (arith, e, b)),
      λ a b. elim (eq-cases j i) [
        | inl e ↦
            before (omega (arith, e))
            ∙ subst (λ (k : ℕ). s'.tasks k ≡ woken_if q (s.tasks k)) (sym e)
                (stepped_self q i s here v)
        | inr ne ↦
            after (omega (arith, a, ne)) (omega (arith, b))
            ∙ ap (woken_if q) (stepped_others q i s here v j ne)
      ],
    )

-- Slot 0, which is idle, is on no queue.
idle_off : (s : Sched) (q : ℕ) → IsConsistent s → is_on (s.tasks 0).waitq q ≡ false
idle_off s q v = ground (arith, v.links.waiting 0 q (omega arith), (v.sound 0 (omega arith)).idle)

-- In consistent tables, waking all of a queue makes every task that stands on it runnable, off the
-- queue, with no deadline and a fresh quantum, and leaves every other task as it was.
pub waitq_wake_all-woken_if :
    (q : ℕ) (s : Sched)
    → IsConsistent s
    → (j : ℕ) → j < max_tasks
    → (waitq_wake_all q s).tasks j ≡ woken_if q (s.tasks j)
unfolding waitq_wake_all
waitq_wake_all-woken_if q s v j l =
    let (before, after) = wake_all_from-eq q 15 1 s (omega arith) v j in
    elim (eq-cases j 0) [
      | inl e ↦
          before (omega (arith, e))
          ∙ subst (λ (k : ℕ). s.tasks k ≡ woken_if q (s.tasks k)) (sym e)
              (sym (if-false _ _ (idle_off s q v)))
      | inr ne ↦ after (omega (arith, ne)) (omega (arith, l))
    ]

-- What `wake_one` does on a queue from index `i` on.
pub data WakesOne (q low : ℕ) (s g : Sched) : Type 0 where
  nobody :
      ((j : ℕ) → low ≤ j → j < max_tasks → is_on (s.tasks j).waitq q ≡ false)
      → g ≡ s
      → WakesOne q low s g
  lowest :
      (i : ℕ)
      → low ≤ i
      → i < max_tasks
      → is_on (s.tasks i).waitq q ≡ true
      → ((j : ℕ) → low ≤ j → j < i → is_on (s.tasks j).waitq q ≡ false)
      → Woken i s g
      → WakesOne q low s g

weaken :
    (q i : ℕ) (s g : Sched)
    → is_on (s.tasks i).waitq q ≡ false
    → WakesOne q (suc i) s g
    → WakesOne q i s g
weaken q i s g off (nobody none_on same) =
    nobody
      (λ j a b. elim (eq-cases j i) [
        | inl e ↦ subst (λ (k : ℕ). is_on (s.tasks k).waitq q ≡ false) (sym e) off
        | inr ne ↦ none_on j (omega (arith, a, ne)) b
      ])
      same
weaken q i s g off (lowest k a b on first w) =
    lowest k (omega (arith, a)) b on
      (λ j c d. elim (eq-cases j i) [
        | inl e ↦ subst (λ (n : ℕ). is_on (s.tasks n).waitq q ≡ false) (sym e) off
        | inr ne ↦ first j (omega (arith, c, ne)) d
      ])
      w

wake_one_from-WakesOne :
    (q rounds i : ℕ) (s : Sched)
    → rounds + i ≡ max_tasks
    → IsConsistent s
    → WakesOne q i s (wake_one_from q rounds i s)
unfolding wake_one_from
wake_one_from-WakesOne q zero i s l v = nobody (λ j a b. absurd (omega (arith, a, b, l))) refl
wake_one_from-WakesOne q (suc rounds) i s l v =
    let here : i < max_tasks = omega (arith, l) in
    if-split (WakesOne q i s) (not (test_bit (s.queues q) i))
      (λ off.
        weaken q i s (wake_one_from q rounds (suc i) s) (ground (arith, v.links.linked i q here))
          (wake_one_from-WakesOne q rounds (suc i) s (omega (arith, l)) v))
      (λ on.
        let wait : is_on (s.tasks i).waitq q ≡ true = ground (arith, v.links.linked i q here) in
        lowest i (omega arith) here wait (λ j a b. absurd (omega (arith, a, b)))
          (wake_slot-Woken q i s here v wait))

-- In consistent tables, waking one of a queue wakes the task with the lowest slot that stands on
-- it and leaves the other tasks as they were; on a queue where nobody stands it changes nothing.
pub waitq_wake_one-WakesOne :
    (q : ℕ) (s : Sched) → IsConsistent s → WakesOne q 0 s (waitq_wake_one q s)
unfolding waitq_wake_one
waitq_wake_one-WakesOne q s v =
    weaken q 0 s (wake_one_from q 15 1 s) (idle_off s q v) (wake_one_from-WakesOne q 15 1 s refl v)
