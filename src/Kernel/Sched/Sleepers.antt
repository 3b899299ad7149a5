-- ===== src/Kernel/Sched/Sleepers.antt =====
-- What a tick does to each task.
use lamp_vm.Common.Tests.{
  ℕ, zero, suc, ◌+◌, ◌<◌, ◌≤◌, ◌≡◌, ◌≢◌, refl, sym, ap, ◌∙◌, subst, inl, inr, Bool, true, false,
  ◌&&◌, ◌||◌, not, ltb, ◌==◌, if◌then◌else◌, if-split, if-both, option-split, eq-cases, arith,
}
use lamp_vm.Common.Arrays.{update_ne}
use lamp_vm.Common.Word.{add32}
use lamp_vm.Kernel.Sched.{Slot, Sched, max_tasks, waits, is_running, awaken, detach_waitq}
use lamp_vm.Kernel.Sched.Ticks.{
  wake_sleeper, wake_sleepers_from, try_wake_sleepers, charge_quantum, schedule_tick,
}
use lamp_vm.Kernel.Sched.Consistent.{IsConsistent, wake_sleeper-IsConsistent}
use lamp_vm.Kernel.Sched.Wake.{awakened, awaken-Woken}

-- What the tick `now` does to a task.
abbrev woken_at : ℕ → Slot → Slot
woken_at now t =
    if not t.used
    then t
    else if not (waits t.state)
    then t
    else if t.wake_tick == 0 || ltb now t.wake_tick
    then t
    else awakened t

module _ (now i : ℕ) (s : Sched) (l : i < max_tasks) (v : IsConsistent s) where
  wake_sleeper_self : (wake_sleeper now i s).tasks i ≡ woken_at now (s.tasks i)
  unfolding wake_sleeper
  wake_sleeper_self =
      both_ways (not (s.tasks i).used) (not (waits (s.tasks i).state))
        ((s.tasks i).wake_tick == 0 || ltb now (s.tasks i).wake_tick)
    where
      both_ways :
          (a b c : Bool)
          → (if a then s else if b then s else if c then s else awaken i s).tasks i ≡ (
              if a
              then s.tasks i
              else if b
              then s.tasks i
              else if c
              then s.tasks i
              else awakened (s.tasks i))
      both_ways true b c = refl
      both_ways false true c = refl
      both_ways false false true = refl
      both_ways false false false = (awaken-Woken i s l v.links).self

  wake_sleeper_others : (j : ℕ) → j ≢ i → (wake_sleeper now i s).tasks j ≡ s.tasks j
  unfolding wake_sleeper
  wake_sleeper_others j ne =
      let P : Sched → Type 0 = λ g. g.tasks j ≡ s.tasks j in
      if-both P (not (s.tasks i).used) refl (
        if-both P (not (waits (s.tasks i).state)) refl (
          if-both P ((s.tasks i).wake_tick == 0 || ltb now (s.tasks i).wake_tick) refl
            ((awaken-Woken i s l v.links).others j ne)))

wake_sleepers_from-eq :
    (now rounds i : ℕ) (s : Sched)
    → rounds + i ≤ max_tasks
    → IsConsistent s
    → (j : ℕ)
    → (j < i → (wake_sleepers_from now rounds i s).tasks j ≡ s.tasks j)
      × (i ≤ j
          → j < rounds + i
          → (wake_sleepers_from now rounds i s).tasks j ≡ woken_at now (s.tasks j))
unfolding wake_sleepers_from
wake_sleepers_from-eq now zero i s l v j = (λ b. refl, λ a b. absurd (omega (arith, a, b)))
wake_sleepers_from-eq now (suc rounds) i s l v j =
    let here : i < max_tasks = omega (arith, l) in
    let s' = wake_sleeper now i s in
    let (before, after) =
      wake_sleepers_from-eq now rounds (suc i) s' (omega (arith, l))
        (wake_sleeper-IsConsistent i s here v now) j in
    (
      λ b.
          before (omega (arith, b))
          ∙ wake_sleeper_others now i s here v j (λ e. omega (arith, e, b)),
      λ a b. elim (eq-cases j i) [
        | inl e ↦
            before (omega (arith, e))
            ∙ subst (λ (k : ℕ). s'.tasks k ≡ woken_at now (s.tasks k)) (sym e)
                (wake_sleeper_self now i s here v)
        | inr ne ↦
            after (omega (arith, a, ne)) (omega (arith, b))
            ∙ ap (woken_at now) (wake_sleeper_others now i s here v j ne)
      ],
    )

charge_quantum_others :
    (s : Sched) (j : ℕ)
    → is_running (s.tasks j).state ≡ false
    → (charge_quantum s).tasks j ≡ s.tasks j
unfolding charge_quantum
charge_quantum_others s j e =
    let t = s.tasks s.current_idx in
    if-split (λ (g : Sched). g.tasks j ≡ s.tasks j)
      (ltb s.current_idx max_tasks && (t.used && not t.is_idle && is_running t.state))
      (λ runs. update_ne s.tasks s.current_idx j _ (λ same. apart same runs)) (λ rests. refl)
  where
    apart :
        s.current_idx ≡ j
        → (ltb s.current_idx max_tasks
            && ((s.tasks s.current_idx).used
                && not (s.tasks s.current_idx).is_idle
                && is_running (s.tasks s.current_idx).state))
          ≡ true
        → ⊥
    apart same runs =
        let here : is_running (s.tasks s.current_idx).state ≡ false =
          subst (λ (k : ℕ). is_running (s.tasks k).state ≡ false) (sym same) e in
        ground (arith, here, runs)

woken_at-running :
    (now : ℕ) (t : Slot) → is_running t.state ≡ false → is_running (woken_at now t).state ≡ false
woken_at-running now t e =
    let P : Slot → Type 0 = λ u. is_running u.state ≡ false in
    if-both P (not t.used) e (
      if-both P (not (waits t.state)) e
        (if-both P (t.wake_tick == 0 || ltb now t.wake_tick) e refl))

-- What a tick does to a task that is not running.
pub schedule_tick-woken_at :
    (s : Sched) (j : ℕ)
    → IsConsistent s
    → j < max_tasks
    → is_running (s.tasks j).state ≡ false
    → (schedule_tick s).tasks j ≡ woken_at (add32 s.ticks 1) (s.tasks j)
unfolding schedule_tick try_wake_sleepers
schedule_tick-woken_at s j v l e =
    let now = add32 s.ticks 1 in
    let s' = wake_sleepers_from now 16 0 (record s { ticks = now }) in
    let woken : s'.tasks j ≡ woken_at now (s.tasks j) =
      (wake_sleepers_from-eq now 16 0 (record s { ticks = now }) (omega arith)
          (record { links = v.links; sound = v.sound }) j).1
        (omega arith) l in
    charge_quantum_others s' j
      (ap (λ t. is_running t.state) woken ∙ woken_at-running now (s.tasks j) e)
    ∙ woken

-- The clock of ticks.
awaken_ticks : (i : ℕ) (s : Sched) → (awaken i s).ticks ≡ s.ticks
unfolding detach_waitq
awaken_ticks i s =
    option-split (λ (g : Sched). g.ticks ≡ s.ticks) (s.tasks i).waitq (λ e. refl) (λ q e. refl)

wake_sleeper_ticks : (now i : ℕ) (s : Sched) → (wake_sleeper now i s).ticks ≡ s.ticks
unfolding wake_sleeper
wake_sleeper_ticks now i s =
    let P : Sched → Type 0 = λ g. g.ticks ≡ s.ticks in
    if-both P (not (s.tasks i).used) refl (
      if-both P (not (waits (s.tasks i).state)) refl (
        if-both P ((s.tasks i).wake_tick == 0 || ltb now (s.tasks i).wake_tick) refl
          (awaken_ticks i s)))

wake_sleepers_from_ticks :
    (now rounds i : ℕ) (s : Sched) → (wake_sleepers_from now rounds i s).ticks ≡ s.ticks
unfolding wake_sleepers_from
wake_sleepers_from_ticks now zero i s = refl
wake_sleepers_from_ticks now (suc rounds) i s =
    wake_sleepers_from_ticks now rounds (suc i) (wake_sleeper now i s) ∙ wake_sleeper_ticks now i s

charge_quantum_ticks : (s : Sched) → (charge_quantum s).ticks ≡ s.ticks
unfolding charge_quantum
charge_quantum_ticks s =
    let t = s.tasks s.current_idx in
    if-both (λ (g : Sched). g.ticks ≡ s.ticks)
      (ltb s.current_idx max_tasks && (t.used && not t.is_idle && is_running t.state)) refl refl

pub schedule_tick_ticks : (s : Sched) → (schedule_tick s).ticks ≡ add32 s.ticks 1
unfolding schedule_tick try_wake_sleepers
schedule_tick_ticks s =
    let now = add32 s.ticks 1 in
    charge_quantum_ticks (wake_sleepers_from now 16 0 (record s { ticks = now }))
    ∙ wake_sleepers_from_ticks now 16 0 (record s { ticks = now })
