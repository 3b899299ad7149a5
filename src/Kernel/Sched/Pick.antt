-- ===== src/Kernel/Sched/Pick.antt =====
-- Which task runs next.
use lamp_vm.Common.Tests.{
  ℕ, zero, suc, ◌+◌, ◌-◌, ◌%◌, ◌<◌, ◌≤◌, ◌≡◌, refl, sym, ap, ◌∙◌, subst, inl, inr, ◌⊎◌, true, false,
  ◌||◌, not, Option, none, some, if-false, if-split, if-both, option-split, eq-cases, lt-cases,
  arith,
}
use lamp_vm.Common.Word.{add32}
use lamp_vm.Kernel.Sched.{Slot, Sched, max_tasks, set_slot}
use lamp_vm.Kernel.Sched.Ticks.{idx_runnable, pick_from, pick_next_idx}
use lamp_vm.Kernel.Sched.Loop.{started, finished, is_ready, run_slot, run_round, repicked}
use lamp_vm.Kernel.Sched.Consistent.{IsConsistent, IsSound, is_some}

-- The slot `k + 1` places after the current one, cyclically.
abbrev pub place : Sched → ℕ → ℕ
place s k = (s.current_idx + suc k) % max_tasks

-- From `k` places on the first runnable task is picked, and slot 0 if there is none.
pub data Picks (s : Sched) (low r : ℕ) : Type 0 where
  first :
      (k : ℕ)
      → low ≤ k
      → k < max_tasks
      → r ≡ place s k
      → idx_runnable s r ≡ true
      → ((j : ℕ) → low ≤ j → j < k → idx_runnable s (place s j) ≡ false)
      → Picks s low r
  nobody :
      r ≡ 0
      → ((j : ℕ) → low ≤ j → j < max_tasks → idx_runnable s (place s j) ≡ false)
      → Picks s low r

skip :
    (s : Sched) (low r : ℕ)
    → idx_runnable s (place s low) ≡ false
    → Picks s (suc low) r
    → Picks s low r
skip s low r off (first k a b e on before) = first k (omega (arith, a)) b e on (λ j c d.
    elim (eq-cases j low) [
      | inl e' ↦ subst (λ (n : ℕ). idx_runnable s (place s n) ≡ false) (sym e') off
      | inr ne ↦ before j (omega (arith, c, ne)) d
    ])
skip s low r off (nobody e none_on) = nobody e (λ j c d. elim (eq-cases j low) [
  | inl e' ↦ subst (λ (n : ℕ). idx_runnable s (place s n) ≡ false) (sym e') off
  | inr ne ↦ none_on j (omega (arith, c, ne)) d
])

pick_from-Picks :
    (s : Sched) (rounds low : ℕ)
    → s.current_idx < max_tasks
    → rounds + low ≡ max_tasks
    → Picks s low (pick_from s rounds (suc low))
unfolding pick_from
pick_from-Picks s zero low c l = nobody refl (λ j a b. absurd (omega (arith, a, b, l)))
pick_from-Picks s (suc rounds) low c l =
    let at : add32 s.current_idx (suc low) % max_tasks ≡ place s low = omega (arith, c, l) in
    if-split (Picks s low) (idx_runnable s (add32 s.current_idx (suc low) % max_tasks))
      (λ on.
        first low (omega arith) (omega (arith, l)) at on (λ j a b. absurd (omega (arith, a, b))))
      (λ off.
        skip s low (pick_from s rounds (suc (suc low)))
          (subst (λ (i : ℕ). idx_runnable s i ≡ false) at off)
          (pick_from-Picks s rounds (suc low) c (omega (arith, l))))

-- The tasks between the current one and `i`, cyclically.
abbrev pub ahead : ℕ → ℕ → ℕ
ahead current i = (i + 15 - current) % max_tasks

-- The search is round robin: it starts after the current task and picks the first runnable one, so
-- every runnable task is picked or comes closer to its turn.
pub pick_next_idx-ahead :
    (s : Sched) (i : ℕ)
    → s.current_idx < max_tasks
    → i < max_tasks
    → idx_runnable s i ≡ true
    → (idx_runnable s (pick_next_idx s) ≡ true)
      × ((pick_next_idx s ≡ i) ⊎ (ahead (pick_next_idx s) i < ahead s.current_idx i))
unfolding pick_next_idx
pick_next_idx-ahead s i c l on = closer (pick_from s 16 1) (pick_from-Picks s 16 0 c refl)
  where
    turn : i ≡ place s (ahead s.current_idx i)
    turn = omega (arith, c, l)

    on_turn : idx_runnable s (place s (ahead s.current_idx i)) ≡ true
    on_turn = subst (λ (n : ℕ). idx_runnable s n ≡ true) turn on

    closer :
        (r : ℕ)
        → Picks s 0 r
        → (idx_runnable s r ≡ true) × ((r ≡ i) ⊎ (ahead r i < ahead s.current_idx i))
    closer r (nobody e none_on) =
        absurd
          (ground (arith, on_turn, none_on (ahead s.current_idx i) (omega arith) (omega arith)))
    closer r (first k a b e runs before) = (
      runs,
      elim (lt-cases (ahead s.current_idx i) k) [
        | inl passed ↦
            absurd (ground (arith, on_turn, before (ahead s.current_idx i) (omega arith) passed))
        | inr reached ↦ elim (eq-cases k (ahead s.current_idx i)) [
          | inl same ↦ inl (e ∙ ap (place s) same ∙ sym turn)
          | inr ne ↦ inr (omega (arith, c, l, e, b, reached, ne))
        ]
      ],
    )

-- The task that a round runs is used and runnable, and has an entry.
runnable-is_ready :
    (s : Sched) (i : ℕ) → idx_runnable s i ≡ true → (i < max_tasks) × (is_ready (s.tasks i) ≡ true)
unfolding idx_runnable
runnable-is_ready s i e = ground arith

pick_next_idx-is_ready :
    (s : Sched)
    → s.current_idx < max_tasks
    → is_ready (s.tasks 0) ≡ true
    → (pick_next_idx s < max_tasks) × (is_ready (s.tasks (pick_next_idx s)) ≡ true)
unfolding pick_next_idx
pick_next_idx-is_ready s c root = elim (pick_from-Picks s 16 0 c refl) [
  | first k a b e on before ↦ runnable-is_ready s (pick_from s 16 1) on
  | nobody e none_on ↦
      subst (λ (i : ℕ). (i < max_tasks) × (is_ready (s.tasks i) ≡ true)) (sym e) (omega arith, root)
]

repicked-is_ready :
    (s : Sched)
    → s.current_idx < max_tasks
    → is_ready (s.tasks 0) ≡ true
    → ((repicked s).current_idx < max_tasks)
      × (is_ready ((repicked s).tasks (repicked s).current_idx) ≡ true)
unfolding repicked
repicked-is_ready s c root =
    if-split
      (λ (g : Sched). (g.current_idx < max_tasks) × (is_ready (g.tasks g.current_idx) ≡ true))
      (s.need_resched || not (idx_runnable s s.current_idx)) (λ e. pick_next_idx-is_ready s c root)
      (λ e. runnable-is_ready s s.current_idx (ground arith))

repicked-tasks : (s : Sched) → (repicked s).tasks ≡ s.tasks
unfolding repicked
repicked-tasks s =
    if-both (λ (g : Sched). g.tasks ≡ s.tasks)
      (s.need_resched || not (idx_runnable s s.current_idx)) refl refl

entry_of : (i : ℕ) (t : Slot) → IsSound i t → is_ready t ≡ true → (e : ℕ) × (t.entry ≡ some e)
entry_of i t h r = some_entry t.entry (h.has_entry (ground arith))
  where
    some_entry : (o : Option ℕ) → is_some o ≡ true → (e : ℕ) × (o ≡ some e)
    some_entry none x = absurd (ground arith)
    some_entry (some e) x = (e, refl)

module _ (call : ℕ → ℕ → ℕ → Sched → Sched) where
  run_slot_lem :
      (i : ℕ) (s : Sched) (e : ℕ)
      → is_ready (s.tasks i) ≡ true
      → (s.tasks i).entry ≡ some e
      → run_slot call i s
        ≡ some (set_slot i finished (call e i (s.tasks i).arg (set_slot i started s)))
  unfolding run_slot
  run_slot_lem i s e ready at =
      let ran =
        λ (k : ℕ). some (set_slot i finished (call k i (s.tasks i).arg (set_slot i started s))) in
      if-false none _ (ap not ready)
      ∙ option-split (λ (r : Option Sched). r ≡ ran e) (s.tasks i).entry
          (λ missing. absurd (ground (arith, at, missing)))
          (λ k found. ap ran (ground (arith, at, found)))

  -- In consistent tables with slot 0 runnable, every round of the loop runs the entry of a slot
  -- that is used and runnable, which is marked as running meanwhile.
  pub run_round-runs :
      (s : Sched)
      → IsConsistent s
      → s.current_idx < max_tasks
      → is_ready (s.tasks 0) ≡ true
      → (i : ℕ) × (e : ℕ) × (is_ready (s.tasks i) ≡ true)
        × ((s.tasks i).entry ≡ some e)
        × (i ≡ (repicked s).current_idx)
        × (run_round call s
            ≡ set_slot i finished (call e i (s.tasks i).arg (set_slot i started (repicked s))))
  unfolding run_round
  run_round-runs s v c root =
      let (l, ready) = repicked-is_ready s c root in
      let i = (repicked s).current_idx in
      let same = repicked-tasks s in
      let ready' : is_ready (s.tasks i) ≡ true =
        subst (λ (ts : ℕ → Slot). is_ready (ts i) ≡ true) same ready in
      let (e, at) = entry_of i (s.tasks i) (v.sound i l) ready' in
      let at' : ((repicked s).tasks i).entry ≡ some e =
        ap (λ (ts : ℕ → Slot). (ts i).entry) same ∙ at in
      let ran = run_slot_lem i (repicked s) e ready at' in
      (
        i,
        e,
        ready',
        at,
        refl,
        ap
              (λ (o : Option Sched). elim o [
                | none ↦ record (repicked s) { need_resched = true }
                | some s'' ↦ s''
              ])
              ran
            ∙ ap
                (λ (ts : ℕ → Slot).
                  set_slot i finished (call e i (ts i).arg (set_slot i started (repicked s))))
                same,
      )
