-- ===== src/Kernel/Sched/Loop.antt =====
-- kernel/src/sched.c: the loops that run tasks. A task's entry is a parameter: it is given the entry,
-- the slot and the argument, and may call the kernel. The endless loop is given round by round, and
-- the loop that waits for the current task runs on fuel.
use lamp_vm.Common.Tests.{
  ℕ, zero, suc, Bool, true, false, ◌&&◌, ◌||◌, not, Option, none, some, leb, if◌then◌else◌,
}
use lamp_vm.Common.Word.{add32}
use lamp_vm.Kernel.Sched.{
  Sched, Slot, max_tasks, runnable, running, is_runnable, is_running, waits, set_slot,
}
use lamp_vm.Kernel.Sched.Ticks.{idx_runnable, pick_next_idx}

-- A task that is picked, and one that returned.
abbrev pub started : Slot → Slot
started t = record t { state = running; run_ticks = add32 t.run_ticks 1 }

abbrev pub finished : Slot → Slot
finished t = record t { state = if is_running t.state then runnable else t.state }

abbrev pub is_ready : Slot → Bool
is_ready t = t.used && is_runnable t.state

-- The choice at the head of a round.
unfoldable pub repicked : Sched → Sched
unfolding idx_runnable pick_next_idx
repicked s =
    if s.need_resched || not (idx_runnable s s.current_idx)
    then record s { need_resched = false; current_idx = pick_next_idx s }
    else s

module _ (call : ℕ → ℕ → ℕ → Sched → Sched) where
  -- The slot runs once. A slot with no entry is not run.
  unfoldable pub run_slot : ℕ → Sched → Option Sched
  run_slot i s =
      let t = s.tasks i in
      if not (is_ready t) then none else elim t.entry [
        | none ↦ none
        | some e ↦ some (set_slot i finished (call e i t.arg (set_slot i started s)))
      ]

  unfoldable pub pump_once : Sched → Sched
  unfolding pick_next_idx run_slot
  pump_once s =
      let next = pick_next_idx s in
      if leb max_tasks next then s else elim (run_slot next (record s { current_idx = next })) [
        | none ↦ s
        | some s' ↦ record s' { current_idx = s.current_idx }
      ]

  unfoldable pub block_until_runnable : ℕ → ℕ → Sched → Option Sched
  unfolding pump_once
  block_until_runnable zero i s = none
  block_until_runnable (suc fuel) i s =
      let rest = block_until_runnable fuel i (pump_once s) in
      if (s.tasks i).used && waits (s.tasks i).state then rest else some s

  -- One round of `sched_run`.
  unfoldable pub run_round : Sched → Sched
  unfolding repicked run_slot
  run_round s =
      let s' = repicked s in
      elim (run_slot s'.current_idx s') [
        | none ↦ record s' { need_resched = true }
        | some s'' ↦ s''
      ]
