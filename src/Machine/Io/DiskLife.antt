-- ===== src/Machine/Io/DiskLife.antt =====
-- The life of a disk command over the command port, the worker and the tick.
use lamp_vm.Common.Tests.{
  ℕ, ◌≡◌, refl, sym, subst, ap, ◌∙◌, Bool, true, false, not, Option, some, none, List, [], ◌∷◌,
  ◌==◌, if◌then◌else◌, if-true, if-false, if-both, Bool-cases, inl, inr, arith,
}
use lamp_vm.Machine.State.{Vm, Disk}
use lamp_vm.Machine.Interrupt.{trigger_interrupt, trigger_interrupt_target}
use lamp_vm.Machine.Io.{disk_cmd, disk_tick, int_disk_complete}
use lamp_vm.Machine.Io.DiskWorker.{
  worker_round, worker_transfer, copy_in, is_valid_dma, disk_event, disk_events, finish_command,
  DiskEvent, command, work, tick, Written, disk_cmd_read, disk_cmd_write,
}

-- The life of a command. A disk that was handed the command 0 is stuck.
pub data DiskPhase : Type 0 where
  idle working done stuck : DiskPhase

abbrev pub InPhase : DiskPhase → Disk → Type 0
InPhase idle d = (d.busy ≡ false) × (d.current_cmd ≡ 0)
InPhase working d = (d.busy ≡ true) × (d.op_complete ≡ false) × ((d.current_cmd == 0) ≡ false)
InPhase done d = (d.busy ≡ true) × (d.op_complete ≡ true) × (d.current_cmd ≡ 0)
InPhase stuck d = (d.busy ≡ true) × (d.op_complete ≡ false) × (d.current_cmd ≡ 0)

abbrev pub next : DiskPhase → DiskEvent → DiskPhase
next idle (command v) = if v == 0 then stuck else working
next idle (work buffer) = idle
next idle tick = idle
next working (command v) = working
next working (work buffer) = done
next working tick = working
next done (command v) = done
next done (work buffer) = done
next done tick = idle
next stuck e = stuck

-- The completion interrupt is raised by the tick after the worker is done, and by nothing else.
abbrev pub completes : DiskPhase → DiskEvent → Bool
completes done tick = true
completes p e = false

abbrev pub life : DiskPhase → List DiskEvent → DiskPhase
life p [] = p
life p (e ∷ es) = life (next p e) es

same_disk : (n : ℕ) (vm : Vm) → (trigger_interrupt n vm).disk ≡ vm.disk
unfolding trigger_interrupt trigger_interrupt_target
same_disk n vm = if-both (λ (v : Vm). v.disk ≡ vm.disk) _ refl refl

-- The transfer changes memory only.
transfer-rest :
    (buffer : Option (ℕ → ℕ)) (vm : Vm)
    → ((worker_transfer buffer vm).1.disk ≡ vm.disk)
      × ((worker_transfer buffer vm).1.interrupt_bitmap ≡ vm.interrupt_bitmap)
unfolding worker_transfer copy_in
transfer-rest none vm = (refl, refl)
transfer-rest (some buf) vm =
    elim (Bool-cases (not (is_valid_dma vm vm.disk.mem_addr vm.disk.count))) [
      | inl e ↦ rw e (refl, refl)
      | inr e ↦ elim (Bool-cases (vm.disk.current_cmd == disk_cmd_read)) [
        | inl r ↦ rw (e, r) (refl, refl)
        | inr r ↦ elim (Bool-cases (vm.disk.current_cmd == disk_cmd_write)) [
          | inl w ↦ rw (e, r, w) (refl, refl)
          | inr w ↦ rw (e, r, w) (refl, refl)
        ]
      ]
    ]

-- One event takes the disk to its next phase, with the completion interrupt exactly when due.
abbrev pub StepsTo : DiskPhase → DiskEvent → Vm → Vm → Type 0
StepsTo p e vm after =
    InPhase (next p e) after.disk
    × (after.interrupt_bitmap
        ≡ (if completes p e then trigger_interrupt int_disk_complete vm else vm).interrupt_bitmap)

same_bitmap :
    (n : ℕ) (vm : Vm) (d : Disk)
    → (trigger_interrupt n (record vm { disk = d })).interrupt_bitmap
      ≡ (trigger_interrupt n vm).interrupt_bitmap
unfolding trigger_interrupt trigger_interrupt_target
same_bitmap n vm d = ground arith

-- Each kind of event, where it does something and where it does not.
module _ (vm : Vm) where
  busy_command : (v : ℕ) → vm.disk.busy ≡ true → disk_cmd v vm ≡ vm
  unfolding disk_cmd
  busy_command v e = if-true _ _ e

  idle_command :
      (v : ℕ)
      → vm.disk.busy ≡ false
      → disk_cmd v vm
        ≡ record vm { disk = record vm.disk { current_cmd = v; busy = true; op_complete = false } }
  unfolding disk_cmd
  idle_command v e = if-false _ _ e

  worker_sleeps : (b : Option (ℕ → ℕ)) → vm.disk.current_cmd ≡ 0 → (worker_round b vm).1 ≡ vm
  unfolding worker_round
  worker_sleeps b e =
      ap (λ (r : Option Written × Vm). r.1)
        (if-true {b = vm.disk.current_cmd == 0} _ _ (ground arith))

  worker_works :
      (b : Option (ℕ → ℕ))
      → (vm.disk.current_cmd == 0) ≡ false
      → (worker_round b vm).1 ≡ finish_command (worker_transfer b vm).1
  unfolding worker_round
  worker_works b e = ap (λ (r : Option Written × Vm). r.1) (if-false _ _ e)

  tick_idle : vm.disk.busy ≡ false → disk_tick vm ≡ vm
  unfolding disk_tick
  tick_idle e = if-true _ _ (ap not e)

  tick_working : vm.disk.busy ≡ true → vm.disk.op_complete ≡ false → disk_tick vm ≡ vm
  unfolding disk_tick
  tick_working e c = if-false _ _ (ap not e) ∙ if-false _ _ c

  tick_done :
      vm.disk.busy ≡ true
      → vm.disk.op_complete ≡ true
      → disk_tick vm
        ≡ trigger_interrupt int_disk_complete
            (record vm { disk = record vm.disk { busy = false; op_complete = false } })
  unfolding disk_tick
  tick_done e c = if-false _ _ (ap not e) ∙ if-true _ _ c

-- A command to an idle disk.
handed_over :
    (v : ℕ) (vm : Vm)
    → InPhase
        (next idle (command v))
        (record vm.disk { current_cmd = v; busy = true; op_complete = false })
handed_over v vm = elim (Bool-cases (v == 0)) [
  | inl e ↦ rw e (refl, refl, ground arith)
  | inr e ↦ rw e (refl, refl, e)
]

event-StepsTo :
    (p : DiskPhase) (e : DiskEvent) (vm : Vm) → InPhase p vm.disk → StepsTo p e vm (disk_event e vm)
unfolding disk_event
event-StepsTo idle (command v) vm h =
    subst (StepsTo idle (command v) vm) (sym (idle_command vm v h.0)) (handed_over v vm, refl)
event-StepsTo idle (work b) vm h =
    subst (StepsTo idle (work b) vm) (sym (worker_sleeps vm b h.1)) (h, refl)
event-StepsTo idle tick vm h = subst (StepsTo idle tick vm) (sym (tick_idle vm h.0)) (h, refl)
event-StepsTo working (command v) vm h =
    subst (StepsTo working (command v) vm) (sym (busy_command vm v h.0)) (h, refl)
event-StepsTo working (work b) vm h =
    let kept = transfer-rest b vm in
    subst (StepsTo working (work b) vm) (sym (worker_works vm b h.2))
      ((ap (λ (d : Disk). d.busy) kept.0 ∙ h.0, refl, refl), kept.1)
event-StepsTo working tick vm h =
    subst (StepsTo working tick vm) (sym (tick_working vm h.0 h.1)) (h, refl)
event-StepsTo done (command v) vm h =
    subst (StepsTo done (command v) vm) (sym (busy_command vm v h.0)) (h, refl)
event-StepsTo done (work b) vm h =
    subst (StepsTo done (work b) vm) (sym (worker_sleeps vm b h.2)) (h, refl)
event-StepsTo done tick vm h =
    let freed = record vm.disk { busy = false; op_complete = false } in
    let same = same_disk int_disk_complete (record vm { disk = freed }) in
    subst (StepsTo done tick vm) (sym (tick_done vm h.0 h.1)) (
      (ap (λ (d : Disk). d.busy) same, ap (λ (d : Disk). d.current_cmd) same ∙ h.2),
      same_bitmap int_disk_complete vm freed,
    )
event-StepsTo stuck (command v) vm h =
    subst (StepsTo stuck (command v) vm) (sym (busy_command vm v h.0)) (h, refl)
event-StepsTo stuck (work b) vm h =
    subst (StepsTo stuck (work b) vm) (sym (worker_sleeps vm b h.2)) (h, refl)
event-StepsTo stuck tick vm h =
    subst (StepsTo stuck tick vm) (sym (tick_working vm h.0 h.1)) (h, refl)

disk_events-life :
    (es : List DiskEvent) (p : DiskPhase) (vm : Vm)
    → InPhase p vm.disk
    → InPhase (life p es) (disk_events es vm).disk
unfolding disk_events
disk_events-life [] p vm h = h
disk_events-life (e ∷ es) p vm h =
    disk_events-life es (next p e) (disk_event e vm) (event-StepsTo p e vm h).0

-- From any of the phases idle, working, done and stuck, any sequence of commands, worker rounds and
-- ticks takes the disk through the phases that `next` names: a command that is not 0 takes an idle
-- disk to working and the command 0 to stuck, a worker round takes a working disk to done, and a
-- tick a disk that is done to idle; every other event leaves the phase, so a busy disk ignores
-- commands and a stuck one stays so. And one more event changes the pending interrupts exactly when
-- it is the tick of a disk that is done, which triggers the disk's interrupt on core 0.
pub disk_follows_life :
    (p : DiskPhase) (es : List DiskEvent) (e : DiskEvent) (vm : Vm)
    → InPhase p vm.disk
    → InPhase (life p es) (disk_events es vm).disk
      × StepsTo (life p es) e (disk_events es vm) (disk_event e (disk_events es vm))
disk_follows_life p es e vm h =
    let now = disk_events-life es p vm h in
    (now, event-StepsTo (life p es) e (disk_events es vm) now)

stays_stuck : (es : List DiskEvent) → life stuck es ≡ stuck
stays_stuck [] = refl
stays_stuck (e ∷ es) = stays_stuck es

-- After the command 0 to an idle disk no sequence of commands, worker rounds and ticks gets the
-- disk out of its busy state, with no command to work on and none completed.
pub command_zero_sticks :
    (es : List DiskEvent) (vm : Vm)
    → InPhase idle vm.disk
    → InPhase stuck (disk_events (command 0 ∷ es) vm).disk
command_zero_sticks es vm h =
    subst (λ p. InPhase p (disk_events (command 0 ∷ es) vm).disk) (stays_stuck es)
      (disk_events-life (command 0 ∷ es) idle vm h)
