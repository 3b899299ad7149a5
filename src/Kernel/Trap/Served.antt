-- ===== src/Kernel/Trap/Served.antt =====
-- What each interrupt does once the kernel is set up.
use lamp_vm.Common.Tests.{
  ℕ, ◌<◌, ◌≡◌, refl, inl, inr, ap, ◌∙◌, true, false, ◌||◌, not, leb, ◌==◌, Bool-cases, lt-cases,
  if◌then◌else◌, if-true, if-both, if-false, le→leb, lt→leb_false, List, [], ◌∷◌, arith,
}
use lamp_vm.Common.Arrays.{update}
use lamp_vm.Common.Word.{add32}
use lamp_vm.Kernel.Trap.{
  SyscallRegs, Traps, Handled, back, panicked, handle, noted, tick, drain, serial_drain_rx,
  trap_dispatch, irq_common_entry, trap_init,
}
use lamp_vm.Kernel.Trap.Wired.{is_served, server, IsWired, trap_init-IsWired}

abbrev pub Dispatch : Type 0
Dispatch = SyscallRegs → Traps → Traps

-- One more interrupt of its number.
abbrev bump : ℕ → Traps → Traps
bump n s = record s { irq_counts = update s.irq_counts n (add32 (s.irq_counts n) 1) }

-- By the number alone: the keyboard and the serial port give their bytes, in order, to the
-- console; the timer ticks; a system call runs on the stored registers; a division by zero stops
-- the kernel; any other number does nothing.
abbrev pub served : Dispatch → ℕ → Traps → Handled
served dispatch n s =
    if n == 1
    then panicked (record s { fault_div0 = true })
    else if n == 0 || n == 3
    then back (record (bump n s) { console = drain s.serial s.console; serial = [] })
    else if n == 2
    then back (bump n s)
    else if n == 4
    then back (tick (bump n s))
    else if n == 0x80
    then back (dispatch s.stub_regs (bump n s))
    else back s

-- Interrupts one after the other, up to a panic.
abbrev and_then : (Traps → Handled) → Handled → Handled
and_then k (back s) = k s
and_then k (panicked s) = panicked s

unfoldable pub interrupts : (ℕ → Traps → Handled) → List ℕ → Traps → Handled
interrupts f [] s = back s
interrupts f (n ∷ ns) s = and_then (λ s'. interrupts f ns s') (f n s)

abbrev AfterWired : Handled → Type 0
AfterWired (back s) = IsWired s
AfterWired (panicked s) = Unit {0}

and_then_cong :
    (k k' : Traps → Handled) (h : Handled)
    → ((s : Traps) → IsWired s → k s ≡ k' s)
    → AfterWired h
    → and_then k h ≡ and_then k' h
and_then_cong k k' (back s) e w = e s w
and_then_cong k k' (panicked s) e w = refl

module _ (dispatch : Dispatch) where
  handle-server :
      (n : ℕ) (s : Traps)
      → n < 256
      → is_served n ≡ true
      → handle dispatch (server n) n s ≡ served dispatch n s
  unfolding handle serial_drain_rx
  handle-server n s l h = ground arith

  not_served : (n : ℕ) (s : Traps) → is_served n ≡ false → back s ≡ served dispatch n s
  not_served n s h = ground arith

  trap_dispatch-served :
      (n : ℕ) (s : Traps) → IsWired s → trap_dispatch dispatch n s ≡ served dispatch n s
  unfolding trap_dispatch
  trap_dispatch-served n s w = elim (lt-cases n 256) [
    | inl l ↦
        if-false _ _ (ap (λ b. not b || leb 256 n) w.ready ∙ lt→leb_false 256 n l)
        ∙ (elim (Bool-cases (is_served n)) [
          | inl h ↦
              if-false _ _ (ap (λ b. not b) (w.enabled n l ∙ h))
              ∙ ap (λ t. handle dispatch t n s) (w.serving n l)
              ∙ handle-server n s l h
          | inr h ↦ if-true _ _ (ap (λ b. not b) (w.enabled n l ∙ h)) ∙ not_served n s h
        ])
    | inr u ↦
        if-true _ _ (ap (λ b. not b || leb 256 n) w.ready ∙ le→leb 256 n u)
        ∙ not_served n s (ground arith)
  ]

  module _ (keeps : (r : SyscallRegs) (s : Traps) → IsWired s → IsWired (dispatch r s)) where
    served-AfterWired : (n : ℕ) (s : Traps) → IsWired s → AfterWired (served dispatch n s)
    served-AfterWired n s w = if-both AfterWired (n == 1) tt (
        if-both AfterWired (n == 0 || n == 3) w (
          if-both AfterWired (n == 2) w (
            if-both AfterWired (n == 4) w
              (if-both AfterWired (n == 0x80) (keeps s.stub_regs (bump n s) w) w))))

    interrupts-served :
        (ns : List ℕ) (s : Traps)
        → IsWired s
        → interrupts (irq_common_entry dispatch) ns s
          ≡ interrupts (λ n s'. served dispatch n (noted n s')) ns s
    unfolding irq_common_entry interrupts
    interrupts-served [] s w = refl
    interrupts-served (n ∷ ns) s w =
        ap (and_then (λ s'. interrupts (irq_common_entry dispatch) ns s'))
          (trap_dispatch-served n (noted n s) w)
        ∙ and_then_cong _ _ (served dispatch n (noted n s)) (λ s' v. interrupts-served ns s' v)
            (served-AfterWired n (noted n s) w)

    -- From any memory, once `trap_init` has run, any sequence of interrupts does what `served`
    -- says of each, up to a division by zero, provided that a system call leaves the table, the
    -- mask and the ready flag fit to serve them.
    pub trap_init-served :
        (stub : ℕ) (s : Traps) (ns : List ℕ)
        → interrupts (irq_common_entry dispatch) ns (trap_init stub s)
          ≡ interrupts (λ n s'. served dispatch n (noted n s')) ns (trap_init stub s)
    trap_init-served stub s ns = interrupts-served ns (trap_init stub s) (trap_init-IsWired stub s)
