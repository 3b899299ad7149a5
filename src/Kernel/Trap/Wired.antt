-- ===== src/Kernel/Trap/Wired.antt =====
-- The table and the mask that `trap_init` leaves.
use lamp_vm.Common.Tests.{
  ℕ, zero, suc, ◌<◌, ◌≡◌, refl, inl, inr, sym, ap, ◌∙◌, Bool, true, false, ◌&&◌, ◌||◌, not, ◌==◌,
  eq-cases, if◌then◌else◌, arith,
}
use lamp_vm.Kernel.Trap.{
  Handler, irq_default, irq_divide_by_zero, irq_disk_complete, irq_serial, irq_keyboard, irq_timer,
  irq_syscall, Traps, is_enabled, enable_all, no_mask, register_all, default_table, trap_init,
}

-- The interrupts that the kernel serves.
abbrev pub is_served : ℕ → Bool
is_served n = n == 0 || n == 1 || n == 2 || n == 3 || n == 4 || n == 0x80

abbrev pub server : ℕ → Handler
server n =
    if n == 0
    then irq_keyboard
    else if n == 1
    then irq_divide_by_zero
    else if n == 2
    then irq_disk_complete
    else if n == 3
    then irq_serial
    else if n == 4
    then irq_timer
    else if n == 0x80
    then irq_syscall
    else irq_default

pub record Serves (table : ℕ → Handler) (trap_ready : Bool) (irq_mask : ℕ → ℕ) : Type 0 where
  pub ready : trap_ready ≡ true
  pub enabled : (n : ℕ) → n < 256 → is_enabled irq_mask n ≡ is_served n
  pub serving : (n : ℕ) → n < 256 → table n ≡ server n

abbrev pub IsWired : Traps → Type 0
IsWired s = Serves s.trap_table s.trap_ready s.irq_mask

abbrev same : Bool → Bool → Bool
same a b = if a then b else not b

same_eq : (a b : Bool) → same a b ≡ true → a ≡ b
same_eq true true e = refl
same_eq false false e = refl
same_eq true false e = sym e
same_eq false true e = e

abbrev all_below : ℕ → (ℕ → Bool) → Bool
all_below zero p = true
all_below (suc n) p = p n && all_below n p

both_true : (a b : Bool) → (a && b) ≡ true → (a ≡ true) × (b ≡ true)
both_true true b e = (refl, e)
both_true false b e = absurd (ground arith)

all_below-lt : (n : ℕ) (p : ℕ → Bool) → all_below n p ≡ true → (i : ℕ) → i < n → p i ≡ true
all_below-lt zero p e i l = absurd (omega arith)
all_below-lt (suc n) p e i l =
    let (a, b) = both_true (p n) (all_below n p) e in
    elim (eq-cases i n) [ inl h ↦ ap p h ∙ a | inr h ↦ all_below-lt n p b i (omega arith) ]

init_enabled :
    (mask : ℕ → ℕ) (n : ℕ) → n < 256 → is_enabled (enable_all (no_mask mask)) n ≡ is_served n
init_enabled mask n l =
    same_eq (is_enabled (enable_all (no_mask mask)) n) (is_served n) (
      all_below-lt 256 (λ i. same (is_enabled (enable_all (no_mask mask)) i) (is_served i)) refl n
        l)

init_table :
    (table : ℕ → Handler) (n : ℕ) → n < 256 → register_all (default_table table) n ≡ server n
init_table table n l = ground arith

pub trap_init-IsWired : (stub : ℕ) (s : Traps) → IsWired (trap_init stub s)
unfolding trap_init
trap_init-IsWired stub s = record {
  ready = refl;
  enabled = init_enabled s.irq_mask;
  serving = init_table s.trap_table;
}
