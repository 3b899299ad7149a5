-- ===== src/Machine/Interrupt/Search.antt =====
-- The search of `vm_handle_interrupts` for a pending interrupt.
use lamp_vm.Common.Tests.{
  ℕ, zero, suc, ◌+◌, ◌-◌, ◌*◌, ◌/◌, ◌%◌, ◌^◌, ◌<◌, ◌≤◌, ◌≡◌, ◌≢◌, ◌⊎◌, inl, inr, refl, ap, ◌∙◌,
  false, ◌||◌, Option, some, none, ◌==◌, if-true, if-false, Bool-cases, lt-cases, arith,
}
use lamp_vm.Common.Arrays.{update, update_self}
use lamp_vm.Common.Bits.Step.{bit, bit_and}
use lamp_vm.Common.Bits.Sets.{clear_bit_self, clear_bit_other}
use lamp_vm.Machine.State.{Vm, Outcome, ok, irq_bitmap_words, ivt_size}
use lamp_vm.Machine.Interrupt.{
  vm_enter_interrupt, lowest_bit, take_pending, vm_handle_interrupts, uint64_max,
}
use lamp_vm.Machine.Interrupt.Pending.{pending, one_word, different_place}

-- What a search of the lowest bit among the first `left` bits of `w` says.
abbrev NoBit : ℕ → ℕ → Type 0
NoBit left w = (k : ℕ) → k < left → bit w k ≡ 0

abbrev IsLowestBit : ℕ → ℕ → ℕ → Type 0
IsLowestBit left w k = (k < left) × (bit w k ≡ 1) × NoBit k w

abbrev Search : ℕ → ℕ → ℕ → Type 0
Search left i w =
    ((lowest_bit left i w ≡ none) × NoBit left w)
    ⊎ ((k : ℕ) × (lowest_bit left i w ≡ some (i + k)) × IsLowestBit left w k)

NoBit-suc : (left w : ℕ) → w % 2 ≡ 0 → NoBit left (w / 2) → NoBit (suc left) w
NoBit-suc left w e rest zero l = e
NoBit-suc left w e rest (suc k) l = rest k (omega arith)

Search-suc :
    (left i w : ℕ)
    → lowest_bit (suc left) i w ≡ lowest_bit left (i + 1) (w / 2)
    → w % 2 ≡ 0
    → Search left (i + 1) (w / 2)
    → Search (suc left) i w
Search-suc left i w step e (inl (none_left, rest)) = inl (step ∙ none_left, NoBit-suc left w e rest)
Search-suc left i w step e (inr (k, found, (l, hit, rest))) =
    inr (suc k, step ∙ found ∙ ap some (omega arith), (omega arith, hit, NoBit-suc k w e rest))

lowest_bit-Search : (left i w : ℕ) → Search left i w
unfolding lowest_bit
lowest_bit-Search zero i w = inl (refl, λ k l. absurd (omega arith))
lowest_bit-Search (suc left) i w = elim (Bool-cases (w % 2 == 1)) [
  | inl e ↦ inr (
    0,
    if-true _ _ e ∙ ap some (omega arith),
    (omega arith, ground arith, λ j l. absurd (omega arith)),
  )
  | inr e ↦
      Search-suc left i w (if-false _ _ e) (ground arith) (lowest_bit-Search left (i + 1) (w / 2))
]

-- The state in which a bit is taken out of a word, and in which interrupt `n` is taken out of the
-- set of core `c`.
abbrev pub without_bit : Vm → ℕ → ℕ → Vm
without_bit vm idx b = record vm {
  interrupt_bitmap =
      update vm.interrupt_bitmap idx (bit_and (vm.interrupt_bitmap idx) (uint64_max - 2 ^ b));
}

abbrev pub taken : Vm → ℕ → ℕ → Vm
taken vm c n = without_bit vm (c * irq_bitmap_words + n / 64) (n % 64)

-- Nothing pending in the words from `w` on, or the lowest pending interrupt is the one taken.
abbrev Takes : ℕ → ℕ → Vm → Type 0
Takes left w vm =
    let c = vm.cpu.core_id in
    (((n : ℕ) → w * 64 ≤ n → n < (w + left) * 64 → pending vm c n ≡ 0)
      × (take_pending left w vm ≡ ok (tt, vm)))
    ⊎ ((n : ℕ) × (w * 64 ≤ n)
        × (n < (w + left) * 64)
        × (pending vm c n ≡ 1)
        × ((m : ℕ) → w * 64 ≤ m → m < n → pending vm c m ≡ 0)
        × (take_pending left w vm ≡ vm_enter_interrupt n (taken vm c n)))

abbrev after_search : ℕ → ℕ → Vm → Option ℕ → Outcome (Unit {0} × Vm)
after_search left w vm none = take_pending left (w + 1) vm
after_search left w vm (some b) =
    vm_enter_interrupt (w * 64 + b) (without_bit vm (vm.cpu.core_id * irq_bitmap_words + w) b)

module _ (vm : Vm) (w : ℕ) where
  abbrev core : ℕ
  core = vm.cpu.core_id

  abbrev word : ℕ
  word = vm.interrupt_bitmap (core * irq_bitmap_words + w)

  word-pending : (n : ℕ) → w * 64 ≤ n → n < (w + 1) * 64 → pending vm core n ≡ bit word (n - w * 64)
  word-pending n lo hi =
      let q_eq : n / 64 ≡ w = omega arith in
      let r_eq : n % 64 ≡ n - w * 64 = omega arith in
      ap (λ (q : ℕ). bit (vm.interrupt_bitmap (core * irq_bitmap_words + q)) (n % 64)) q_eq
      ∙ ap (bit word) r_eq

  none_here : NoBit 64 word → (n : ℕ) → w * 64 ≤ n → n < (w + 1) * 64 → pending vm core n ≡ 0
  none_here clear n lo hi = word-pending n lo hi ∙ clear (n - w * 64) (omega arith)

  none_from :
      (left : ℕ)
      → NoBit 64 word
      → (last : ℕ) → ((n : ℕ) → (w + 1) * 64 ≤ n → n < last → pending vm core n ≡ 0)
      → (n : ℕ) → w * 64 ≤ n
      → n < last
      → pending vm core n ≡ 0
  none_from left clear last rest n lo hi = elim (lt-cases n ((w + 1) * 64)) [
    | inl l ↦ none_here clear n lo l
    | inr l ↦ rest n l hi
  ]

  taken_here :
      (left k : ℕ)
      → k < 64
      → after_search left w vm (some k)
        ≡ vm_enter_interrupt (w * 64 + k) (taken vm core (w * 64 + k))
  taken_here left k l =
      let n = w * 64 + k in
      let q_eq : w ≡ n / 64 = omega arith in
      let r_eq : k ≡ n % 64 = omega arith in
      ap (λ (q : ℕ). vm_enter_interrupt n (without_bit vm (core * irq_bitmap_words + q) k)) q_eq
      ∙ ap (λ (r : ℕ). vm_enter_interrupt n (without_bit vm (core * irq_bitmap_words + n / 64) r))
          r_eq

  Takes-suc :
      (left : ℕ)
      → take_pending (suc left) w vm ≡ after_search left w vm (lowest_bit 64 0 word)
      → Search 64 0 word
      → Takes left (w + 1) vm
      → Takes (suc left) w vm
  Takes-suc left step (inr (k, found, (l, hit, lower))) rest =
      let n = w * 64 + k in
      let zero_k : 0 + k ≡ k = omega arith in
      let at_k : n - w * 64 ≡ k = omega arith in
      inr (
        n,
        omega arith,
        omega arith,
        word-pending n (omega arith) (omega arith) ∙ ap (bit word) at_k ∙ hit,
        λ m lo hi. word-pending m lo (omega arith) ∙ lower (m - w * 64) (omega arith),
        step ∙ ap (λ o. after_search left w vm o) (found ∙ ap some zero_k) ∙ taken_here left k l,
      )
  Takes-suc left step (inl (empty, clear)) (inl (quiet, same)) = inl (
    λ n lo hi. none_from left clear ((w + 1 + left) * 64) quiet n lo (omega arith),
    step ∙ ap (after_search left w vm) empty ∙ same,
  )
  Takes-suc left step (inl (empty, clear)) (inr (n, lo, hi, on, lower, same)) = inr (
    n,
    omega arith,
    omega arith,
    on,
    λ m a b. none_from left clear n lower m a b,
    step ∙ ap (after_search left w vm) empty ∙ same,
  )

take_pending-Takes : (left w : ℕ) (vm : Vm) → Takes left w vm
unfolding take_pending
take_pending-Takes zero w vm = inl (λ n a b. absurd (omega arith), refl)
take_pending-Takes (suc left) w vm =
    Takes-suc vm w left refl
      (lowest_bit-Search 64 0 (vm.interrupt_bitmap (vm.cpu.core_id * irq_bitmap_words + w)))
      (take_pending-Takes left (w + 1) vm)

taken_self : (vm : Vm) (c n : ℕ) → pending (taken vm c n) c n ≡ 0
taken_self vm c n =
    let idx = c * irq_bitmap_words + n / 64 in
    let word = vm.interrupt_bitmap idx in
    ap (λ x. bit x (n % 64))
      (update_self vm.interrupt_bitmap idx (bit_and word (uint64_max - 2 ^ (n % 64))))
    ∙ clear_bit_self 64 word (n % 64) (omega arith)

taken_other :
    (vm : Vm) (c n c' n' : ℕ)
    → n < ivt_size
    → n' < ivt_size
    → (c' ≢ c) ⊎ (n' ≢ n)
    → pending (taken vm c n) c' n' ≡ pending vm c' n'
taken_other vm c n c' n' h h' d =
    let idx = c * irq_bitmap_words + n / 64 in
    let word = vm.interrupt_bitmap idx in
    one_word vm.interrupt_bitmap idx (bit_and word (uint64_max - 2 ^ (n % 64))) (n % 64)
      (λ j l e. clear_bit_other 64 word (n % 64) (omega arith) j l e)
      (c' * irq_bitmap_words + n' / 64) (n' % 64) (omega arith) (different_place c n c' n' h h' d)

-- Interrupt `n` is in the table and pending on core `c`, and none below it is.
pub record IsNext (vm : Vm) (c n : ℕ) : Type 0 where
  pub in_table : n < ivt_size
  pub was_pending : pending vm c n ≡ 1
  pub is_lowest : (m : ℕ) → m < n → pending vm c m ≡ 0

-- From one state to the other, interrupt `n` of core `c` is no longer pending, and every other
-- interrupt of every core is as it was.
pub record Removes (vm : Vm) (c n : ℕ) (after : Vm) : Type 0 where
  pub removed : pending after c n ≡ 0
  pub others_kept :
      (c' n' : ℕ) → n' < ivt_size → (c' ≢ c) ⊎ (n' ≢ n) → pending after c' n' ≡ pending vm c' n'

pub taken-Removes :
    (vm : Vm) (c n : ℕ) (after : Vm)
    → n < ivt_size
    → after.interrupt_bitmap ≡ (taken vm c n).interrupt_bitmap
    → Removes vm c n after
taken-Removes vm c n after h same =
    let place : ℕ → ℕ → ℕ = λ c' n'. c' * irq_bitmap_words + n' / 64 in
    record {
      removed = ap (λ (b : ℕ → ℕ). bit (b (place c n)) (n % 64)) same ∙ taken_self vm c n;
      others_kept = λ c' n' l d.
          ap (λ (b : ℕ → ℕ). bit (b (place c' n')) (n' % 64)) same ∙ taken_other vm c n c' n' h l d;
    }

-- Nothing is pending and nothing happens, or the lowest pending interrupt is taken out and entered.
pub vm_handle_interrupts-taken :
    (vm : Vm)
    → vm.cpu.in_interrupt ≡ false
    → vm.cpu.irq_masked ≡ false
    → (((n : ℕ) → n < ivt_size → pending vm vm.cpu.core_id n ≡ 0)
        × (vm_handle_interrupts vm ≡ ok (tt, vm)))
      ⊎ ((n : ℕ) × IsNext vm vm.cpu.core_id n
          × (vm_handle_interrupts vm ≡ vm_enter_interrupt n (taken vm vm.cpu.core_id n)))
unfolding vm_handle_interrupts
vm_handle_interrupts-taken vm outside unmasked =
    finish (if-false _ _ closed) (take_pending-Takes irq_bitmap_words 0 vm)
  where
    closed : (vm.cpu.in_interrupt || vm.cpu.irq_masked) ≡ false
    closed = rw (outside, unmasked)

    finish :
        vm_handle_interrupts vm ≡ take_pending irq_bitmap_words 0 vm
        → Takes irq_bitmap_words 0 vm
        → (((n : ℕ) → n < ivt_size → pending vm vm.cpu.core_id n ≡ 0)
            × (vm_handle_interrupts vm ≡ ok (tt, vm)))
          ⊎ ((n : ℕ) × IsNext vm vm.cpu.core_id n
              × (vm_handle_interrupts vm ≡ vm_enter_interrupt n (taken vm vm.cpu.core_id n)))
    finish e (inl (quiet, same)) = inl (λ n l. quiet n (omega arith) l, e ∙ same)
    finish e (inr (n, lo, hi, on, lower, same)) = inr (
      n,
      record { in_table = hi; was_pending = on; is_lowest = λ m l. lower m (omega arith) l },
      e ∙ same,
    )
