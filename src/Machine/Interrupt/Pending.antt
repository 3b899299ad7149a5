-- ===== src/Machine/Interrupt/Pending.antt =====
-- The pending interrupts of a core as a set, to which `trigger_interrupt_target` adds one.
use lamp_vm.Common.Tests.{
  ℕ, ◌+◌, ◌*◌, ◌/◌, ◌%◌, ◌^◌, ◌<◌, ◌≡◌, ◌≢◌, ◌⊎◌, inl, inr, sym, ap, ◌∙◌, false, ◌||◌, leb,
  if-false, eq-cases, arith,
}
use lamp_vm.Common.Arrays.{update, update_self, update_ne}
use lamp_vm.Common.Bits.Step.{bit, bit_or}
use lamp_vm.Common.Bits.Sets.{add_bit_self, add_bit_other}
use lamp_vm.Machine.State.{Vm, irq_bitmap_words, ivt_size}
use lamp_vm.Machine.Interrupt.{irq_word_index, irq_bit_mask, trigger_interrupt_target}

-- Whether interrupt `n` of core `c` is pending, as 0 or 1.
abbrev pub pending : Vm → ℕ → ℕ → ℕ
pending vm c n = bit (vm.interrupt_bitmap (c * irq_bitmap_words + n / 64)) (n % 64)

abbrev pub IsTarget : Vm → ℕ → ℕ → Type 0
IsTarget vm c n = (c < 2 ^ 31) × (c < vm.smp_cores) × (n < ivt_size)

-- A word of the bitmap changed in one bit only.
pub one_word :
    (m : ℕ → ℕ) (idx v b : ℕ)
    → ((j : ℕ) → j < 64 → j ≢ b → bit v j ≡ bit (m idx) j)
    → (i j : ℕ) → j < 64
    → (i ≢ idx) ⊎ (j ≢ b)
    → bit (update m idx v i) j ≡ bit (m i) j
one_word m idx v b same i j l d = elim (eq-cases i idx) [
  | inl e ↦
      ap (λ (k : ℕ). bit (update m idx v k) j) e
      ∙ ap (λ w. bit w j) (update_self m idx v)
      ∙ same j l (other_bit e d)
      ∙ ap (λ (k : ℕ). bit (m k) j) (sym e)
  | inr e ↦ ap (λ w. bit w j) (update_ne m idx i v (λ h. e (sym h)))
]
  where
    other_bit : i ≡ idx → (i ≢ idx) ⊎ (j ≢ b) → j ≢ b
    other_bit e (inl h) = absurd (h e)
    other_bit e (inr h) = h

-- Different interrupts have different words or different bits.
pub different_place :
    (c n c' n' : ℕ)
    → n < ivt_size
    → n' < ivt_size
    → (c' ≢ c) ⊎ (n' ≢ n)
    → (c' * irq_bitmap_words + n' / 64 ≢ c * irq_bitmap_words + n / 64) ⊎ (n' % 64 ≢ n % 64)
different_place c n c' n' h h' d = elim (eq-cases (n' % 64) (n % 64)) [
  | inr e ↦ inr e
  | inl e ↦ inl (λ same. ground (arith, d))
]

module _ (vm : Vm) (c n : ℕ) where
  abbrev triggered : Vm
  triggered = trigger_interrupt_target c n vm

  abbrev idx : ℕ
  idx = c * irq_bitmap_words + n / 64

  triggered_word :
      IsTarget vm c n
      → triggered.interrupt_bitmap
        ≡ update vm.interrupt_bitmap idx (bit_or (vm.interrupt_bitmap idx) (2 ^ (n % 64)))
  unfolding trigger_interrupt_target irq_word_index irq_bit_mask
  triggered_word h =
      let valid : (leb (2 ^ 31) c || leb vm.smp_cores c || leb ivt_size n) ≡ false =
        ground (arith, h.0, h.1, h.2) in
      ap (λ (v : Vm). v.interrupt_bitmap) (if-false _ _ valid)

  -- Triggering an interrupt of the table on a core that exists makes it pending and leaves every
  -- other interrupt of every core as it was.
  pub trigger_pending :
      IsTarget vm c n
      → (c' n' : ℕ) → n' < ivt_size
      → (c' ≢ c) ⊎ (n' ≢ n)
      → (pending triggered c n ≡ 1) × (pending triggered c' n' ≡ pending vm c' n')
  trigger_pending h c' n' small d =
      let word = vm.interrupt_bitmap idx in
      let set = bit_or word (2 ^ (n % 64)) in
      (
        ap (λ (m : ℕ → ℕ). bit (m idx) (n % 64)) (triggered_word h)
            ∙ ap (λ w. bit w (n % 64)) (update_self vm.interrupt_bitmap idx set)
            ∙ add_bit_self word (n % 64),
        ap (λ (m : ℕ → ℕ). bit (m (c' * irq_bitmap_words + n' / 64)) (n' % 64)) (triggered_word h)
            ∙ one_word vm.interrupt_bitmap idx set (n % 64)
                (λ j l e. add_bit_other word (n % 64) j e) (c' * irq_bitmap_words + n' / 64)
                (n' % 64) (omega arith) (different_place c n c' n' h.2 small d),
      )
