-- ===== src/Kernel/Sched/Queue.antt =====
-- kernel/src/sched.c: a wait queue is a word with a bit for each task.
use native.Mathlib.Nat.{pow-suc, div-div-eq-div-mul, zero-div}
use lamp_vm.Common.Tests.{
  ℕ, zero, suc, ◌/◌, ◌%◌, ◌^◌, ◌<◌, ◌≡◌, ◌∙◌, ap, sym, Bool, true, false, not, ◌==◌, if◌then◌else◌,
  if-split, arith,
}
use lamp_vm.Common.Word.{not32, ◌>>>◌}
use lamp_vm.Common.Bits.Step.{bit, bit_and, bit_or}
use lamp_vm.Common.Bits.Fields.{bit_and_mask}
use lamp_vm.Common.Bits.Sets.{add_bit_self, add_bit_other, clear_bit_self, clear_bit_other}

unfoldable pub set_bit : ℕ → ℕ → ℕ
set_bit w i = bit_or w (2 ^ (i % 32))

unfoldable pub clear_bit : ℕ → ℕ → ℕ
clear_bit w i = bit_and w (not32 (2 ^ (i % 32)))

unfoldable pub test_bit : ℕ → ℕ → Bool
test_bit w i = not (bit_and (w >>> (i % 32)) 1 == 0)

bit-shift : (i w : ℕ) → bit w i ≡ w / 2 ^ i % 2
bit-shift zero w = omega arith
bit-shift (suc i) w =
    let halves : w / 2 / 2 ^ i ≡ w / 2 ^ suc i =
      div-div-eq-div-mul w 2 (2 ^ i) ∙ ap (λ (d : ℕ). w / d) (omega (arith, pow-suc 2 i)) in
    bit-shift i (w / 2) ∙ ap (λ (d : ℕ). d % 2) halves

test_bit-bit : (w i : ℕ) → i < 32 → test_bit w i ≡ not (bit w i == 0)
unfolding test_bit
test_bit-bit w i l =
    let small : i % 32 ≡ i = omega (arith, l) in
    let digit : bit_and (w >>> (i % 32)) 1 ≡ bit w i =
      ap (λ (k : ℕ). bit_and (w >>> k) 1) small ∙ bit_and_mask 1 (w >>> i) ∙ sym (bit-shift i w) in
    ap (λ (d : ℕ). not (d == 0)) digit

module _ (w i j : ℕ) (l : i < 32) (m : j < 32) where
  small : i % 32 ≡ i
  small = omega (arith, l)

  pub test_bit-set_bit : test_bit (set_bit w i) j ≡ (if i == j then true else test_bit w j)
  unfolding set_bit
  test_bit-set_bit =
      let shown =
        ap (λ (k : ℕ). test_bit (bit_or w (2 ^ k)) j) small ∙ test_bit-bit (bit_or w (2 ^ i)) j m in
      shown
      ∙ if-split (λ (b : Bool). not (bit (bit_or w (2 ^ i)) j == 0) ≡ b) (i == j)
          (λ e.
            ap (λ (d : ℕ). not (d == 0))
              (ap (bit (bit_or w (2 ^ i))) {x = j} {y = i} (ground arith) ∙ add_bit_self w i))
          (λ e.
            ap (λ (d : ℕ). not (d == 0)) (add_bit_other w i j (λ s. ground arith))
            ∙ sym (test_bit-bit w j m))

  pub test_bit-clear_bit : test_bit (clear_bit w i) j ≡ (if i == j then false else test_bit w j)
  unfolding clear_bit
  test_bit-clear_bit =
      let rest = bit_and w (not32 (2 ^ i)) in
      let shown =
        ap (λ (k : ℕ). test_bit (bit_and w (not32 (2 ^ k))) j) small ∙ test_bit-bit rest j m in
      shown
      ∙ if-split (λ (b : Bool). not (bit rest j == 0) ≡ b) (i == j)
          (λ e.
            ap (λ (d : ℕ). not (d == 0))
              (ap (bit rest) {x = j} {y = i} (ground arith) ∙ clear_bit_self 32 w i l))
          (λ e.
            ap (λ (d : ℕ). not (d == 0)) (clear_bit_other 32 w i l j m (λ s. ground arith))
            ∙ sym (test_bit-bit w j m))

pub test_bit-zero : (j : ℕ) → test_bit 0 j ≡ false
unfolding test_bit
test_bit-zero j = ap (λ (d : ℕ). not (bit_and d 1 == 0)) {y = 0} (zero-div (2 ^ (j % 32)))
