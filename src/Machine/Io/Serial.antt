-- ===== src/Machine/Io/Serial.antt =====
-- The serial receive queue: a ring of 256 bytes behind two ports, as a bounded queue.
use lamp_vm.Common.Tests.{
  ℕ, suc, ◌+◌, ◌%◌, ◌^◌, ◌<◌, ◌≡◌, inl, inr, refl, sym, ap, ◌∙◌, Bool, true, false, List, [], ◌∷◌,
  ◌++◌, ltb, ◌==◌, if◌then◌else◌, if-true, if-false, if-both, Bool-cases, arith,
}
use lamp_vm.Common.Arrays.{update, length}
use lamp_vm.Common.Ring.{items, used, length-items, items-snoc}
use lamp_vm.Machine.State.{Vm}
use lamp_vm.Machine.Interrupt.{trigger_interrupt, trigger_interrupt_target}
use lamp_vm.Machine.Io.{announce_rx, vm_serial_rx_enqueue, int_serial}
use lamp_vm.Machine.Exec.System.{serial_rx_take}

-- The bytes that wait, the oldest first.
abbrev pub waiting : Vm → List ℕ
waiting vm = items vm.serial_rx_fifo vm.serial_rx_tail (used vm.serial_rx_head vm.serial_rx_tail)

-- Head and tail are kept below 256 by the mask.
abbrev pub IsRing : Vm → Type 0
IsRing vm = (vm.serial_rx_head < 2 ^ 8) × (vm.serial_rx_tail < 2 ^ 8)

-- A queue of at most 255 bytes: a full one refuses a byte, an empty one gives 0.
abbrev pub put_bounded : ℕ → List ℕ → Bool × List ℕ
put_bounded c q = if ltb (length q) 255 then (true, q ++ (c ∷ [])) else (false, q)

abbrev pub take_oldest : List ℕ → ℕ × List ℕ
take_oldest [] = (0, [])
take_oldest (c ∷ q) = (c, q)

-- The fields that the queue stands in.
abbrev ring : Vm → (ℕ → ℕ) × ℕ × ℕ
ring vm = (vm.serial_rx_fifo, vm.serial_rx_head, vm.serial_rx_tail)

trigger-ring : (n : ℕ) (vm : Vm) → ring (trigger_interrupt n vm) ≡ ring vm
unfolding trigger_interrupt trigger_interrupt_target
trigger-ring n vm = if-both (λ v. ring v ≡ ring vm) _ refl refl

announce_rx-ring : (vm : Vm) → ring (announce_rx vm) ≡ ring vm
unfolding announce_rx
announce_rx-ring vm = if-both (λ v. ring v ≡ ring vm) _ (trigger-ring int_serial _) refl

abbrev waiting_of : (ℕ → ℕ) × ℕ × ℕ → List ℕ
waiting_of (f, h, t) = items f t (used h t)

module _ (c : ℕ) (vm : Vm) (is_ring : IsRing vm) where
  abbrev queued : Vm
  queued = record vm {
    serial_rx_fifo = update vm.serial_rx_fifo vm.serial_rx_head c;
    serial_rx_head = (vm.serial_rx_head + 1) % 2 ^ 8;
  }

  waiting-queued :
      used vm.serial_rx_head vm.serial_rx_tail < 255 → waiting queued ≡ waiting vm ++ (c ∷ [])
  waiting-queued room =
      let n = used vm.serial_rx_head vm.serial_rx_tail in
      let one_more : used ((vm.serial_rx_head + 1) % 2 ^ 8) vm.serial_rx_tail ≡ suc n =
        (omega (arith, is_ring.0, is_ring.1)) in
      ap (items queued.serial_rx_fifo vm.serial_rx_tail) one_more
      ∙ items-snoc vm.serial_rx_fifo c vm.serial_rx_head vm.serial_rx_tail n is_ring.1 room
          (omega (arith, is_ring.0, is_ring.1))

  -- A byte from the host is put at the end of the queue of waiting bytes, unless 255 wait already:
  -- then it is refused and the queue stays as it is.
  pub enqueue-put_bounded :
      let (accepted, after) = vm_serial_rx_enqueue c vm in
      (accepted, waiting after) ≡ put_bounded c (waiting vm)
  unfolding vm_serial_rx_enqueue
  enqueue-put_bounded =
      let view : Bool × Vm → Bool × List ℕ = λ r. (r.0, waiting r.1) in
      let n = used vm.serial_rx_head vm.serial_rx_tail in
      let size : length (waiting vm) ≡ n = length-items vm.serial_rx_fifo vm.serial_rx_tail n in
      elim (Bool-cases ((vm.serial_rx_head + 1) % 2 ^ 8 == vm.serial_rx_tail)) [
        | inl full ↦
            let none_left : ltb (length (waiting vm)) 255 ≡ false =
              ground (arith, size, is_ring.0, is_ring.1) in
            ap view (if-true _ _ full) ∙ sym (if-false _ _ none_left)
        | inr room ↦
            let some_left : ltb (length (waiting vm)) 255 ≡ true =
              ground (arith, size, is_ring.0, is_ring.1) in
            ap view (if-false _ _ room)
            ∙ ap (λ q. (true, q))
                (if-both (λ v. waiting v ≡ waiting queued) _
                    (ap waiting_of (announce_rx-ring queued)) refl
                  ∙ waiting-queued (ground (arith, is_ring.0, is_ring.1)))
            ∙ sym (if-true _ _ some_left)
      ]

module _ (vm : Vm) (is_ring : IsRing vm) where
  -- A read of the keyboard port takes the oldest waiting byte, and gives 0 when none waits.
  pub take-take_oldest :
      let (v, after) = serial_rx_take vm in (v, waiting after) ≡ take_oldest (waiting vm)
  unfolding serial_rx_take
  take-take_oldest =
      let view : ℕ × Vm → ℕ × List ℕ = λ r. (r.0, waiting r.1) in
      let f = vm.serial_rx_fifo in
      let t = vm.serial_rx_tail in
      let h = vm.serial_rx_head in
      elim (Bool-cases (t == h)) [
        | inl empty ↦
            let no_bytes : waiting vm ≡ [] =
              ap (items f t) {y = 0} (ground (arith, is_ring.0, is_ring.1)) in
            ap view (if-true _ _ empty) ∙ ap (λ q. (0, q)) no_bytes ∙ sym (ap take_oldest no_bytes)
        | inr more ↦
            let next = (t + 1) % 2 ^ 8 in
            let first : waiting vm ≡ f t ∷ items f next (used h next) =
              ap (items f t) {y = suc (used h next)} (ground (arith, is_ring.0, is_ring.1)) in
            ap view (if-false _ _ more) ∙ sym (ap take_oldest first)
      ]
