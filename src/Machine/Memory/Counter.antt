-- ===== src/Machine/Memory/Counter.antt =====
-- A word that several cores add to with the atomic addition, one addition after the other.
use lamp_vm.Common.Tests.{
  ℕ, ◌+◌, ◌%◌, ◌^◌, ◌<◌, ◌≡◌, refl, ap, ◌∙◌, List, [], ◌∷◌, false, not, ◌==◌, if-false, le→leb,
  arith,
}
use lamp_vm.Common.Word.{add32}
use lamp_vm.Machine.State.{Vm, M, ok, AtomicOp, ◌>>=◌, bind-ok, pure}
use lamp_vm.Machine.Mmio.Cache.{CacheIsSound, find_mmio-ram, forget, forget-CacheIsSound}
use lamp_vm.Machine.Memory.{
  load32, store32, atomic32_check, atomic_found, vm_atomic_fetch_add32_seqcst,
}
use lamp_vm.Machine.Memory.Words.{load32-store32}
use lamp_vm.Machine.Memory.Access.{IsRamWord, with_memory}

atomic32_check-ok :
    (op : AtomicOp) (a : ℕ) (vm : Vm)
    → a % 4 ≡ 0
    → CacheIsSound vm
    → IsRamWord vm a
    → atomic32_check op a vm ≡ ok (tt, forget vm)
unfolding atomic32_check
atomic32_check-ok op a vm aligned sound ram =
    let on_word : not (a % 4 == 0) ≡ false = ground arith in
    if-false _ _ on_word
    ∙ if-false _ _ (ap not (le→leb (a + 4) vm.memory_size ram.inside))
    ∙ ap (atomic_found op a) (find_mmio-ram a vm sound ram.unclaimed)

abbrev added : ℕ → ℕ → Vm → Vm
added a v vm = with_memory (store32 vm.memory a (add32 (load32 vm.memory a) v)) (forget vm)

fetch_add-eq :
    (a v : ℕ) (vm : Vm)
    → a % 4 ≡ 0
    → CacheIsSound vm
    → IsRamWord vm a
    → vm_atomic_fetch_add32_seqcst a v vm ≡ ok (load32 vm.memory a, added a v vm)
unfolding vm_atomic_fetch_add32_seqcst
fetch_add-eq a v vm aligned sound ram =
    bind-ok (atomic32_check AtomicOp.xadd a) _
      (atomic32_check-ok AtomicOp.xadd a vm aligned sound ram)

-- The additions in the order in which they happen.
abbrev pub add_all : ℕ → List ℕ → M (Unit {0})
add_all a [] = pure tt
add_all a (v ∷ vs) = vm_atomic_fetch_add32_seqcst a v >>= λ old. add_all a vs

abbrev pub sum : List ℕ → ℕ
sum [] = 0
sum (v ∷ vs) = v + sum vs

-- Any sequence of atomic additions to an aligned word of RAM that no device claims returns, and
-- leaves the word it found plus the sum of the addends, modulo 2 ^ 32: none is lost.
pub add_all-sum :
    (a : ℕ) (vs : List ℕ) (vm : Vm)
    → a % 4 ≡ 0
    → CacheIsSound vm
    → IsRamWord vm a
    → load32 vm.memory a < 2 ^ 32
    → (after : Vm) × (add_all a vs vm ≡ ok (tt, after))
      × (load32 after.memory a ≡ add32 (load32 vm.memory a) (sum vs))
add_all-sum a [] vm aligned sound ram word = (vm, refl, omega arith)
add_all-sum a (v ∷ vs) vm aligned sound ram word =
    let next = added a v vm in
    let w = load32 vm.memory a in
    let stored : load32 next.memory a ≡ add32 w v =
      load32-store32 vm.memory a (add32 w v) (omega arith) in
    let rest =
      add_all-sum a vs next aligned (forget-CacheIsSound next)
        (record { inside = ram.inside; unclaimed = ram.unclaimed }) (omega (arith, stored)) in
    (
      rest.0,
      bind-ok (vm_atomic_fetch_add32_seqcst a v) _ (fetch_add-eq a v vm aligned sound ram) ∙ rest.1,
      rest.2 ∙ omega (arith, stored),
    )
