-- ===== src/Machine/Invariant/Atomics.antt =====
-- The atomic operations keep the ranges.
use lamp_vm.Common.Tests.{ℕ, ◌%◌, Bool, true, false, not, Option, some, none, ◌==◌, if-both}
use lamp_vm.Common.Word.{add32}
use lamp_vm.Machine.State.{Vm, AtomicOp, MmioDevice, modify, gets}
use lamp_vm.Machine.Mmio.{find_mmio}
use lamp_vm.Machine.Memory.{
  load32, store32, in_ram, atomic32_check, atomic_found, vm_atomic_load32_acquire,
  vm_atomic_store32_release, vm_atomic_exchange32_seqcst, vm_atomic_fetch_add32_seqcst,
  vm_atomic_compare_exchange32_seqcst,
}
use lamp_vm.Machine.Invariant.Base.{
  IsWellFormed, Holds, Keeps, IsAny, IsWord, Keeps->>=, Keeps-pure, Keeps-modify, Keeps-gets,
  Keeps-if,
}
use lamp_vm.Machine.Invariant.Store.{load32-lt, AreBytes-store32, find_mmio-IsWellFormed}

-- The atomic operations.
checked-Holds :
    (op : AtomicOp) (a : ℕ) (o : Option MmioDevice) (vm : Vm)
    → IsWellFormed vm
    → Holds IsAny (atomic_found op a (o, vm))
checked-Holds op a none vm good = (tt, good)
checked-Holds op a (some d) vm good = tt

Keeps-atomic32_check : (op : AtomicOp) (a : ℕ) → Keeps IsAny (atomic32_check op a)
unfolding atomic32_check
Keeps-atomic32_check op a = record {
  at = λ vm good. if-both (Holds IsAny) (not (a % 4 == 0)) tt (
      if-both (Holds IsAny) (not (in_ram vm a 4)) tt (
        checked-Holds op a (find_mmio a vm).0 (find_mmio a vm).1
          (find_mmio-IsWellFormed a vm good)));
}

Keeps-observed : (a : ℕ) → Keeps IsWord (gets (λ vm. load32 vm.memory a))
Keeps-observed a = Keeps-gets _ (λ vm good. load32-lt vm.memory a good.2)

Keeps-replaced :
    (a v : ℕ) → Keeps IsAny (modify (λ vm. record vm { memory = store32 vm.memory a v }))
Keeps-replaced a v = Keeps-modify _ λ vm good.
    (good.0, good.1, AreBytes-store32 vm.memory a v good.2, good.3, good.4, good.5, good.6)

pub Keeps-load : (a : ℕ) → Keeps IsWord (vm_atomic_load32_acquire a)
unfolding vm_atomic_load32_acquire
Keeps-load a = Keeps->>= (Keeps-atomic32_check AtomicOp.ldar a) λ u q. Keeps-observed a

pub Keeps-store : (a v : ℕ) → Keeps IsAny (vm_atomic_store32_release a v)
unfolding vm_atomic_store32_release
Keeps-store a v = Keeps->>= (Keeps-atomic32_check AtomicOp.stlr a) λ u q. Keeps-replaced a v

pub Keeps-exchange : (a v : ℕ) → Keeps IsWord (vm_atomic_exchange32_seqcst a v)
unfolding vm_atomic_exchange32_seqcst
Keeps-exchange a v = Keeps->>= (Keeps-atomic32_check AtomicOp.xchg a) λ u q.
    Keeps->>= (Keeps-observed a) λ old w. Keeps->>= (Keeps-replaced a v) λ u' q'. Keeps-pure old w

pub Keeps-fetch_add : (a v : ℕ) → Keeps IsWord (vm_atomic_fetch_add32_seqcst a v)
unfolding vm_atomic_fetch_add32_seqcst
Keeps-fetch_add a v = Keeps->>= (Keeps-atomic32_check AtomicOp.xadd a) λ u q.
    Keeps->>= (Keeps-observed a)
      λ old w. Keeps->>= (Keeps-replaced a (add32 old v)) λ u' q'. Keeps-pure old w

pub Keeps-compare_exchange :
    (a e d : ℕ) → Keeps (λ (r : ℕ × Bool). IsWord r.0) (vm_atomic_compare_exchange32_seqcst a e d)
unfolding vm_atomic_compare_exchange32_seqcst
Keeps-compare_exchange a e d = Keeps->>= (Keeps-atomic32_check AtomicOp.cas a) λ u q.
    Keeps->>= (Keeps-observed a) λ observed w.
      Keeps-if (observed == e)
        (Keeps->>= (Keeps-replaced a d) λ u' q'. Keeps-pure (observed, true) w)
        (Keeps-pure (observed, false) w)
