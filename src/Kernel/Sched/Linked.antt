-- ===== src/Kernel/Sched/Linked.antt =====
-- The wait queues and the tasks agree: the elementary changes keep this.
use lamp_vm.Common.Tests.{
  ℕ, ◌<◌, ◌≤◌, ◌≡◌, ◌⊎◌, Bool, true, false, ◌&&◌, not, Option, none, some, ◌==◌, arith,
}
use lamp_vm.Common.Arrays.{update}
use lamp_vm.Kernel.Sched.{Slot, max_tasks, waits}
use lamp_vm.Kernel.Sched.Queue.{
  set_bit, clear_bit, test_bit, test_bit-set_bit, test_bit-clear_bit, test_bit-zero,
}

abbrev pub is_on : Option ℕ → ℕ → Bool
is_on none q = false
is_on (some p) q = p == q

-- A task that may stand on a queue.
abbrev pub may_wait : Slot → Bool
may_wait t = t.used && not t.is_idle && waits t.state

-- A queue holds the bits of exactly the tasks that point to it, these wait, and on the child queue
-- of a slot stands nobody else.
pub record IsLinked (tasks : ℕ → Slot) (queues : ℕ → ℕ) : Type 0 where
  pub linked : (i q : ℕ) → i < max_tasks → test_bit (queues q) i ≡ is_on (tasks i).waitq q
  pub waiting :
      (i q : ℕ) → i < max_tasks → is_on (tasks i).waitq q ≡ true → may_wait (tasks i) ≡ true
  pub own_child : (i q : ℕ) → i < max_tasks → q < max_tasks → is_on (tasks i).waitq q ≡ true → q ≡ i

module _ (tasks : ℕ → Slot) (queues : ℕ → ℕ) (v : IsLinked tasks queues) (i : ℕ)
    (l : i < max_tasks) where
  -- A task that changes and keeps its queue.
  pub replace-IsLinked :
      (t : Slot)
      → t.waitq ≡ (tasks i).waitq
      → ((q : ℕ) → is_on t.waitq q ≡ true → may_wait t ≡ true)
      → IsLinked (update tasks i t) queues
  replace-IsLinked t e w = record {
    linked = λ j q m. ground (arith, v.linked j q m);
    waiting = λ j q m o. ground (arith, v.waiting j q m, w q);
    own_child = λ j q m n o. ground (arith, v.own_child j q m n);
  }

  pub unlink-IsLinked :
      (t : Slot) (p : ℕ)
      → (tasks i).waitq ≡ some p
      → t.waitq ≡ none
      → IsLinked (update tasks i t) (update queues p (clear_bit (queues p) i))
  unlink-IsLinked t p e w = record {
    linked = λ j q m. ground (
      arith,
      v.linked j q m,
      test_bit-clear_bit (queues p) i j (omega (arith, l)) (omega (arith, m)),
    );
    waiting = λ j q m o. ground (arith, v.waiting j q m);
    own_child = λ j q m n o. ground (arith, v.own_child j q m n);
  }

  pub link-IsLinked :
      (t : Slot) (p : ℕ)
      → (tasks i).waitq ≡ none
      → t.waitq ≡ some p
      → may_wait t ≡ true
      → (max_tasks ≤ p) ⊎ (p ≡ i)
      → IsLinked (update tasks i t) (update queues p (set_bit (queues p) i))
  link-IsLinked t p e w y a = record {
    linked = λ j q m. ground (
      arith,
      v.linked j q m,
      test_bit-set_bit (queues p) i j (omega (arith, l)) (omega (arith, m)),
    );
    waiting = λ j q m o. ground (arith, v.waiting j q m);
    own_child = λ j q m n o. ground (arith, v.own_child j q m n);
  }

  pub clear-IsLinked :
      (t : Slot)
      → (tasks i).waitq ≡ none
      → t.waitq ≡ none
      → IsLinked (update tasks i t) (update queues i 0)
  clear-IsLinked t e w = record {
    linked = λ j q m. ground (arith, v.linked j q m, v.own_child j i m l, test_bit-zero j);
    waiting = λ j q m o. ground (arith, v.waiting j q m);
    own_child = λ j q m n o. ground (arith, v.own_child j q m n);
  }
