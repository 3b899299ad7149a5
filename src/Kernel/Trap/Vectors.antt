-- ===== src/Kernel/Trap/Vectors.antt =====
-- The vectors that `trap_init` writes, as the machine reads them.
use lamp_vm.Common.Tests.{
  ℕ, zero, suc, ◌+◌, ◌*◌, ◌/◌, refl, ◌^◌, ◌≤◌, ◌<◌, ◌≡◌, inl, inr, ◌∙◌, sym, ap, eq-cases, arith,
}
use lamp_vm.Machine.State.{ivt_base, ivt_size}
use lamp_vm.Machine.Memory.{store32}
use lamp_vm.Machine.Memory.Words.{
  two_words, store64, two_words-store64, two_words-store64_apart, store32_elsewhere,
}
use lamp_vm.Kernel.Trap.{Traps, ivt_write_entry, write_entries, trap_init}

zero_plus : (n : ℕ) → 0 + n ≡ n
zero_plus n = omega arith

ivt_write_entry-store64 :
    (i stub : ℕ) (mem : ℕ → ℕ)
    → stub < 2 ^ 32
    → ivt_write_entry i stub mem ≡ store64 mem (i * 8) stub
unfolding ivt_write_entry
ivt_write_entry-store64 i stub mem h =
    let z : 0 ≡ stub / 2 ^ 32 = omega arith in
    ap (λ a. store32 (store32 mem a stub) (a + 4) 0) (zero_plus (i * 8))
    ∙ ap (store32 (store32 mem (i * 8) stub) (i * 8 + 4)) z

-- Below `i` the entries are not touched.
write_entries_below :
    (left i stub j : ℕ) (mem : ℕ → ℕ)
    → stub < 2 ^ 32
    → j < i
    → two_words (write_entries left i stub mem) (j * 8) ≡ two_words mem (j * 8)
unfolding write_entries
write_entries_below zero i stub j mem h l = refl
write_entries_below (suc left) i stub j mem h l =
    write_entries_below left (suc i) stub j (ivt_write_entry i stub mem) h (omega arith)
    ∙ ap (λ m. two_words m (j * 8)) (ivt_write_entry-store64 i stub mem h)
    ∙ two_words-store64_apart mem (i * 8) stub (j * 8) (inl (omega arith))

write_entries_at :
    (left i stub j : ℕ) (mem : ℕ → ℕ)
    → stub < 2 ^ 32
    → i ≤ j
    → j < i + left
    → two_words (write_entries left i stub mem) (j * 8) ≡ stub
unfolding write_entries
write_entries_at zero i stub j mem h l u = absurd (omega arith)
write_entries_at (suc left) i stub j mem h l u = elim (eq-cases i j) [
  | inl e ↦
      write_entries_below left (suc i) stub j (ivt_write_entry i stub mem) h (omega arith)
      ∙ ap (λ m. two_words m (j * 8)) (ivt_write_entry-store64 i stub mem h)
      ∙ ap (λ a. two_words (store64 mem (i * 8) stub) (a * 8)) (sym e)
      ∙ two_words-store64 mem (i * 8) stub (omega arith)
  | inr ne ↦
      write_entries_at left (suc i) stub j (ivt_write_entry i stub mem) h (omega arith)
        (omega arith)
]

write_entries_elsewhere :
    (left i stub q : ℕ) (mem : ℕ → ℕ) → (i + left) * 8 ≤ q → write_entries left i stub mem q ≡ mem q
unfolding write_entries ivt_write_entry
write_entries_elsewhere zero i stub q mem h = refl
write_entries_elsewhere (suc left) i stub q mem h =
    write_entries_elsewhere left (suc i) stub q (ivt_write_entry i stub mem) (omega arith)
    ∙ store32_elsewhere (store32 mem (0 + i * 8) stub) (0 + i * 8 + 4) 0 q (inr (omega arith))
    ∙ store32_elsewhere mem (0 + i * 8) stub q (inr (omega arith))

-- After `trap_init` the machine reads the stub's address at the entry of every interrupt, and the
-- rest of the memory is as it was.
pub trap_init-vectors :
    (stub irq_no q : ℕ) (s : Traps)
    → stub < 2 ^ 32
    → irq_no < ivt_size
    → ivt_base + ivt_size * 8 ≤ q
    → (two_words (trap_init stub s).memory (ivt_base + irq_no * 8) ≡ stub)
      × ((trap_init stub s).memory q ≡ s.memory q)
unfolding trap_init
trap_init-vectors stub irq_no q s h l u = (
  ap (two_words (write_entries 256 0 stub s.memory)) (zero_plus (irq_no * 8))
      ∙ write_entries_at 256 0 stub irq_no s.memory h (omega arith) l,
  write_entries_elsewhere 256 0 stub q s.memory u,
)
