-- ===== src/Kernel/Files/Counts.antt =====
-- The reference counts of open files: what an entry of the table contributes.
use lamp_vm.Common.Tests.{
  ℕ, zero, suc, ◌+◌, ◌<◌, ◌≤◌, ◌≡◌, refl, true, false, ◌&&◌, inl, inr, ltb, ◌==◌, if◌then◌else◌,
  eq-cases, subst, arith,
}
use lamp_vm.Common.Arrays.{update, update_self, update_ne}
use lamp_vm.Kernel.Files.{Files, Fdent, max_fds, no_ofile}
use lamp_vm.Kernel.Files.Slots.{fd_table_init_stdio}

-- 1 where an entry is used and refers to file `i`.
abbrev pub points : Fdent → ℕ → ℕ
points e i = if e.used && (e.ofile_idx == i) then 1 else 0

-- The descriptors below `n` that refer to file `i`.
unfoldable pub holders : (ℕ → Fdent) → ℕ → ℕ → ℕ
holders t i zero = 0
holders t i (suc n) = holders t i n + points (t n) i

-- The invariant of a task's tables.
pub record IsCounted (f : Files) : Type 0 where
  pub in_table :
      (fd : ℕ) → fd < max_fds → (f.fdtab fd).used ≡ true → (f.fdtab fd).ofile_idx < max_fds
  pub counted : (i : ℕ) → i < max_fds → (f.ofiles i).refs ≡ holders f.fdtab i max_fds
  pub in_use : (i : ℕ) → i < max_fds → (f.ofiles i).used ≡ ltb 0 (f.ofiles i).refs

pub holders-le : (t : ℕ → Fdent) (i n : ℕ) → holders t i n ≤ n
unfolding holders
holders-le t i zero = omega arith
holders-le t i (suc n) = ground (arith, holders-le t i n)

holders-update_above :
    (t : ℕ → Fdent) (p : ℕ) (v : Fdent) (i n : ℕ)
    → n ≤ p
    → holders (update t p v) i n ≡ holders t i n
unfolding holders
holders-update_above t p v i zero h = refl
holders-update_above t p v i (suc n) h =
    rw (update_ne t p n v (λ e. omega (arith, e, h)))
      (omega (arith, holders-update_above t p v i n (omega (arith, h))))

pub holders-update :
    (t : ℕ → Fdent) (p : ℕ) (v : Fdent) (i n : ℕ)
    → p < n
    → holders (update t p v) i n + points (t p) i ≡ holders t i n + points v i
unfolding holders
holders-update t p v i zero h = absurd (omega (arith, h))
holders-update t p v i (suc n) h = elim (eq-cases p n) [
  | inl e ↦
      subst
        (λ (k : ℕ).
          holders (update t p v) i k + points (update t p v k) i + points (t p) i
          ≡ holders t i k + points (t k) i + points v i)
        e (rw (update_self t p v) (omega (arith, holders-update_above t p v i p (omega arith))))
  | inr ne ↦
      rw (update_ne t p n v ne) (omega (arith, holders-update t p v i n (omega (arith, ne, h))))
]

pub holders-pos :
    (t : ℕ → Fdent) (i fd n : ℕ)
    → fd < n
    → (t fd).used ≡ true
    → (t fd).ofile_idx ≡ i
    → 0 < holders t i n
unfolding holders
holders-pos t i fd zero h u e = absurd (omega (arith, h))
holders-pos t i fd (suc n) h u e = elim (eq-cases fd n) [
  | inl at ↦
      let one : points (t fd) i ≡ 1 = ground arith in
      let same : points (t n) i ≡ 1 = subst (λ (k : ℕ). points (t k) i ≡ 1) at one in
      omega (arith, same)
  | inr ne ↦ omega (arith, holders-pos t i fd n (omega (arith, ne, h)) u e)
]

pub holders-eq_zero :
    (t : ℕ → Fdent) (i n : ℕ) → ((fd : ℕ) → fd < n → (t fd).used ≡ false) → holders t i n ≡ 0
unfolding holders
holders-eq_zero t i zero unused = refl
holders-eq_zero t i (suc n) unused =
    ground
      (arith, unused n (omega arith), holders-eq_zero t i n (λ fd l. unused fd (omega (arith, l))))

pub stdio-IsCounted : IsCounted fd_table_init_stdio
unfolding holders
stdio-IsCounted = record {
  in_table = λ fd l u. ground arith;
  counted = λ i l. ground arith;
  in_use = λ i l. ground arith;
}

-- The tables of a slot of zero bytes.
pub zero_files-IsCounted : IsCounted (record {
  ofiles = λ i. no_ofile;
  fdtab = λ i. record { used = false; ofile_idx = 0; fd_flags = 0 };
})
unfolding holders
zero_files-IsCounted = record {
  in_table = λ fd l u. ground arith;
  counted = λ i l. ground arith;
  in_use = λ i l. ground arith;
}
