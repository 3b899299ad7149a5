-- ===== src/Kernel/Files/Invariant.antt =====
-- Every operation on descriptors keeps the counts.
use lamp_vm.Common.Tests.{
  ℕ, zero, suc, ◌+◌, ◌<◌, ◌≤◌, ◌≡◌, refl, Bool, true, false, ◌||◌, not, inl, inr, none, some, leb,
  Bool-cases, ◌⊎◌, arith,
}
use lamp_vm.Common.Arrays.{update}
use lamp_vm.Common.Word.{is_neg}
use lamp_vm.Kernel.Files.{Files, max_fds, no_fdent, refers_to, opened, FileType}
use lamp_vm.Kernel.Files.Slots.{drop_fd, slot_ofile_by_fd, first_unused}
use lamp_vm.Kernel.Files.Opens.{share}
use lamp_vm.Kernel.Files.Modes.{fd_is_open}
use lamp_vm.Kernel.Files.Counts.{IsCounted, holders-update, holders-pos, holders-le}

-- What a found descriptor says.
pub record Found (f : Files) (fd i : ℕ) : Type 0 where
  pub fd_below : fd < max_fds
  pub fd_used : (f.fdtab fd).used ≡ true
  pub idx : (f.fdtab fd).ofile_idx ≡ i
  pub below : i < max_fds
  pub file_used : (f.ofiles i).used ≡ true
  pub referred : 0 < (f.ofiles i).refs

pub slot_ofile_by_fd-Found : (f : Files) (fd i : ℕ) → slot_ofile_by_fd f fd ≡ some i → Found f fd i
unfolding slot_ofile_by_fd
slot_ofile_by_fd-Found f fd i e = ground arith

module _ (f : Files) (v : IsCounted f) where
  pub drop_fd-IsCounted : (fd i : ℕ) → Found f fd i → IsCounted (drop_fd f fd i)
  drop_fd-IsCounted fd i h = record {
    in_table = λ g m w'. ground (arith, v.in_table g m);
    counted = λ j m.
        ground (arith, v.counted j m, holders-update f.fdtab fd no_fdent j max_fds h.fd_below);
    in_use = λ j m. ground (arith, v.in_use j m);
  }

  pub share-IsCounted :
      (fd i : ℕ)
      → fd < max_fds
      → (f.fdtab fd).used ≡ false
      → i < max_fds
      → (f.ofiles i).used ≡ true
      → IsCounted (share f fd i)
  share-IsCounted fd i b u l w = record {
    in_table = λ g m w'. ground (arith, v.in_table g m);
    counted = λ j m. ground (
      arith,
      v.counted j m,
      holders-update f.fdtab fd (refers_to i) j max_fds b,
      holders-le f.fdtab i max_fds,
    );
    in_use = λ j m. ground (arith, v.in_use j m, v.counted j m, holders-le f.fdtab i max_fds);
  }

  pub open-IsCounted :
      (fd i : ℕ) (t : FileType) (flags : ℕ)
      → fd < max_fds
      → (f.fdtab fd).used ≡ false
      → i < max_fds
      → (f.ofiles i).used ≡ false
      → IsCounted (record {
        ofiles = update f.ofiles i (opened t flags);
        fdtab = update f.fdtab fd (refers_to i);
      })
  open-IsCounted fd i t flags b u l w = record {
    in_table = λ g m w'. ground (arith, v.in_table g m);
    counted = λ j m.
        ground
          (arith, v.counted j m, v.in_use j m, holders-update f.fdtab fd (refers_to i) j max_fds b);
    in_use = λ j m. ground (arith, v.in_use j m);
  }

pub first_unused-lt :
    (used : ℕ → Bool) (rounds i n : ℕ)
    → first_unused used rounds i ≡ some n
    → (n < rounds + i) × (i ≤ n) × (used n ≡ false)
unfolding first_unused
first_unused-lt used zero i n e = cc
first_unused-lt used (suc rounds) i n e = ground (arith, first_unused-lt used rounds (suc i) n)

-- With sound counts a descriptor is found exactly when it is open.
pub open-Found :
    (f : Files) (fd : ℕ)
    → IsCounted f
    → ((fd_is_open fd f ≡ false) × (slot_ofile_by_fd f fd ≡ none))
      ⊎ ((fd_is_open fd f ≡ true)
          × (slot_ofile_by_fd f fd ≡ some (f.fdtab fd).ofile_idx)
          × Found f fd (f.fdtab fd).ofile_idx)
unfolding slot_ofile_by_fd fd_is_open
open-Found f fd v = elim (Bool-cases (is_neg fd || leb max_fds fd || not (f.fdtab fd).used)) [
  | inl e ↦ inl (ground arith, ground arith)
  | inr e ↦
      let b : fd < max_fds = ground arith in
      let u : (f.fdtab fd).used ≡ true = ground arith in
      let l = v.in_table fd b u in
      let c = v.counted (f.fdtab fd).ofile_idx l in
      let w = v.in_use (f.fdtab fd).ofile_idx l in
      let p = holders-pos f.fdtab (f.fdtab fd).ofile_idx fd max_fds b u refl in
      let r : 0 < (f.ofiles (f.fdtab fd).ofile_idx).refs = omega (arith, c, p) in
      let uu : (f.ofiles (f.fdtab fd).ofile_idx).used ≡ true = ground (arith, w, r) in
      inr (
        ground arith,
        ground arith,
        record { fd_below = b; fd_used = u; idx = refl; below = l; file_used = uu; referred = r },
      )
]
