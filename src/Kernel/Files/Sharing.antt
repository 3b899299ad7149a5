-- ===== src/Kernel/Files/Sharing.antt =====
-- What the calls promise to a task: descriptors are counted from the start to the end of the task,
-- and `dup` and `dup2` share open files.
use lamp_vm.Common.Tests.{
  ℕ, zero, suc, ◌+◌, ◌<◌, ◌≤◌, ◌≡◌, ◌≢◌, refl, Bool, true, false, ◌||◌, inl, inr, none, some, List,
  ltb, leb, ◌==◌, if-split, option-split, eq-cases, arith, ap, ◌∙◌, subst, sym,
}
use lamp_vm.Common.Arrays.{update_self, update_ne}
use lamp_vm.Common.Word.{is_neg}
use lamp_vm.Kernel.Files.{Files, Fdent, FdResult, done, ebadf, einval, emfile, max_fds, refers_to}
use lamp_vm.Kernel.Files.Opens.{share, fd_dup, fd_dup2}
use lamp_vm.Kernel.Files.Slots.{
  first_unused, slot_ofile_by_fd, slot_find_free_fd, emptied, close_from, slot_close_all_fds,
  fd_table_init_stdio,
}
use lamp_vm.Kernel.Files.Modes.{fd_is_open}
use lamp_vm.Kernel.Files.Counts.{
  IsCounted, points, holders, holders-le, stdio-IsCounted, holders-eq_zero,
}
use lamp_vm.Kernel.Files.Invariant.{Found, open-Found}
use lamp_vm.Kernel.Files.Calls.{
  FdCall, calls, calls_keep, find_free_fd-lt, emptied_lem, Emptied, SameKind, share-Emptied,
}

-- The first unused index: what it says when there is none, and which it is.
first_unused_exhausted :
    (used : ℕ → Bool) (rounds i n : ℕ)
    → first_unused used rounds i ≡ none
    → i ≤ n
    → n < rounds + i
    → used n ≡ true
unfolding first_unused
first_unused_exhausted used zero i n e a b = absurd (omega (arith, a, b))
first_unused_exhausted used (suc rounds) i n e a b = elim (eq-cases n i) [
  | inl at ↦ subst (λ (k : ℕ). used k ≡ true) (sym at) (ground arith)
  | inr ne ↦
      first_unused_exhausted used rounds (suc i) n (ground arith) (omega (arith, a, ne))
        (omega (arith, b))
]

first_unused_least :
    (used : ℕ → Bool) (rounds i n m : ℕ)
    → first_unused used rounds i ≡ some n
    → i ≤ m
    → m < n
    → used m ≡ true
unfolding first_unused
first_unused_least used zero i n m e a b = cc
first_unused_least used (suc rounds) i n m e a b = elim (eq-cases m i) [
  | inl at ↦ subst (λ (k : ℕ). used k ≡ true) (sym at) (ground arith)
  | inr ne ↦ first_unused_least used rounds (suc i) n m (ground arith) (omega (arith, a, ne)) b
]

-- Descriptor `new` refers to the file of `old`, and the other descriptors are as before.
pub record Shares (f : Files) (old new : ℕ) (g : Files) : Type 0 where
  pub same_file : g.fdtab new ≡ refers_to (f.fdtab old).ofile_idx
  pub unchanged : (m : ℕ) → m ≢ new → g.fdtab m ≡ f.fdtab m

pub data Dups (f : Files) (old : ℕ) (r : FdResult × Files) : Type 0 where
  not_open : fd_is_open old f ≡ false → r ≡ (ebadf, f) → Dups f old r
  full :
      fd_is_open old f ≡ true
      → ((n : ℕ) → n < max_fds → fd_is_open n f ≡ true)
      → r ≡ (emfile, f)
      → Dups f old r
  copied :
      fd_is_open old f ≡ true
      → (n : ℕ) → n < max_fds
      → fd_is_open n f ≡ false
      → ((m : ℕ) → m < n → fd_is_open m f ≡ true)
      → r.0 ≡ done n
      → Shares f old n r.1
      → Dups f old r

open_of_used : (f : Files) (n : ℕ) → n < max_fds → fd_is_open n f ≡ (f.fdtab n).used
unfolding fd_is_open
open_of_used f n l = ground arith

share-Shares :
    (f g : Files) (old new : ℕ)
    → ((m : ℕ) → m ≢ new → g.fdtab m ≡ f.fdtab m)
    → Shares f old new (share g new (f.fdtab old).ofile_idx)
share-Shares f g old new keep = record {
  same_file = update_self g.fdtab new (refers_to (f.fdtab old).ofile_idx);
  unchanged = λ m ne.
      update_ne g.fdtab new m (refers_to (f.fdtab old).ofile_idx) (λ e. ne (sym e)) ∙ keep m ne;
}

-- With sound counts, `dup` of a closed descriptor fails with EBADF, and of an open one with EMFILE
-- when all are open; then nothing changes. Otherwise it returns the lowest closed descriptor,
-- which now refers to the file of the old one, while the other descriptors are as before.
pub fd_dup-Dups : (old : ℕ) (f : Files) → IsCounted f → Dups f old (fd_dup old f)
unfolding fd_dup slot_find_free_fd
fd_dup-Dups old f v = elim (open-Found f old v) [
  | inl (shut, e) ↦ not_open shut (rw (e, fd_dup) refl)
  | inr (is_open, e, h) ↦
      let start : fd_dup old f ≡ elim (slot_find_free_fd f 0) [
        | none ↦ (emfile, f)
        | some n ↦ (done n, share f n (f.fdtab old).ofile_idx)
      ] =
        rw (e, fd_dup) refl in
      subst (Dups f old) (sym start) (
        option-split (Dups f old) (slot_find_free_fd f 0)
          (λ none_free.
            full is_open
              (λ n l.
                open_of_used f n l
                ∙ first_unused_exhausted (λ i. (f.fdtab i).used) max_fds 0 n (ground arith)
                    (omega arith) (omega arith))
              refl)
          (λ n found.
            let (l, u) = find_free_fd-lt f n found in
            copied is_open n l (open_of_used f n l ∙ u)
              (λ m b.
                open_of_used f m (omega (arith, b, l))
                ∙ first_unused_least (λ i. (f.fdtab i).used) max_fds 0 n m (ground arith)
                    (omega arith) b)
              refl (share-Shares f f old n (λ m ne. refl))))
]

abbrev AllUnused : Files → ℕ → Type 0
AllUnused f n = (fd : ℕ) → fd < n → (f.fdtab fd).used ≡ false

close_from-AllUnused :
    (rounds i : ℕ) (f : Files)
    → rounds + i ≡ max_fds
    → IsCounted f
    → AllUnused f i
    → IsCounted (close_from rounds i f) × AllUnused (close_from rounds i f) max_fds
unfolding close_from
close_from-AllUnused zero i f e v unused = (v, λ fd l. unused fd (omega (arith, e, l)))
close_from-AllUnused (suc rounds) i f e v unused =
    let step = emptied_lem i f (ground (arith, e)) v in
    close_from-AllUnused rounds (suc i) (emptied i f) (omega (arith, e)) step.sound (λ fd l.
      elim (eq-cases fd i) [
        | inl at ↦ subst (λ (k : ℕ). ((emptied i f).fdtab k).used ≡ false) (sym at) step.free
        | inr ne ↦ ap (λ t. t.used) (step.others fd ne) ∙ unused fd (omega (arith, l, ne))
      ])

-- No open file is left.
abbrev pub AllFree : Files → Type 0
AllFree f = (i : ℕ) → i < max_fds → (f.ofiles i).used ≡ false

pub close_all-IsCounted : (f : Files) → IsCounted f → IsCounted (slot_close_all_fds f)
unfolding slot_close_all_fds
close_all-IsCounted f v =
    (close_from-AllUnused max_fds 0 f (omega arith) v (λ fd l. absurd (omega (arith, l)))).0

close_all-AllFree : (f : Files) → IsCounted f → AllFree (slot_close_all_fds f)
unfolding slot_close_all_fds
close_all-AllFree f v =
    let (sound, unused) =
      close_from-AllUnused max_fds 0 f (omega arith) v (λ fd l. absurd (omega (arith, l))) in
    λ i l.
      let none_left = holders-eq_zero (close_from max_fds 0 f).fdtab i max_fds unused in
      sound.in_use i l ∙ ap (λ n. ltb 0 n) (sound.counted i l ∙ none_left)

-- Whatever calls a task makes on its descriptors, starting from the three standard ones, the index
-- of every open descriptor is in range, each open file counts the descriptors that refer to it and
-- is in use exactly while there are any, and closing all at the end leaves no file in use.
pub calls-IsCounted :
    (cs : List FdCall)
    → let f = calls cs fd_table_init_stdio in IsCounted f × AllFree (slot_close_all_fds f)
calls-IsCounted cs =
    let v = calls_keep cs fd_table_init_stdio stdio-IsCounted in
    (v, close_all-AllFree (calls cs fd_table_init_stdio) v)

-- Descriptor `new`, closed first if it was open, refers to the file of `old`: each file counts one
-- reference less if `new` referred to it and one more if `old` does, and is in use exactly while
-- any are left, with its kind and flags.
pub record Redirected (f : Files) (old new : ℕ) (g : Files) : Type 0 where
  pub shares : Shares f old new g
  pub refs :
      (i : ℕ)
      → i < max_fds
      → (g.ofiles i).refs + points (f.fdtab new) i ≡ (f.ofiles i).refs + points (g.fdtab new) i
  pub in_use : (i : ℕ) → i < max_fds → (g.ofiles i).used ≡ ltb 0 (g.ofiles i).refs
  pub kind : SameKind f g

-- `dup2` by cases.
pub data Redirects (f : Files) (old new : ℕ) (r : FdResult × Files) : Type 0 where
  out_of_range : is_neg new || leb max_fds new ≡ true → r ≡ (einval, f) → Redirects f old new r
  source_not_open :
      is_neg new || leb max_fds new ≡ false
      → fd_is_open old f ≡ false
      → r ≡ (ebadf, f)
      → Redirects f old new r
  itself : fd_is_open old f ≡ true → old ≡ new → r ≡ (done new, f) → Redirects f old new r
  redirected :
      fd_is_open old f ≡ true
      → old ≢ new
      → r.0 ≡ done new
      → Redirected f old new r.1
      → Redirects f old new r

-- One reference more does not wrap, and keeps a file as it is otherwise.
share-refs :
    (g : Files) (new src i n : ℕ)
    → (g.ofiles i).refs ≡ n
    → n ≤ max_fds
    → ((share g new src).ofiles i).refs ≡ (g.ofiles i).refs + points (refers_to src) i
share-refs g new src i n e b = elim (eq-cases src i) [
  | inl s ↦ ground (arith, e, b, s)
  | inr s ↦ ground (arith, s)
]

share-SameKind : (g : Files) (new src : ℕ) → SameKind g (share g new src)
share-SameKind g new src i used = elim (eq-cases src i) [
  | inl s ↦ ground (arith, s)
  | inr s ↦ ground (arith, s)
]

share-used : (g : Files) (new src i : ℕ) → ((share g new src).ofiles i).used ≡ (g.ofiles i).used
share-used g new src i = elim (eq-cases src i) [
  | inl s ↦ ground (arith, s)
  | inr s ↦ ground (arith, s)
]

share-Redirected :
    (old new : ℕ) (f g : Files)
    → Emptied new f g
    → new < max_fds
    → old ≢ new
    → Found f old (f.fdtab old).ofile_idx
    → Redirected f old new (share g new (f.fdtab old).ofile_idx)
share-Redirected old new f g e b ne h =
    let src = (f.fdtab old).ofile_idx in
    let shares = share-Shares f g old new e.others in
    let sound = share-Emptied new old f g e b ne h in
    record {
      shares = shares;
      refs = λ i l.
          subst
            (λ (t : Fdent).
              ((share g new src).ofiles i).refs + points (f.fdtab new) i
              ≡ (f.ofiles i).refs + points t i)
            (sym shares.same_file)
            (omega (
              arith,
              share-refs g new src i (holders g.fdtab i max_fds) (e.sound.counted i l)
                  (holders-le g.fdtab i max_fds),
              e.refs i,
            ));
      in_use = sound.in_use;
      kind = λ i used.
          let old_kind = e.kind i (sym (share-used g new src i) ∙ used) in
          let new_kind = share-SameKind g new src i used in
          (new_kind.0 ∙ old_kind.0, new_kind.1 ∙ old_kind.1);
    }

-- With sound counts, `dup2` fails with EINVAL for a target out of range and with EBADF for a closed
-- source, and changes nothing then, nor when both are the same open descriptor. Otherwise the
-- target, closed first if it was open, refers to the file of the source, and the other
-- descriptors are as before: a file that the target referred to loses that reference and is freed
-- with its last one, the file of the source gains one, and files in use keep their kind and flags.
pub fd_dup2-Redirects :
    (old new : ℕ) (f : Files) → IsCounted f → Redirects f old new (fd_dup2 old new f)
unfolding fd_dup2
fd_dup2-Redirects old new f v =
    if-split (Redirects f old new) (is_neg new || leb max_fds new) (λ e. out_of_range e refl)
      λ range. elim (open-Found f old v) [
        | inl (shut, e) ↦
            option-split (Redirects f old new) (slot_ofile_by_fd f old)
              (λ e'. source_not_open range shut refl) (λ i found. absurd (ground (arith, e, found)))
        | inr (is_open, e, h) ↦
            option-split (Redirects f old new) (slot_ofile_by_fd f old)
              (λ none_found. absurd (ground (arith, e, none_found)))
              (λ i found.
                if-split (Redirects f old new) (old == new)
                  (λ same. itself is_open (ground arith) refl)
                  λ differ.
                    let at : (f.fdtab old).ofile_idx ≡ i = ground (arith, e, found) in
                    let ne : old ≢ new = (λ s. ground arith) in
                    redirected is_open ne refl (
                      subst (λ (k : ℕ). Redirected f old new (share (emptied new f) new k)) at
                        (share-Redirected old new f (emptied new f) (emptied_lem new f range v)
                          (ground arith) ne h)))
      ]
