-- ===== src/Kernel/Files/Calls.antt =====
-- The calls on a task's descriptors as data, and sequences of them.
use lamp_vm.Common.Tests.{
  ℕ, ◌+◌, ◌<◌, ◌≡◌, ◌≢◌, refl, true, false, ◌||◌, inl, inr, some, List, [], ◌∷◌, leb, ◌==◌,
  if-split, option-split, ◌⊎◌, arith, ap, ◌∙◌, subst, sym,
}
use lamp_vm.Common.Arrays.{update_self, update_ne}
use lamp_vm.Common.Word.{is_neg}
use lamp_vm.Common.Bits.Step.{bit_and}
use lamp_vm.Kernel.Files.{Files, Fdent, FdResult, done, ebadf, max_fds, fd_cloexec, no_fdent}
use lamp_vm.Kernel.Files.Slots.{
  drop_fd, slot_ofile_by_fd, slot_find_free_fd, slot_find_free_ofile, slot_close_fd, emptied,
}
use lamp_vm.Kernel.Files.Opens.{
  share, special, fd_dup, fd_dup2, fd_open_special, fd_fcntl_setfd, fd_fcntl_setfl,
}
use lamp_vm.Kernel.Files.Modes.{fd_is_open}
use lamp_vm.Kernel.Files.Counts.{IsCounted, points, holders-update}
use lamp_vm.Kernel.Files.Invariant.{
  Found, slot_ofile_by_fd-Found, drop_fd-IsCounted, share-IsCounted, open-IsCounted,
  first_unused-lt, open-Found,
}

pub data FdCall : Type 0 where
  close dup : ℕ → FdCall
  dup2 open_special setfd setfl : ℕ → ℕ → FdCall

unfoldable pub call : FdCall → Files → FdResult × Files
unfolding slot_close_fd fd_dup fd_dup2 fd_open_special fd_fcntl_setfd fd_fcntl_setfl
call (close fd) f = slot_close_fd fd f
call (dup fd) f = fd_dup fd f
call (dup2 old new) f = fd_dup2 old new f
call (open_special n flags) f = fd_open_special n flags f
call (setfd fd flags) f = fd_fcntl_setfd fd flags f
call (setfl fd flags) f = fd_fcntl_setfl fd flags f

unfoldable pub calls : List FdCall → Files → Files
calls [] f = f
calls (c ∷ cs) f = calls cs (call c f).1

pub find_free_fd-lt :
    (f : Files) (n : ℕ)
    → slot_find_free_fd f 0 ≡ some n
    → (n < max_fds) × ((f.fdtab n).used ≡ false)
unfolding slot_find_free_fd
find_free_fd-lt f n e = ground (arith, first_unused-lt (λ i. (f.fdtab i).used) max_fds 0 n e)

pub find_free_ofile-lt :
    (f : Files) (n : ℕ)
    → slot_find_free_ofile f ≡ some n
    → (n < max_fds) × ((f.ofiles n).used ≡ false)
unfolding slot_find_free_ofile
find_free_ofile-lt f n e = ground (arith, first_unused-lt (λ i. (f.ofiles i).used) max_fds 0 n e)

-- What a call leaves.
abbrev LeavesCounted : FdResult × Files → Type 0
LeavesCounted r = IsCounted r.1

pub slot_close_fd-IsCounted : (fd : ℕ) (f : Files) → IsCounted f → IsCounted (slot_close_fd fd f).1
unfolding slot_close_fd
slot_close_fd-IsCounted fd f v =
    option-split LeavesCounted (slot_ofile_by_fd f fd) (λ e. v)
      (λ i e. drop_fd-IsCounted f v fd i (slot_ofile_by_fd-Found f fd i e))

fd_dup-IsCounted : (fd : ℕ) (f : Files) → IsCounted f → IsCounted (fd_dup fd f).1
unfolding fd_dup
fd_dup-IsCounted fd f v =
    option-split LeavesCounted (slot_ofile_by_fd f fd) (λ e. v)
      λ i e.
        option-split LeavesCounted (slot_find_free_fd f 0) (λ e'. v)
          λ n e'.
            let h = slot_ofile_by_fd-Found f fd i e in
            let (b, u) = find_free_fd-lt f n e' in share-IsCounted f v n i b u h.below h.file_used

fd_open_special-IsCounted :
    (n flags : ℕ) (f : Files) → IsCounted f → IsCounted (fd_open_special n flags f).1
unfolding fd_open_special
fd_open_special-IsCounted n flags f v =
    option-split LeavesCounted (special n) (λ e. v)
      λ t e.
        option-split LeavesCounted (slot_find_free_fd f 0) (λ e'. v)
          λ fd e'.
            option-split LeavesCounted (slot_find_free_ofile f) (λ e''. v)
              λ i e''.
                let (b, u) = find_free_fd-lt f fd e' in
                let (l, w) = find_free_ofile-lt f i e'' in open-IsCounted f v fd i t _ b u l w

fd_fcntl_setfl-IsCounted :
    (fd flags : ℕ) (f : Files) → IsCounted f → IsCounted (fd_fcntl_setfl fd flags f).1
unfolding fd_fcntl_setfl
fd_fcntl_setfl-IsCounted fd flags f v =
    option-split LeavesCounted (slot_ofile_by_fd f fd) (λ e. v)
      λ i e. record {
        in_table = v.in_table;
        counted = λ j l. ground (arith, v.counted j l);
        in_use = λ j l. ground (arith, v.in_use j l);
      }

fd_fcntl_setfd-IsCounted :
    (fd flags : ℕ) (f : Files) → IsCounted f → IsCounted (fd_fcntl_setfd fd flags f).1
unfolding fd_fcntl_setfd
fd_fcntl_setfd-IsCounted fd flags f v =
    option-split LeavesCounted (slot_ofile_by_fd f fd) (λ e. v)
      λ i e.
        let h = slot_ofile_by_fd-Found f fd i e in
        let entry : Fdent = record (f.fdtab fd) { fd_flags = bit_and flags fd_cloexec } in
        record {
          in_table = λ g l u. ground (arith, v.in_table g l);
          counted = λ j l.
              omega (arith, v.counted j l, holders-update f.fdtab fd entry j max_fds h.fd_below);
          in_use = v.in_use;
        }

-- What `close` does.
pub slot_close_fd_cases :
    (fd : ℕ) (f : Files)
    → IsCounted f
    → ((fd_is_open fd f ≡ false) × (slot_close_fd fd f ≡ (ebadf, f)))
      ⊎ ((fd_is_open fd f ≡ true)
          × (slot_close_fd fd f ≡ (done 0, drop_fd f fd (f.fdtab fd).ofile_idx))
          × Found f fd (f.fdtab fd).ofile_idx)
unfolding slot_close_fd
slot_close_fd_cases fd f v = elim (open-Found f fd v) [
  | inl (shut, e) ↦ inl (shut, rw (e, slot_close_fd) refl)
  | inr (open_fd, e, h) ↦ inr (open_fd, rw (e, slot_close_fd) refl, h)
]

-- A file that is still in use keeps its kind and flags.
abbrev pub SameKind : Files → Files → Type 0
SameKind f g =
    (i : ℕ)
    → (g.ofiles i).used ≡ true
    → ((g.ofiles i).type ≡ (f.ofiles i).type)
      × ((g.ofiles i).status_flags ≡ (f.ofiles i).status_flags)

drop_fd-refs :
    (f : Files) (fd i : ℕ)
    → Found f fd (f.fdtab fd).ofile_idx
    → ((drop_fd f fd (f.fdtab fd).ofile_idx).ofiles i).refs + points (f.fdtab fd) i
      ≡ (f.ofiles i).refs
drop_fd-refs f fd i h = ground (arith, h.fd_used, h.referred)

drop_fd-SameKind : (f : Files) (fd j : ℕ) → SameKind f (drop_fd f fd j)
drop_fd-SameKind f fd j i used = ground (arith, used)

-- After `dup2` has closed its target: the file that it referred to, if it was open, has one
-- reference less.
pub record Emptied (fd : ℕ) (f g : Files) : Type 0 where
  pub refs : (i : ℕ) → (g.ofiles i).refs + points (f.fdtab fd) i ≡ (f.ofiles i).refs
  pub kind : SameKind f g
  pub sound : IsCounted g
  pub free : (g.fdtab fd).used ≡ false
  pub others : (m : ℕ) → m ≢ fd → g.fdtab m ≡ f.fdtab m

pub emptied_lem :
    (fd : ℕ) (f : Files)
    → is_neg fd || leb max_fds fd ≡ false
    → IsCounted f
    → Emptied fd f (emptied fd f)
unfolding emptied fd_is_open
emptied_lem fd f range v =
    if-split (Emptied fd f) (f.fdtab fd).used
      (λ used. elim (slot_close_fd_cases fd f v) [
        | inl (shut, e) ↦ absurd (ground arith)
        | inr (open_fd, e, h) ↦ subst (Emptied fd f) (sym (ap (λ r. r.1) e)) (record {
          sound = drop_fd-IsCounted f v fd (f.fdtab fd).ofile_idx h;
          free = ap (λ t. t.used) (update_self f.fdtab fd no_fdent);
          others = λ m ne. update_ne f.fdtab fd m no_fdent (λ e'. ne (sym e'));
          refs = λ i. drop_fd-refs f fd i h;
          kind = drop_fd-SameKind f fd (f.fdtab fd).ofile_idx;
        })
      ])
      (λ free. record {
        sound = v;
        free = free;
        others = λ m ne. refl;
        refs = λ i. ground (arith, free);
        kind = λ i used. (refl, refl);
      })

-- Another open descriptor is still open then, and refers to the same file.
pub Emptied-Found :
    (fd other : ℕ) (f g : Files)
    → Emptied fd f g
    → other ≢ fd
    → Found f other (f.fdtab other).ofile_idx
    → Found g other (f.fdtab other).ofile_idx
unfolding fd_is_open
Emptied-Found fd other f g e ne h =
    let same = e.others other ne in
    let used : (g.fdtab other).used ≡ true = ap (λ t. t.used) same ∙ h.fd_used in
    let l = h.fd_below in
    elim (open-Found g other e.sound) [
      | inl (shut, e') ↦ absurd (ground (arith, used, l, shut))
      | inr (open_fd, e', h') ↦ subst (Found g other) (ap (λ t. t.ofile_idx) same) h'
    ]

pub share-Emptied :
    (fd other : ℕ) (f g : Files)
    → Emptied fd f g
    → fd < max_fds
    → other ≢ fd
    → Found f other (f.fdtab other).ofile_idx
    → IsCounted (share g fd (f.fdtab other).ofile_idx)
share-Emptied fd other f g e b ne h =
    let h' = Emptied-Found fd other f g e ne h in
    share-IsCounted g e.sound fd (f.fdtab other).ofile_idx b e.free h'.below h'.file_used

fd_dup2-IsCounted : (old new : ℕ) (f : Files) → IsCounted f → IsCounted (fd_dup2 old new f).1
unfolding fd_dup2
fd_dup2-IsCounted old new f v =
    if-split LeavesCounted (is_neg new || leb max_fds new) (λ e. v)
      λ range.
        option-split LeavesCounted (slot_ofile_by_fd f old) (λ e. v)
          λ i e.
            if-split LeavesCounted (old == new) (λ e'. v)
              λ e'.
                let h = slot_ofile_by_fd-Found f old i e in
                let at = h.idx in
                subst (λ (k : ℕ). IsCounted (share (emptied new f) new k)) at
                  (share-Emptied new old f (emptied new f) (emptied_lem new f range v)
                    (ground arith) (λ s. ground arith) (subst (Found f old) (sym at) h))

pub call-IsCounted : (c : FdCall) (f : Files) → IsCounted f → IsCounted (call c f).1
unfolding call
call-IsCounted (close fd) f v = slot_close_fd-IsCounted fd f v
call-IsCounted (dup fd) f v = fd_dup-IsCounted fd f v
call-IsCounted (dup2 old new) f v = fd_dup2-IsCounted old new f v
call-IsCounted (open_special n flags) f v = fd_open_special-IsCounted n flags f v
call-IsCounted (setfd fd flags) f v = fd_fcntl_setfd-IsCounted fd flags f v
call-IsCounted (setfl fd flags) f v = fd_fcntl_setfl-IsCounted fd flags f v

pub calls_keep : (cs : List FdCall) (f : Files) → IsCounted f → IsCounted (calls cs f)
unfolding calls
calls_keep [] f v = v
calls_keep (c ∷ cs) f v = calls_keep cs (call c f).1 (call-IsCounted c f v)
