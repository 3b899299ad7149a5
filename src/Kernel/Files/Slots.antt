-- ===== src/Kernel/Files/Slots.antt =====
-- kernel/src/sched.c: the tables of a task: searches, closing, and the state at its start.
use lamp_vm.Common.Tests.{
  ℕ, zero, suc, ◌-◌, Bool, false, ◌||◌, not, Option, none, some, leb, ◌==◌, if◌then◌else◌,
}
use lamp_vm.Common.Arrays.{update}
use lamp_vm.Common.Word.{is_neg}
use lamp_vm.Kernel.Files.{
  max_fds, Ofile, Files, FdResult, o_rdonly, o_wronly, no_ofile, no_fdent, opened, refers_to,
  untyped, stdin, stdout, stderr, done, ebadf,
}

-- The tables after `sched_fd_table_clear`, whatever they were.
abbrev fd_table_clear : Files
fd_table_clear = record { ofiles = λ i. no_ofile; fdtab = λ i. no_fdent }

abbrev pub fd_table_init_stdio : Files
fd_table_init_stdio = record {
  ofiles =
      update
        (update (update fd_table_clear.ofiles 0 (opened stdin o_rdonly)) 1 (opened stdout o_wronly))
        2 (opened stderr o_wronly);
  fdtab =
      update (update (update fd_table_clear.fdtab 0 (refers_to 0)) 1 (refers_to 1)) 2 (refers_to 2);
}

-- The index of the open file behind a descriptor; the entry is that of the descriptor.
unfoldable pub slot_ofile_by_fd : Files → ℕ → Option ℕ
slot_ofile_by_fd f fd =
    let i = (f.fdtab fd).ofile_idx in
    if is_neg fd || leb max_fds fd
    then none
    else if not (f.fdtab fd).used
    then none
    else if leb max_fds i
    then none
    else if not (f.ofiles i).used || (f.ofiles i).refs == 0
    then none
    else some i

-- The loops over a table: the rounds left, then the index.
unfoldable pub first_unused : (ℕ → Bool) → ℕ → ℕ → Option ℕ
first_unused used zero i = none
first_unused used (suc rounds) i =
    let rest = first_unused used rounds (suc i) in if used i then rest else some i

unfoldable pub slot_find_free_fd : Files → ℕ → Option ℕ
unfolding first_unused
slot_find_free_fd f start =
    if leb max_fds start then none else first_unused (λ i. (f.fdtab i).used) (max_fds - start) start

unfoldable pub slot_find_free_ofile : Files → Option ℕ
unfolding first_unused
slot_find_free_ofile f = first_unused (λ i. (f.ofiles i).used) max_fds 0

-- One reference less; the file is freed with the last.
abbrev dropped : Ofile → Ofile
dropped o =
    let refs = if o.refs == 0 then o.refs else o.refs - 1 in
    if refs == 0
    then record { used = false; refs = refs; type = untyped; status_flags = 0 }
    else record o { refs = refs }

abbrev pub drop_fd : Files → ℕ → ℕ → Files
drop_fd f fd i = record {
  ofiles = update f.ofiles i (dropped (f.ofiles i));
  fdtab = update f.fdtab fd no_fdent;
}

unfoldable pub slot_close_fd : ℕ → Files → FdResult × Files
unfolding slot_ofile_by_fd
slot_close_fd fd f = elim (slot_ofile_by_fd f fd) [
  | none ↦ (ebadf, f)
  | some i ↦ (done 0, drop_fd f fd i)
]

-- The descriptor is closed if it is open.
unfoldable pub emptied : ℕ → Files → Files
unfolding slot_close_fd
emptied fd f = if (f.fdtab fd).used then (slot_close_fd fd f).1 else f

unfoldable pub close_from : ℕ → ℕ → Files → Files
unfolding emptied
close_from zero i f = f
close_from (suc rounds) i f = close_from rounds (suc i) (emptied i f)

unfoldable pub slot_close_all_fds : Files → Files
unfolding close_from
slot_close_all_fds f = close_from max_fds 0 f
