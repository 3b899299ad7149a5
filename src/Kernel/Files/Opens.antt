-- ===== src/Kernel/Files/Opens.antt =====
-- kernel/src/sched.c: duplicating, opening and controlling descriptors.
use lamp_vm.Common.Tests.{ℕ, Bool, ◌||◌, not, Option, none, some, leb, ◌==◌, if◌then◌else◌}
use lamp_vm.Common.Arrays.{update}
use lamp_vm.Common.Word.{add32, is_neg, not32}
use lamp_vm.Common.Bits.Step.{bit_and, bit_or}
use lamp_vm.Kernel.Files.{
  max_fds, FileType, Files, FdResult, o_accmode, o_nonblock, fd_cloexec, opened, refers_to,
  dev_null, dev_zero, dev_tty, socket, done, ebadf, emfile, einval,
}
use lamp_vm.Kernel.Files.Slots.{slot_ofile_by_fd, slot_find_free_fd, slot_find_free_ofile, emptied}

-- One reference more, from a descriptor.
abbrev pub share : Files → ℕ → ℕ → Files
share f fd i = record {
  ofiles = update f.ofiles i (record (f.ofiles i) { refs = add32 (f.ofiles i).refs 1 });
  fdtab = update f.fdtab fd (refers_to i);
}

unfoldable pub fd_dup : ℕ → Files → FdResult × Files
unfolding slot_ofile_by_fd slot_find_free_fd
fd_dup oldfd f = elim (slot_ofile_by_fd f oldfd) [
  | none ↦ (ebadf, f)
  | some i ↦ elim (slot_find_free_fd f 0) [
    | none ↦ (emfile, f)
    | some newfd ↦ (done newfd, share f newfd i)
  ]
]

unfoldable pub fd_dup2 : ℕ → ℕ → Files → FdResult × Files
unfolding slot_ofile_by_fd emptied
fd_dup2 oldfd newfd f =
    if is_neg newfd || leb max_fds newfd then (einval, f) else elim (slot_ofile_by_fd f oldfd) [
      | none ↦ (ebadf, f)
      | some i ↦
          if oldfd == newfd then (done newfd, f) else (done newfd, share (emptied newfd f) newfd i)
    ]

-- SCHED_FD_SPECIAL_*
abbrev pub special : ℕ → Option FileType
special n =
    if n == 1
    then some dev_null
    else if n == 2
    then some dev_zero
    else if n == 3
    then some dev_tty
    else if n == 4
    then some socket
    else none

unfoldable pub fd_open_special : ℕ → ℕ → Files → FdResult × Files
unfolding slot_find_free_fd slot_find_free_ofile
fd_open_special n status_flags f = elim (special n) [
  | none ↦ (einval, f)
  | some t ↦ elim (slot_find_free_fd f 0) [
    | none ↦ (emfile, f)
    | some fd ↦ elim (slot_find_free_ofile f) [
      | none ↦ (emfile, f)
      | some i ↦ (
        done fd,
        record {
          ofiles =
              update f.ofiles i (opened t (bit_and status_flags (bit_or o_accmode o_nonblock)));
          fdtab = update f.fdtab fd (refers_to i);
        },
      )
    ]
  ]
]

-- The queries: `has_out` says whether the pointer for the answer is not null; the answer stored is
-- the second result.
unfoldable pub fd_fcntl_getfl : Bool → ℕ → Files → FdResult × Option ℕ
unfolding slot_ofile_by_fd
fd_fcntl_getfl has_out fd f = if not has_out then (einval, none) else elim (slot_ofile_by_fd f fd) [
  | none ↦ (ebadf, none)
  | some i ↦ (done 0, some (f.ofiles i).status_flags)
]

unfoldable pub fd_fcntl_getfd : Bool → ℕ → Files → FdResult × Option ℕ
unfolding slot_ofile_by_fd
fd_fcntl_getfd has_out fd f = if not has_out then (einval, none) else elim (slot_ofile_by_fd f fd) [
  | none ↦ (ebadf, none)
  | some i ↦ (done 0, some (f.fdtab fd).fd_flags)
]

unfoldable pub fd_fcntl_setfd : ℕ → ℕ → Files → FdResult × Files
unfolding slot_ofile_by_fd
fd_fcntl_setfd fd flags f = elim (slot_ofile_by_fd f fd) [
  | none ↦ (ebadf, f)
  | some i ↦ (
    done 0,
    record f {
      fdtab = update f.fdtab fd (record (f.fdtab fd) { fd_flags = bit_and flags fd_cloexec });
    },
  )
]

unfoldable pub fd_fcntl_setfl : ℕ → ℕ → Files → FdResult × Files
unfolding slot_ofile_by_fd
fd_fcntl_setfl fd flags f = elim (slot_ofile_by_fd f fd) [
  | none ↦ (ebadf, f)
  | some i ↦
      let o = f.ofiles i in
      (
        done 0,
        record f {
          ofiles = update f.ofiles i (record o {
            status_flags =
                bit_or (bit_and o.status_flags (not32 o_nonblock)) (bit_and flags o_nonblock);
          });
        },
      )
]
