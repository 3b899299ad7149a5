-- ===== src/Kernel/Files/Modes.antt =====
-- kernel/src/sched.c: what a descriptor allows.
use lamp_vm.Common.Tests.{
  ℕ, Bool, true, false, ◌&&◌, ◌||◌, not, Option, none, some, leb, ◌==◌, if◌then◌else◌,
}
use lamp_vm.Common.Word.{is_neg}
use lamp_vm.Common.Bits.Step.{bit_and}
use lamp_vm.Kernel.Files.{
  max_fds, FileType, Ofile, Files, FdResult, o_accmode, o_rdonly, o_wronly, o_rdwr, o_nonblock,
  stdin, stdout, stderr, dev_null, dev_zero, dev_tty, socket, done, ebadf, einval,
}
use lamp_vm.Kernel.Files.Slots.{slot_ofile_by_fd}

abbrev is_readable : FileType → Bool
is_readable stdin = true
is_readable dev_zero = true
is_readable dev_null = true
is_readable dev_tty = true
is_readable socket = true
is_readable _ = false

abbrev is_writable : FileType → Bool
is_writable stdout = true
is_writable stderr = true
is_writable dev_null = true
is_writable dev_zero = true
is_writable dev_tty = true
is_writable socket = true
is_writable _ = false

abbrev is_terminal : FileType → Bool
is_terminal stdin = true
is_terminal stdout = true
is_terminal stderr = true
is_terminal dev_tty = true
is_terminal _ = false

abbrev is_stdin_type : FileType → Bool
is_stdin_type stdin = true
is_stdin_type _ = false

abbrev pub asked : (Ofile → Bool) → ℕ → Files → Bool
unfolding slot_ofile_by_fd
asked p fd f = elim (slot_ofile_by_fd f fd) [ none ↦ false | some i ↦ p (f.ofiles i) ]

abbrev pub access : Ofile → ℕ
access o = bit_and o.status_flags o_accmode

unfoldable pub fd_can_read : ℕ → Files → Bool
fd_can_read = asked (λ o. (access o == o_rdonly || access o == o_rdwr) && is_readable o.type)

unfoldable pub fd_can_write : ℕ → Files → Bool
fd_can_write = asked (λ o. (access o == o_wronly || access o == o_rdwr) && is_writable o.type)

unfoldable fd_is_nonblock : ℕ → Files → Bool
fd_is_nonblock = asked (λ o. not (bit_and o.status_flags o_nonblock == 0))

unfoldable fd_is_stdin : ℕ → Files → Bool
fd_is_stdin = asked (λ o. is_stdin_type o.type)

unfoldable fd_is_tty : ℕ → Files → Bool
fd_is_tty = asked (λ o. is_terminal o.type)

unfoldable pub fd_is_open : ℕ → Files → Bool
fd_is_open fd f = if is_neg fd || leb max_fds fd then false else (f.fdtab fd).used

unfoldable pub fd_get_type : Bool → ℕ → Files → FdResult × Option FileType
unfolding slot_ofile_by_fd
fd_get_type has_out fd f = if not has_out then (einval, none) else elim (slot_ofile_by_fd f fd) [
  | none ↦ (ebadf, none)
  | some i ↦ (done 0, some (f.ofiles i).type)
]
