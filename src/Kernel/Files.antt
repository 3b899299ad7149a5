-- ===== src/Kernel/Files.antt =====
-- kernel/src/sched.c: the descriptors and open files of one task slot. A C `int` is a pattern of 32
-- bits. An open file is shared by the descriptors that `dup` and `dup2` make, and counted.
pub mod Counts
pub mod Invariant
pub mod Calls
pub mod Sharing
pub mod Slots
pub mod Modes
pub mod Opens
use lamp_vm.Common.Tests.{
  ℕ, zero, suc, ◌+◌, ◌-◌, ◌≡◌, refl, Bool, true, false, ◌&&◌, ◌||◌, not, Option, none, some, ltb,
  leb, ◌==◌, if◌then◌else◌,
}
use lamp_vm.Common.Arrays.{update}
use lamp_vm.Common.Word.{add32, is_neg, not32}
use lamp_vm.Common.Bits.Step.{bit_and, bit_or}

abbrev pub max_fds : ℕ
max_fds = 32

-- SCHED_OFILE_TYPE_*
pub data FileType : Type 0 where
  untyped stdin stdout stderr dev_null dev_zero dev_tty socket : FileType

pub record Ofile : Type 0 where
  pub used : Bool
  pub refs : ℕ
  pub type : FileType
  pub status_flags : ℕ

pub record Fdent : Type 0 where
  pub used : Bool
  pub ofile_idx : ℕ
  pub fd_flags : ℕ

pub record Files : Type 0 where
  pub ofiles : ℕ → Ofile
  pub fdtab : ℕ → Fdent

-- A descriptor or SCHED_FD_OK, and the codes below 0.
pub data FdResult : Type 0 where
  done : ℕ → FdResult
  ebadf emfile einval : FdResult

abbrev pub o_accmode : ℕ
o_accmode = 3

abbrev pub o_rdonly : ℕ
o_rdonly = 0

abbrev pub o_wronly : ℕ
o_wronly = 1

abbrev pub o_rdwr : ℕ
o_rdwr = 2

abbrev pub o_nonblock : ℕ
o_nonblock = 0x800

abbrev pub fd_cloexec : ℕ
fd_cloexec = 1

-- SCHED_FD_OFILE_INVALID
abbrev ofile_invalid : ℕ
ofile_invalid = 0xffffffff

abbrev pub no_ofile : Ofile
no_ofile = record { used = false; refs = 0; type = untyped; status_flags = 0 }

abbrev pub no_fdent : Fdent
no_fdent = record { used = false; ofile_idx = ofile_invalid; fd_flags = 0 }

abbrev pub opened : FileType → ℕ → Ofile
opened t flags = record { used = true; refs = 1; type = t; status_flags = flags }

abbrev pub refers_to : ℕ → Fdent
refers_to i = record { used = true; ofile_idx = i; fd_flags = 0 }
