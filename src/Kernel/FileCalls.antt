-- ===== src/Kernel/FileCalls.antt =====
-- kernel/src/syscall.c: the calls on descriptors, devices by name, and sockets. A string is the list of its
-- characters before the 0.
pub mod Paths
use lamp_vm.Common.Tests.{
  ℕ, zero, suc, ◌-◌, Bool, true, false, ◌||◌, not, List, [], ◌∷◌, Option, none, some, ◌==◌,
  if◌then◌else◌,
}
use lamp_vm.Common.Word.{add32, not32}
use lamp_vm.Common.Bits.Step.{bit_and, bit_or}
use lamp_vm.Kernel.Files.{
  Files, FdResult, FileType, o_accmode, o_rdonly, o_wronly, o_rdwr, o_nonblock,
}
use lamp_vm.Kernel.Files.Slots.{slot_close_fd}
use lamp_vm.Kernel.Files.Modes.{fd_is_open, fd_get_type}
use lamp_vm.Kernel.Files.Opens.{
  fd_dup, fd_dup2, fd_open_special, fd_fcntl_getfl, fd_fcntl_getfd, fd_fcntl_setfl, fd_fcntl_setfd,
}
use lamp_vm.Kernel.Sched.{Sched, current_slot}
use lamp_vm.Kernel.Sched.Tasks.{on_files}
use lamp_vm.Kernel.Clock.{Kernel, Reply, Errno, returned, failed}
use lamp_vm.Kernel.Clock.User.{ptr_range_ok}

abbrev pub errno_from_fd_rc : FdResult → Errno
errno_from_fd_rc FdResult.ebadf = Errno.ebadf
errno_from_fd_rc FdResult.emfile = Errno.emfile
errno_from_fd_rc FdResult.einval = Errno.einval
errno_from_fd_rc (FdResult.done n) = Errno.einval

abbrev pub fd_reply : FdResult → Reply
fd_reply (FdResult.done n) = returned n
fd_reply r = failed (errno_from_fd_rc r)

abbrev pub fd_call : (Files → FdResult × Files) → Kernel → Reply × Kernel
fd_call f k = let (r, s) = on_files f k.sched in (fd_reply r, record k { sched = s })

-- A question to the tables of the current task, with the answer where there is none.
abbrev pub ask_files {ℓ} : {A : Type ℓ} → (Files → A) → A → Sched → A
ask_files f d s = elim (current_slot s) [ none ↦ d | some i ↦ f (s.tasks i).files ]

abbrev pub fd_is_valid : ℕ → Sched → Bool
fd_is_valid fd = ask_files (fd_is_open fd) false

abbrev pub type_or_none : FdResult × Option FileType → FileType
type_or_none (FdResult.done n, some t) = t
type_or_none _ = FileType.untyped

abbrev pub fd_type : ℕ → Sched → FileType
fd_type fd s = type_or_none (ask_files (fd_get_type true fd) (FdResult.ebadf, none) s)

abbrev pub is_socket : FileType → Bool
is_socket FileType.socket = true
is_socket _ = false

unfoldable pub sys_close : ℕ → Kernel → Reply × Kernel
sys_close fd = fd_call (slot_close_fd fd)

unfoldable pub sys_dup : ℕ → Kernel → Reply × Kernel
sys_dup fd = fd_call (fd_dup fd)

unfoldable pub sys_dup2 : ℕ → ℕ → Kernel → Reply × Kernel
sys_dup2 oldfd newfd = fd_call (fd_dup2 oldfd newfd)

-- The flags that a query stored.
abbrev pub flags_reply : FdResult × Option ℕ → Reply
flags_reply (FdResult.done n, some flags) = returned flags
flags_reply (FdResult.done n, none) = returned 0
flags_reply (r, out) = failed (errno_from_fd_rc r)

abbrev pub f_getfd : ℕ
f_getfd = 1

abbrev pub f_setfd : ℕ
f_setfd = 2

abbrev pub f_getfl : ℕ
f_getfl = 3

abbrev pub f_setfl : ℕ
f_setfl = 4

unfoldable pub sys_fcntl : ℕ → ℕ → ℕ → Kernel → Reply × Kernel
sys_fcntl fd cmd arg k =
    if cmd == f_getfd
    then (flags_reply (ask_files (fd_fcntl_getfd true fd) (FdResult.ebadf, none) k.sched), k)
    else if cmd == f_setfd
    then fd_call (fd_fcntl_setfd fd arg) k
    else if cmd == f_getfl
    then (flags_reply (ask_files (fd_fcntl_getfl true fd) (FdResult.ebadf, none) k.sched), k)
    else if cmd == f_setfl
    then fd_call (fd_fcntl_setfl fd arg) k
    else (failed Errno.einval, k)

abbrev pub fs_path_cap : ℕ
fs_path_cap = 64

abbrev with_char : ℕ → Option (List ℕ) → Option (List ℕ)
with_char c none = none
with_char c (some cs) = some (c ∷ cs)

-- The characters from `addr` on, `left` of them at most with the 0.
unfoldable pub read_cstr_from : ℕ → ℕ → (ℕ → ℕ) → Option (List ℕ)
unfolding ptr_range_ok
read_cstr_from zero addr mem = none
read_cstr_from (suc left) addr mem =
    let rest = read_cstr_from left (add32 addr 1) mem in
    if not (ptr_range_ok addr 1)
    then none
    else if mem addr == 0
    then some []
    else with_char (mem addr) rest

unfoldable pub user_read_cstr : ℕ → ℕ → (ℕ → ℕ) → Option (List ℕ)
unfolding read_cstr_from
user_read_cstr addr cap mem =
    if cap == 0 || addr == 0 then none else read_cstr_from (cap - 1) addr mem

unfoldable pub str_eq : List ℕ → List ℕ → Bool
str_eq [] [] = true
str_eq (a ∷ cs) (b ∷ ds) = let rest = str_eq cs ds in if not (a == b) then false else rest
str_eq [] (b ∷ ds) = false
str_eq (a ∷ cs) [] = false

abbrev pub dev_null_path : List ℕ
dev_null_path = 47 ∷ 100 ∷ 101 ∷ 118 ∷ 47 ∷ 110 ∷ 117 ∷ 108 ∷ 108 ∷ []

abbrev pub dev_zero_path : List ℕ
dev_zero_path = 47 ∷ 100 ∷ 101 ∷ 118 ∷ 47 ∷ 122 ∷ 101 ∷ 114 ∷ 111 ∷ []

abbrev pub dev_tty_path : List ℕ
dev_tty_path = 47 ∷ 100 ∷ 101 ∷ 118 ∷ 47 ∷ 116 ∷ 116 ∷ 121 ∷ []

unfoldable pub open_path_to_special : List ℕ → Option ℕ
unfolding str_eq
open_path_to_special path =
    if str_eq path dev_null_path
    then some 1
    else if str_eq path dev_zero_path
    then some 2
    else if str_eq path dev_tty_path
    then some 3
    else none

abbrev pub open_flags : ℕ
open_flags = 0xA43

abbrev pub open_accmode_ok : ℕ → Bool
open_accmode_ok acc = acc == o_rdonly || acc == o_wronly || acc == o_rdwr

-- `open` with its path, and with the device that the path names.
abbrev pub open_device : ℕ → Kernel → Option ℕ → Reply × Kernel
open_device flags k none = (failed Errno.enoent, k)
open_device flags k (some n) =
    fd_call (fd_open_special n (bit_and flags (bit_or o_accmode o_nonblock))) k

abbrev pub open_path : ℕ → Kernel → Option (List ℕ) → Reply × Kernel
open_path flags k none = (failed Errno.efault, k)
open_path flags k (some path) = open_device flags k (open_path_to_special path)

unfoldable pub sys_open : ℕ → ℕ → Kernel → Reply × Kernel
sys_open path_addr flags k =
    if not (bit_and flags (not32 open_flags) == 0)
    then (failed Errno.einval, k)
    else if not (open_accmode_ok (bit_and flags o_accmode))
    then (failed Errno.einval, k)
    else open_path flags k (user_read_cstr path_addr fs_path_cap k.memory)

unfoldable pub sys_socket : ℕ → ℕ → Kernel → Reply × Kernel
sys_socket domain type k =
    if not (domain == 1 || domain == 2 || domain == 10)
    then (failed Errno.eafnosupport, k)
    else if bit_and type 0xF == 0
    then (failed Errno.einval, k)
    else fd_call
        (fd_open_special 4
          (if not (bit_and type 0x800 == 0) then bit_or o_rdwr o_nonblock else o_rdwr))
        k

-- SYS_CONNECT to SYS_RECV: no socket is ever connected.
unfoldable pub sys_on_socket : ℕ → ℕ → Kernel → Reply × Kernel
sys_on_socket nr fd k =
    if not (fd_is_valid fd k.sched)
    then (failed Errno.ebadf, k)
    else if not (is_socket (fd_type fd k.sched))
    then (failed Errno.enotsock, k)
    else if nr == 26 || nr == 27
    then (failed Errno.enotconn, k)
    else (failed Errno.eopnotsupp, k)
