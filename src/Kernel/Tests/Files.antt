-- ===== src/Kernel/Tests/Files.antt =====
-- A task that opens, shares and closes descriptors.
use lamp_vm.Common.Tests.{◌≡◌, refl, true, false, List, [], ◌∷◌}
use lamp_vm.Kernel.Files.{Files, done}
use lamp_vm.Kernel.Files.Slots.{
  fd_table_init_stdio, slot_close_all_fds, slot_ofile_by_fd, first_unused, slot_find_free_fd,
}
use lamp_vm.Kernel.Files.Opens.{fd_dup, fd_dup2}
use lamp_vm.Kernel.Files.Modes.{fd_can_read, fd_can_write}
use lamp_vm.Kernel.Files.Counts.{IsCounted}
use lamp_vm.Kernel.Files.Calls.{FdCall, close, dup, dup2, open_special, setfl, call, calls}
use lamp_vm.Kernel.Files.Sharing.{
  AllFree, calls-IsCounted, Dups, fd_dup-Dups, Redirects, fd_dup2-Redirects,
}

-- A socket at 3, shared as 4; standard output shared as 9 and closed as 1.
abbrev shell : List FdCall
shell = open_special 4 2 ∷ dup 3 ∷ dup2 1 9 ∷ close 1 ∷ setfl 4 0x800 ∷ []

abbrev shell_files : Files
shell_files = calls shell fd_table_init_stdio

calls-IsCounted_example : IsCounted shell_files × AllFree (slot_close_all_fds shell_files)
calls-IsCounted_example = calls-IsCounted shell

fd_dup-Dups_example : Dups shell_files 4 (fd_dup 4 shell_files)
fd_dup-Dups_example = fd_dup-Dups 4 shell_files (calls-IsCounted shell).0

fd_dup2-Redirects_example : Redirects shell_files 9 3 (fd_dup2 9 3 shell_files)
fd_dup2-Redirects_example = fd_dup2-Redirects 9 3 shell_files (calls-IsCounted shell).0

-- The lowest closed descriptor is 1.
dup_takes_one : (fd_dup 4 shell_files).0 ≡ done 1
unfolding fd_dup calls call slot_ofile_by_fd slot_find_free_fd first_unused
dup_takes_one = refl

socket_is_shared : (shell_files.ofiles 3).refs ≡ 2
unfolding calls call slot_ofile_by_fd slot_find_free_fd first_unused
socket_is_shared = refl

output_still_writes : fd_can_write 9 shell_files ≡ true
unfolding fd_can_write calls call slot_ofile_by_fd slot_find_free_fd first_unused
output_still_writes = refl

output_does_not_read : fd_can_read 9 shell_files ≡ false
unfolding fd_can_read calls call slot_ofile_by_fd slot_find_free_fd first_unused
output_does_not_read = refl
