-- ===== src/Kernel/Console.antt =====
-- kernel/src/console.c: the input ring with its line discipline, and echo. The characters given to
-- `console_fb_putc` are collected in `screen`; the ring's wait queue is queue 16 of the scheduler.
pub mod Lines
pub mod Ring
pub mod Feed
pub mod Reads
pub mod Raw
use lamp_vm.Common.Tests.{
  ℕ, zero, suc, ◌+◌, ◌-◌, ◌%◌, ◌^◌, Bool, true, false, ◌&&◌, ◌||◌, not, List, [], ◌∷◌, ◌++◌, leb,
  ◌==◌, if◌then◌else◌,
}
use lamp_vm.Common.Arrays.{update}
use lamp_vm.Common.Word.{add32}
use lamp_vm.Common.Bits.Step.{bit_and}
use lamp_vm.Kernel.Sched.{Sched, waitq_init}
use lamp_vm.Kernel.Sched.Waits.{waitq_sleep, waitq_wake_one}

abbrev pub rx_waitq : ℕ
rx_waitq = 16

abbrev pub tty_echo : ℕ
tty_echo = 1

abbrev pub tty_icanon : ℕ
tty_icanon = 2

abbrev pub tty_isig : ℕ
tty_isig = 4

abbrev pub lflag_supported : ℕ
lflag_supported = 7

abbrev pub vintr : ℕ
vintr = 0x03

abbrev pub veof : ℕ
veof = 0x04

abbrev pub verase_bs : ℕ
verase_bs = 0x08

abbrev pub verase_del : ℕ
verase_del = 0x7f

abbrev pub vkill : ℕ
vkill = 0x15

abbrev pub newline : ℕ
newline = 0x0a

abbrev pub carriage_return : ℕ
carriage_return = 0x0d

pub record Console : Type 0 where
  pub rx_head : ℕ
  pub rx_tail : ℕ
  pub rx_dropped : ℕ
  pub rx_lines : ℕ
  pub rx_eofs : ℕ
  pub tty_lflag : ℕ
  pub rx_buf : ℕ → ℕ
  pub screen : List ℕ
  pub sched : Sched

abbrev pub has : ℕ → ℕ → Bool
has flags flag = not (bit_and flags flag == 0)

-- An index one place on, and one back, under CONSOLE_RX_MASK.
abbrev pub next : ℕ → ℕ
next i = (i + 1) % 2 ^ 8

abbrev pub prev : ℕ → ℕ
prev i = (i + 2 ^ 32 - 1) % 2 ^ 8

abbrev pub putc : ℕ → Console → Console
putc c s = record s { screen = s.screen ++ (c ∷ []) }

abbrev pub is_shown : ℕ → Bool
is_shown c =
    c == 0x07
    || c == newline
    || c == carriage_return
    || c == 0x09
    || c == 0x0b
    || c == 0x0c
    || (leb 0x20 c && leb c 0x7e)

abbrev pub echo_data_char : ℕ → Console → Console
echo_data_char c s =
    if not (has s.tty_lflag tty_echo) then s else if is_shown c then putc c s else s

abbrev pub echo_backspace : Console → Console
echo_backspace s = if not (has s.tty_lflag tty_echo) then s else putc 0x08 s

abbrev pub echo_intr : Console → Console
echo_intr s = if not (has s.tty_lflag tty_echo) then s else putc newline (putc 0x43 (putc 0x5e s))

abbrev pub ends_line : ℕ → Bool
ends_line c = c == newline || c == veof

-- Whether a byte was taken back, and the ring after.
unfoldable pub rx_pop_last_editable : Console → Bool × Console
rx_pop_last_editable s =
    if s.rx_head == s.rx_tail
    then (false, s)
    else if ends_line (s.rx_buf (prev s.rx_head))
    then (false, s)
    else (true, record s { rx_head = prev s.rx_head })

abbrev pub wake_reader : Console → Console
wake_reader s = record s { sched = waitq_wake_one rx_waitq s.sched }

-- The byte stands in the ring.
abbrev pub stored : ℕ → Console → Console
stored c s = record s {
  rx_buf = update s.rx_buf s.rx_head c;
  rx_head = next s.rx_head;
  rx_lines = if c == newline then add32 s.rx_lines 1 else s.rx_lines;
  rx_eofs = if c == newline then s.rx_eofs else if c == veof then add32 s.rx_eofs 1 else s.rx_eofs;
}

abbrev pub one_dropped : Console → Console
one_dropped s = record s { rx_dropped = add32 s.rx_dropped 1 }

unfoldable pub rx_enqueue_char : ℕ → Bool → Console → Console
rx_enqueue_char c do_echo s =
    if next s.rx_head == s.rx_tail
    then one_dropped s
    else wake_reader (if do_echo then echo_data_char c (stored c s) else stored c s)

unfoldable pub console_init : Console → Console
unfolding waitq_init
console_init s = record s {
  rx_head = 0;
  rx_tail = 0;
  rx_dropped = 0;
  rx_lines = 0;
  rx_eofs = 0;
  tty_lflag = lflag_supported;
  sched = waitq_init rx_waitq s.sched;
}

-- The loop that takes back a line. It runs on fuel.
unfoldable pub erase_line : ℕ → Console → Console
unfolding rx_pop_last_editable
erase_line zero s = s
erase_line (suc fuel) s =
    let (taken, s') = rx_pop_last_editable s in
    let rest = erase_line fuel (echo_backspace s') in if taken then rest else s'

-- No more rounds than the ring has places.
abbrev pub erase_rounds : ℕ
erase_rounds = 256

unfoldable pub rub_out : Console → Console
unfolding rx_pop_last_editable
rub_out s = let (taken, s') = rx_pop_last_editable s in if taken then echo_backspace s' else s'

-- `console_rx_feed` after the carriage return became a newline, with the flags as tests.
unfoldable pub feed : Bool → Bool → ℕ → Console → Console
unfolding erase_line rx_enqueue_char rub_out
feed canonical isig c s =
    if c == vintr && isig
    then rx_enqueue_char newline false (echo_intr (erase_line erase_rounds s))
    else if canonical && c == vkill
    then erase_line erase_rounds s
    else if canonical && (c == verase_bs || c == verase_del)
    then rub_out s
    else if canonical && c == veof
    then rx_enqueue_char c false s
    else if c == 0
    then s
    else rx_enqueue_char c true s

unfoldable pub rx_feed : ℕ → Console → Console
unfolding feed
rx_feed c s =
    feed (has s.tty_lflag tty_icanon) (has s.tty_lflag tty_isig)
      (if c == carriage_return then newline else c) s

unfoldable pub can_read : Console → Bool
can_read s =
    if has s.tty_lflag tty_icanon
    then not (s.rx_lines == 0) || not (s.rx_eofs == 0)
    else not (s.rx_head == s.rx_tail)

-- CONSOLE_IO_OK or 0, and CONSOLE_IO_BLOCKED.
pub data Wait : Type 0 where
  ready blocked : Wait

abbrev pub sleep_reader : ℕ → Console → Console
sleep_reader timeout_ticks s = record s { sched = waitq_sleep rx_waitq timeout_ticks s.sched }

unfoldable pub wait_readable : ℕ → Bool → Console → Wait × Console
unfolding can_read
wait_readable timeout_ticks nonblock s =
    if can_read s
    then (ready, s)
    else if nonblock
    then (ready, s)
    else (blocked, sleep_reader timeout_ticks s)

unfoldable pub tty_set_lflag : ℕ → Console → Console
tty_set_lflag lflag s = record s { tty_lflag = bit_and lflag lflag_supported }

-- The bytes read, whether the end of input was seen, and the console after.
abbrev pub Taken : Type 0
Taken = List ℕ × Bool × Console

abbrev pub advanced : Console → Console
advanced s = record s { rx_tail = next s.rx_tail }

abbrev pub prepend : ℕ → Taken → Taken
prepend c (bytes, eof, s) = (c ∷ bytes, eof, s)

-- The counter of lines after byte `c` was taken, and that of ends of input.
abbrev pub line_taken : ℕ → Console → Console
line_taken c s =
    if c == newline && not (s.rx_lines == 0) then record s { rx_lines = s.rx_lines - 1 } else s

abbrev pub eof_taken : Console → Console
eof_taken s = record s { rx_eofs = if s.rx_eofs == 0 then s.rx_eofs else s.rx_eofs - 1 }

-- A round of the loop with the byte at the tail, and the rounds after it.
abbrev pub byte_round : Bool → ℕ → Console → (Console → Taken) → Taken
byte_round canonical c s rest =
    if s.rx_tail == s.rx_head
    then ([], false, s)
    else if canonical && c == veof
    then ([], true, advanced (eof_taken s))
    else if (c == newline && not (s.rx_lines == 0)) && canonical
    then (c ∷ [], false, advanced (line_taken c s))
    else prepend c (rest (advanced (line_taken c s)))

-- The loop of a read, with the places left in the buffer.
unfoldable pub take_bytes : Bool → ℕ → Console → Taken
take_bytes canonical zero s = ([], false, s)
take_bytes canonical (suc left) s =
    byte_round canonical (s.rx_buf s.rx_tail) s (take_bytes canonical left)

-- The bytes that were put into the buffer, and CONSOLE_IO_BLOCKED.
pub data Reading : Type 0 where
  bytes : List ℕ → Reading
  blocked_read : Reading

abbrev pub blocks : Console → Reading × Console
blocks s = (blocked_read, sleep_reader 0 s)

abbrev pub read_result : Bool → Bool → Taken → Reading × Console
read_result canonical nonblock ([], eof, s) =
    if canonical && eof then (bytes [], s) else if nonblock then (bytes [], s) else blocks s
read_result canonical nonblock (c ∷ q, eof, s) = (bytes (c ∷ q), s)

-- `has_dst` says whether the buffer is not null.
unfoldable pub console_read : Bool → ℕ → Bool → Console → Reading × Console
unfolding take_bytes
console_read has_dst len nonblock s =
    let canonical = has s.tty_lflag tty_icanon in
    if not has_dst || len == 0
    then (bytes [], s)
    else if canonical && (s.rx_lines == 0 && s.rx_eofs == 0)
    then if nonblock then (bytes [], s) else blocks s
    else read_result canonical nonblock (take_bytes canonical len s)

unfoldable pub console_write : List ℕ → Console → Console
console_write [] s = s
console_write (c ∷ cs) s = console_write cs (putc c s)
