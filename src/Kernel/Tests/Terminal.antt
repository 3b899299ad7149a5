-- ===== src/Kernel/Tests/Terminal.antt =====
-- A terminal on which a line is typed.
use lamp_vm.Common.Tests.{◌≡◌, refl, true, false, [], ◌∷◌, ◌==◌, if◌then◌else◌, arith}
use lamp_vm.Common.Arrays.{update}
use lamp_vm.Kernel.Console.{
  Console, rx_feed, console_read, take_bytes, bytes, has, tty_icanon, tty_isig, carriage_return,
  newline, tty_set_lflag, lflag_supported, can_read, blocks,
}
use lamp_vm.Kernel.Console.Lines.{discipline}
use lamp_vm.Kernel.Console.Ring.{Holds, waiting}
use lamp_vm.Kernel.Console.Feed.{rx_feed-discipline}
use lamp_vm.Kernel.Console.Reads.{CanonicalRead, console_read-CanonicalRead}
use lamp_vm.Kernel.Console.Raw.{raw_read-stale}
use lamp_vm.Kernel.Tests.Tasks.{memory_zero}

abbrev pub quiet : Console
quiet = record {
  rx_head = 0;
  rx_tail = 0;
  rx_dropped = 0;
  rx_lines = 0;
  rx_eofs = 0;
  tty_lflag = 7;
  rx_buf = λ i. 0;
  screen = [];
  sched = memory_zero;
}

quiet-Holds : Holds [] 7 quiet
quiet-Holds = record {
  ring = (omega arith, omega arith);
  bytes = refl;
  flags = refl;
  lines = refl;
  eofs = refl;
}

rx_feed-discipline_example :
    Holds
      (discipline
        (has 7 tty_icanon)
        (has 7 tty_isig)
        (if 13 == carriage_return then newline else 13)
        [])
      7
      (rx_feed 13 quiet)
rx_feed-discipline_example = rx_feed-discipline 13 quiet quiet-Holds

-- The line "ab", a byte of the next, and the start of the ring at 254.
abbrev typed : Console
typed = record quiet {
  rx_head = 2;
  rx_tail = 254;
  rx_lines = 1;
  rx_buf = update (update (update (update (λ i. 0) 254 97) 255 98) 0 10) 1 99;
}

typed-Holds : Holds (waiting typed) 7 typed
typed-Holds = record {
  ring = (omega arith, omega arith);
  bytes = refl;
  flags = refl;
  lines = refl;
  eofs = refl;
}

console_read-CanonicalRead_example :
    CanonicalRead 9 false (waiting typed) typed (console_read true 9 false typed)
console_read-CanonicalRead_example =
    console_read-CanonicalRead 9 false typed typed-Holds refl (omega arith)

line_is_read : (console_read true 9 false typed).0 ≡ bytes (97 ∷ 98 ∷ 10 ∷ [])
unfolding console_read take_bytes
line_is_read = refl

-- A byte and an end of input that wait while line editing is off.
abbrev raw : Console
raw = record quiet {
  rx_head = 2;
  rx_eofs = 1;
  tty_lflag = 5;
  rx_buf = λ i. if i == 0 then 97 else 4;
}

raw-Holds : Holds (97 ∷ 4 ∷ []) 5 raw
raw-Holds = record {
  ring = (omega arith, omega arith);
  bytes = refl;
  flags = refl;
  lines = refl;
  eofs = refl;
}

raw_read-stale_example :
    let r = console_read true 4 false raw in
    let g = tty_set_lflag lflag_supported r.1 in
    (r.0 ≡ bytes (97 ∷ 4 ∷ []))
    × ((g.rx_tail == g.rx_head) ≡ true)
    × (g.rx_eofs ≡ 1)
    × (can_read g ≡ true)
    × (console_read true 8 false g ≡ blocks g)
raw_read-stale_example =
    raw_read-stale raw 5 (97 ∷ 4 ∷ []) 4 false 8 raw-Holds refl (omega arith) (omega arith)
      (omega arith)
