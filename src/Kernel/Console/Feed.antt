-- ===== src/Kernel/Console/Feed.antt =====
-- A byte from the terminal, under the line discipline.
use lamp_vm.Common.Tests.{
  ℕ, suc, ◌<◌, ◌≤◌, ◌≡◌, refl, sym, ap, ◌∙◌, subst, Bool, true, false, ◌&&◌, ◌||◌, List, [], ◌∷◌,
  ◌++◌, ◌==◌, if◌then◌else◌, if-true, if-false, lt→ltb, le→ltb_false, if-split, if_pair, if-both,
  arith,
}
use lamp_vm.Common.Arrays.{update, length}
use lamp_vm.Common.Ring.{items, used, length-items, items-snoc, used-full, used-lt}
use lamp_vm.Kernel.Console.{
  Console, has, next, tty_icanon, tty_isig, newline, carriage_return, veof, vkill, vintr, verase_bs,
  verase_del, rx_enqueue_char, erase_line, erase_rounds, echo_intr, echo_data_char, stored,
  wake_reader, one_dropped, feed, rx_feed,
}
use lamp_vm.Kernel.Console.Lines.{erase, put, discipline, count, count-snoc, count-le-length}
use lamp_vm.Kernel.Console.Ring.{
  Holds, waiting, SameRing, same, SameRing-Holds, echo_intr-SameRing, echo_data_char-SameRing,
  erase_line-Holds, rub_out-Holds,
}

module _ (c : ℕ) (q : List ℕ) (lflag : ℕ) (s : Console) (h : Holds q lflag s) where
  length-waiting : length q ≡ used s.rx_head s.rx_tail
  length-waiting =
      ap length (sym h.bytes) ∙ length-items s.rx_buf s.rx_tail (used s.rx_head s.rx_tail)

  stored-Holds : used s.rx_head s.rx_tail < 255 → Holds (q ++ (c ∷ [])) lflag (stored c s)
  stored-Holds room =
      let n = used s.rx_head s.rx_tail in
      let one_more : used (next s.rx_head) s.rx_tail ≡ suc n =
        omega (arith, h.ring.0, h.ring.1, room) in
      let few : count newline q ≤ 255 = omega (arith, count-le-length newline q, length-waiting) in
      let few_ends : count veof q ≤ 255 = omega (arith, count-le-length veof q, length-waiting) in
      record {
        ring = (omega arith, h.ring.1);
        bytes =
            ap (items (update s.rx_buf s.rx_head c) s.rx_tail) one_more
            ∙ items-snoc s.rx_buf c s.rx_head s.rx_tail n h.ring.1 room
                (omega (arith, h.ring.0, h.ring.1))
            ∙ ap (λ b. b ++ (c ∷ [])) h.bytes;
        flags = h.flags;
        lines = ground (arith, h.lines, few, count-snoc newline q c);
        eofs = ground (arith, h.eofs, few_ends, count-snoc veof q c);
      }

  rx_enqueue_char-Holds : (echo : Bool) → Holds (put c q) lflag (rx_enqueue_char c echo s)
  unfolding rx_enqueue_char
  rx_enqueue_char-Holds echo =
      if-split (Holds (put c q) lflag) (next s.rx_head == s.rx_tail)
        (λ full.
          let none_left =
            le→ltb_false (length q) 255 (
              omega
                (arith, length-waiting, used-full s.rx_head s.rx_tail h.ring.0 h.ring.1 full)) in
          subst (λ (b : List ℕ). Holds b lflag (one_dropped s)) (sym (if-false _ _ none_left))
            (SameRing-Holds q lflag s (one_dropped s)
              (record {
                buf = refl;
                head = refl;
                tail = refl;
                lflag = refl;
                lines = refl;
                eofs = refl;
              })
              h))
        (λ room.
          let few = used-lt s.rx_head s.rx_tail h.ring.0 h.ring.1 room in
          let some_left = lt→ltb (length q) 255 (omega (arith, length-waiting, few)) in
          let put_in = stored-Holds few in
          let g = (if echo then echo_data_char c (stored c s) else stored c s) in
          let e : SameRing (stored c s) g =
            if-both (SameRing (stored c s)) echo (echo_data_char-SameRing c (stored c s))
              (same (stored c s)) in
          let w : SameRing (stored c s) (wake_reader g) = record {
            buf = e.buf;
            head = e.head;
            tail = e.tail;
            lflag = e.lflag;
            lines = e.lines;
            eofs = e.eofs;
          } in
          subst (λ (b : List ℕ). Holds b lflag (wake_reader g)) (sym (if-true _ _ some_left))
            (SameRing-Holds (q ++ (c ∷ [])) lflag (stored c s) (wake_reader g) w put_in))

  erase-Holds : Holds (erase q) lflag (erase_line erase_rounds s)
  erase-Holds = erase_line-Holds erase_rounds q lflag s (omega arith) h

abbrev pub Both : ℕ → List ℕ → Console → Type 0
Both lflag q s = Holds q lflag s

module _ (canonical isig : Bool) (c : ℕ) (q : List ℕ) (lflag : ℕ) (s : Console)
    (h : Holds q lflag s) where
  intr-Holds :
      Holds
        (put newline (erase q))
        lflag
        (rx_enqueue_char newline false (echo_intr (erase_line erase_rounds s)))
  intr-Holds =
      let g = erase_line erase_rounds s in
      rx_enqueue_char-Holds newline (erase q) lflag (echo_intr g)
        (SameRing-Holds (erase q) lflag g (echo_intr g) (echo_intr-SameRing g)
          (erase-Holds c q lflag s h))
        false

  plain-Holds : Holds (if c == 0 then q else put c q) lflag (
      if canonical && c == veof
      then rx_enqueue_char c false s
      else if c == 0
      then s
      else rx_enqueue_char c true s)
  plain-Holds =
      if-split (Holds (if c == 0 then q else put c q) lflag) (canonical && c == veof)
        (λ ends.
          let other : (c == 0) ≡ false = ground arith in
          subst (λ (b : List ℕ). Holds b lflag (rx_enqueue_char c false s))
            (sym (if-false _ _ other)) (rx_enqueue_char-Holds c q lflag s h false))
        (λ other.
          if_pair (Both lflag) (c == 0) (λ e. h) (λ e. rx_enqueue_char-Holds c q lflag s h true))

  feed-Holds : Holds (discipline canonical isig c q) lflag (feed canonical isig c s)
  unfolding feed
  feed-Holds =
      if_pair (Both lflag) (c == vintr && isig) (λ e. intr-Holds)
        λ e.
          if_pair (Both lflag) (canonical && c == vkill) (λ e'. erase-Holds c q lflag s h)
            λ e'.
              if_pair (Both lflag) (canonical && (c == verase_bs || c == verase_del))
                (λ e''. rub_out-Holds q lflag s h) (λ e''. plain-Holds)

-- A byte from the terminal changes the bytes that wait as the line discipline says: with signals on,
-- an interrupt replaces the line that is being typed by a newline; in canonical mode kill takes that
-- line back and erase its last byte; a carriage return counts as a newline; any other byte but 0
-- waits, if fewer than 255 do. The counters of lines and ends of input stay right, the flags as
-- they were.
pub rx_feed-discipline :
    (c : ℕ) (s : Console)
    → Holds (waiting s) s.tty_lflag s
    → Holds
        (discipline
          (has s.tty_lflag tty_icanon)
          (has s.tty_lflag tty_isig)
          (if c == carriage_return then newline else c)
          (waiting s))
        s.tty_lflag
        (rx_feed c s)
unfolding rx_feed
rx_feed-discipline c s h =
    feed-Holds (has s.tty_lflag tty_icanon) (has s.tty_lflag tty_isig)
      (if c == carriage_return then newline else c) (waiting s) s.tty_lflag s h
