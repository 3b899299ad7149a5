-- ===== src/Kernel/Console/Reads.antt =====
-- What a read takes.
use lamp_vm.Common.Tests.{
  ℕ, zero, suc, ◌+◌, ◌-◌, ◌<◌, ◌≡◌, refl, sym, ap, ◌∙◌, subst, Bool, true, false, ◌&&◌, ◌||◌, not,
  List, [], ◌∷◌, ◌==◌, if◌then◌else◌, if-true, if-false, if-split, if_pair, arith,
}
use lamp_vm.Common.Ring.{items, used}
use lamp_vm.Kernel.Console.{
  Console, has, next, tty_icanon, newline, veof, Taken, take_bytes, byte_round, line_taken,
  eof_taken, advanced, prepend, Reading, bytes, blocks, read_result, console_read,
}
use lamp_vm.Kernel.Console.Lines.{count}
use lamp_vm.Kernel.Console.Ring.{Holds, IsRing, waiting}

-- At most `n` bytes up to the end of the line: the bytes, whether the end of input was met, which is
-- taken and not delivered, and the rest.
abbrev pub read_line : ℕ → List ℕ → List ℕ × Bool × List ℕ
read_line zero q = ([], false, q)
read_line (suc n) [] = ([], false, [])
read_line (suc n) (c ∷ q) =
    let rest = read_line n q in
    if c == veof
    then ([], true, q)
    else if c == newline
    then (c ∷ [], false, q)
    else (c ∷ rest.0, rest.1, rest.2)

items-cons :
    (f : ℕ → ℕ) (t n c : ℕ) (q : List ℕ)
    → items f t n ≡ c ∷ q
    → (0 < n) × (f t ≡ c) × (items f (next t) (n - 1) ≡ q)
items-cons f t zero c q e = cc
items-cons f t (suc n) c q e =
    (omega arith, head_eq e, ap (items f (next t)) {y = n} (omega arith) ∙ tail_eq e)
  where
    head_eq : {x y : ℕ} {xs ys : List ℕ} → x ∷ xs ≡ y ∷ ys → x ≡ y
    head_eq p = cc

    tail_eq : {x y : ℕ} {xs ys : List ℕ} → x ∷ xs ≡ y ∷ ys → xs ≡ ys
    tail_eq p = cc

-- The ring without its oldest byte.
pub record Uncons (c : ℕ) (q : List ℕ) (s : Console) : Type 0 where
  pub first : s.rx_buf s.rx_tail ≡ c
  pub nonempty : (s.rx_tail == s.rx_head) ≡ false
  pub ring : IsRing (advanced s)
  pub rest : waiting (advanced s) ≡ q

waiting-Uncons : (c : ℕ) (q : List ℕ) (s : Console) → IsRing s → waiting s ≡ c ∷ q → Uncons c q s
waiting-Uncons c q s ring e =
    let (pos, at, rest) = items-cons s.rx_buf s.rx_tail (used s.rx_head s.rx_tail) c q e in
    let fewer : used s.rx_head (next s.rx_tail) ≡ used s.rx_head s.rx_tail - 1 =
      omega (arith, pos, ring.0, ring.1) in
    record {
      first = at;
      nonempty = apart pos;
      ring = (ring.0, omega arith);
      rest = ap (items s.rx_buf (next s.rx_tail)) fewer ∙ rest;
    }
  where
    apart : 0 < used s.rx_head s.rx_tail → (s.rx_tail == s.rx_head) ≡ false
    apart pos = ground (arith, pos, ring.0, ring.1)

used-zero : (f : ℕ → ℕ) (t n : ℕ) → items f t n ≡ [] → n ≡ 0
used-zero f t zero e = refl
used-zero f t (suc n) e = cc

empty_ring : (s : Console) → IsRing s → waiting s ≡ [] → (s.rx_tail == s.rx_head) ≡ true
empty_ring s ring e =
    let none : used s.rx_head s.rx_tail ≡ 0 =
      used-zero s.rx_buf s.rx_tail (used s.rx_head s.rx_tail) e in
    let (h, t) = ring in ground (arith, none, h, t)

-- What was taken is `v`: bytes, end of input, and the rest.
pub record Takes (lflag : ℕ) (v : List ℕ × Bool × List ℕ) (r : Taken) : Type 0 where
  pub line : r.0 ≡ v.0
  pub ended : r.1 ≡ v.1
  pub left : Holds v.2 lflag r.2

module _ (c : ℕ) (q : List ℕ) (lflag : ℕ) (s : Console) (h : Holds (c ∷ q) lflag s) where
  u : Uncons c q s
  u = waiting-Uncons c q s h.ring h.bytes

  advanced-Holds : (c == veof) ≡ false → Holds q lflag (advanced (line_taken c s))
  advanced-Holds other =
      if-split (λ (g : Console). Holds q lflag (advanced g)) (c == newline && not (s.rx_lines == 0))
        (λ ends. record {
          ring = u.ring;
          bytes = u.rest;
          flags = h.flags;
          lines = ground (arith, h.lines);
          eofs = ground (arith, h.eofs);
        })
        (λ plain. record {
          ring = u.ring;
          bytes = u.rest;
          flags = h.flags;
          lines = ground (arith, h.lines);
          eofs = ground (arith, h.eofs);
        })

  eof-Holds : (c == veof) ≡ true → Holds q lflag (advanced (eof_taken s))
  eof-Holds ends = record {
    ring = u.ring;
    bytes = u.rest;
    flags = h.flags;
    lines = ground (arith, h.lines);
    eofs = ground (arith, h.eofs);
  }

  -- What a round takes for the oldest byte `c`, when the rounds after it take `v`.
  abbrev with_byte : List ℕ × Bool × List ℕ → List ℕ × Bool × List ℕ
  with_byte v =
      if c == veof
      then ([], true, q)
      else if c == newline
      then (c ∷ [], false, q)
      else (c ∷ v.0, v.1, v.2)

  line_ends : (c == newline) ≡ true → ((c == newline && not (s.rx_lines == 0)) && true) ≡ true
  line_ends ends = ground (arith, h.lines)

  line_goes_on : (c == newline) ≡ false → ((c == newline && not (s.rx_lines == 0)) && true) ≡ false
  line_goes_on plain = ground arith

  byte_round-Takes :
      (v : List ℕ × Bool × List ℕ) (rest : Console → Taken)
      → ((c == veof) ≡ false → Takes lflag v (rest (advanced (line_taken c s))))
      → Takes lflag (with_byte v) (byte_round true c s rest)
  byte_round-Takes v rest t =
      if-split (Takes lflag (with_byte v)) (s.rx_tail == s.rx_head)
        (λ empty. absurd (not_both u.nonempty empty))
        (λ more.
          if_pair (Takes lflag) (c == veof)
            (λ ends. record { line = refl; ended = refl; left = eof-Holds ends })
            (λ other.
              if-split
                (λ (w : List ℕ × Bool × List ℕ). Takes lflag w (
                  if (c == newline && not (s.rx_lines == 0)) && true
                  then (c ∷ [], false, advanced (line_taken c s))
                  else prepend c (rest (advanced (line_taken c s)))))
                (c == newline)
                (λ ends.
                  subst (Takes lflag (c ∷ [], false, q)) (sym (if-true _ _ (line_ends ends)))
                    (record { line = refl; ended = refl; left = advanced-Holds other }))
                (λ plain.
                  subst (Takes lflag (c ∷ v.0, v.1, v.2)) (sym (if-false _ _ (line_goes_on plain)))
                    (record {
                      line = ap (λ b. c ∷ b) (t other).line;
                      ended = (t other).ended;
                      left = (t other).left;
                    }))))
    where
      not_both : {b : Bool} → b ≡ false → b ≡ true → ⊥
      not_both p q = cc

take_bytes-Takes :
    (n : ℕ) (q : List ℕ) (lflag : ℕ) (s : Console)
    → Holds q lflag s
    → Takes lflag (read_line n q) (take_bytes true n s)
unfolding take_bytes
take_bytes-Takes zero q lflag s h = record { line = refl; ended = refl; left = h }
take_bytes-Takes (suc n) [] lflag s h =
    subst (Takes lflag ([], false, [])) (sym (if-true _ _ (empty_ring s h.ring h.bytes)))
      (record { line = refl; ended = refl; left = h })
take_bytes-Takes (suc n) (c ∷ q) lflag s h =
    subst
      (λ (k : ℕ). Takes lflag (read_line (suc n) (c ∷ q)) (byte_round true k s (take_bytes true n)))
      (sym (u c q lflag s h).first)
      (byte_round-Takes c q lflag s h (read_line n q) (take_bytes true n) λ other.
        take_bytes-Takes n q lflag (advanced (line_taken c s)) (advanced-Holds c q lflag s h other))

-- A line that has an end, or an end of input, yields bytes or the end of input.
ends_something :
    (n : ℕ) (q : List ℕ)
    → 0 < n
    → 0 < count newline q + count veof q
    → (read_line n q).0 ≡ []
    → (read_line n q).1 ≡ true
ends_something zero q pos some_end e = absurd (omega (arith, pos))
ends_something (suc n) [] pos some_end e = absurd (omega (arith, some_end))
ends_something (suc n) (c ∷ q) pos some_end e = ground (arith, e)

-- What a canonical read does with the bytes `q` that wait.
pub data CanonicalRead (len : ℕ) (nonblock : Bool) (q : List ℕ) (s : Console)
    (r : Reading × Console) : Type 0 where
  no_line :
      count newline q + count veof q ≡ 0
      → r ≡ (if nonblock then (bytes [], s) else blocks s)
      → CanonicalRead len nonblock q s r
  a_line :
      0 < count newline q + count veof q
      → r.0 ≡ bytes (read_line len q).0
      → Holds (read_line len q).2 s.tty_lflag r.1
      → CanonicalRead len nonblock q s r

read_result-bytes :
    (nonblock : Bool) (t : Taken)
    → (t.0 ≡ [] → t.1 ≡ true)
    → read_result true nonblock t ≡ (bytes t.0, t.2)
read_result-bytes nonblock ([], eof, s) ends = if-true _ _ (ends refl)
read_result-bytes nonblock (c ∷ q, eof, s) ends = refl

module _ (len : ℕ) (nonblock : Bool) (s : Console) (h : Holds (waiting s) s.tty_lflag s) where
  taken-CanonicalRead :
      0 < len
      → 0 < count newline (waiting s) + count veof (waiting s)
      → CanonicalRead len nonblock (waiting s) s (read_result true nonblock (take_bytes true len s))
  taken-CanonicalRead pos some_end =
      let t = take_bytes-Takes len (waiting s) s.tty_lflag s h in
      let full =
        read_result-bytes nonblock (take_bytes true len s)
          λ e. t.ended ∙ ends_something len (waiting s) pos some_end (sym t.line ∙ e) in
      subst (CanonicalRead len nonblock (waiting s) s) (sym full)
        (a_line some_end (ap bytes t.line) t.left)

  -- A canonical read into a buffer of at least one byte waits for the end of a line or of the input.
  -- Until one is there it takes nothing: it returns nothing without blocking, or blocks. Then it
  -- returns the bytes up to the end of the first line, as many as fit, and leaves the rest; an end of
  -- input is taken and not returned. The counters stay right.
  pub console_read-CanonicalRead :
      has s.tty_lflag tty_icanon ≡ true
      → 0 < len
      → CanonicalRead len nonblock (waiting s) s (console_read true len nonblock s)
  unfolding console_read
  console_read-CanonicalRead canonical pos =
      subst
        (λ (mode : Bool). CanonicalRead len nonblock (waiting s) s (
          if false || len == 0
          then (bytes [], s)
          else if mode && (s.rx_lines == 0 && s.rx_eofs == 0)
          then if nonblock then (bytes [], s) else blocks s
          else read_result mode nonblock (take_bytes mode len s)))
        (sym canonical)
        (if-split (CanonicalRead len nonblock (waiting s) s) (len == 0)
          (λ e. absurd (ground (arith, e, pos)))
          λ e.
            if-split (CanonicalRead len nonblock (waiting s) s) (s.rx_lines == 0 && s.rx_eofs == 0)
              (λ none_ends. no_line (no_ends none_ends) refl)
              (λ some_end. taken-CanonicalRead pos (an_end some_end)))
    where
      no_ends :
          (s.rx_lines == 0 && s.rx_eofs == 0) ≡ true
          → count newline (waiting s) + count veof (waiting s) ≡ 0
      no_ends e =
          counts s.rx_lines s.rx_eofs (count newline (waiting s)) (count veof (waiting s)) h.lines
            h.eofs e
        where
          counts : (a b c d : ℕ) → a ≡ c → b ≡ d → (a == 0 && b == 0) ≡ true → c + d ≡ 0
          counts a b c d p q r = ground arith

      an_end :
          (s.rx_lines == 0 && s.rx_eofs == 0) ≡ false
          → 0 < count newline (waiting s) + count veof (waiting s)
      an_end e =
          counts s.rx_lines s.rx_eofs (count newline (waiting s)) (count veof (waiting s)) h.lines
            h.eofs e
        where
          counts : (a b c d : ℕ) → a ≡ c → b ≡ d → (a == 0 && b == 0) ≡ false → 0 < c + d
          counts a b c d p q r = ground arith
