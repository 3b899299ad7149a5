-- ===== src/Kernel/Console/Raw.antt =====
-- A read without line editing, and what it leaves behind.
use lamp_vm.Common.Tests.{
  ℕ, zero, suc, ◌^◌, ◌<◌, ◌≤◌, ◌≡◌, refl, sym, ap, ◌∙◌, subst, Bool, true, false, ◌&&◌, ◌||◌, not,
  List, [], ◌∷◌, ◌==◌, if◌then◌else◌, if-true, if-false, if-split, if-both, pos→==_false, arith,
}
use lamp_vm.Common.Arrays.{length}
use lamp_vm.Common.Ring.{items, used, length-items}
use lamp_vm.Kernel.Console.{
  Console, has, next, tty_icanon, newline, veof, Taken, take_bytes, line_taken, advanced, Reading,
  bytes, blocks, read_result, console_read, can_read, tty_set_lflag, lflag_supported,
}
use lamp_vm.Kernel.Console.Lines.{count, count-le-length}
use lamp_vm.Kernel.Console.Ring.{Holds, IsRing, waiting}

-- A raw read of everything: all the bytes that waited are in the buffer, the ring is empty, and the
-- counter of ends of input is as before.
record Drains (s : Console) (r : Taken) : Type 0 where
  all : r.0 ≡ waiting s
  empty : (r.2.rx_tail == r.2.rx_head) ≡ true
  eofs : r.2.rx_eofs ≡ s.rx_eofs

line_taken-Same :
    (c : ℕ) (s : Console)
    → ((line_taken c s).rx_eofs ≡ s.rx_eofs)
      × ((line_taken c s).rx_head ≡ s.rx_head)
      × ((line_taken c s).rx_tail ≡ s.rx_tail)
      × ((line_taken c s).rx_buf ≡ s.rx_buf)
line_taken-Same c s =
    if-both
      (λ (g : Console).
        (g.rx_eofs ≡ s.rx_eofs)
        × (g.rx_head ≡ s.rx_head)
        × (g.rx_tail ≡ s.rx_tail)
        × (g.rx_buf ≡ s.rx_buf))
      (c == newline && not (s.rx_lines == 0)) (refl, refl, refl, refl) (refl, refl, refl, refl)

-- The bytes that wait after a byte was taken.
waiting-advanced :
    (c : ℕ) (s : Console)
    → waiting (advanced (line_taken c s))
      ≡ items s.rx_buf (next s.rx_tail) (used s.rx_head (next s.rx_tail))
waiting-advanced c s =
    let (eofs, head, tail, buf) = line_taken-Same c s in
    λ k. items (buf k) (next (tail k)) (used (head k) (next (tail k)))

all_read : (h t : ℕ) → h < 2 ^ 8 → t < 2 ^ 8 → used h t ≤ 0 → (t == h) ≡ true
all_read h t l m e = ground arith

none_used : (h t : ℕ) → used h t ≤ 0 → used h t ≡ 0
none_used h t m = omega (arith, m)

-- Where the ring is empty nothing is used, and otherwise one byte and those after it.
used_empty : (h t : ℕ) → h < 2 ^ 8 → t < 2 ^ 8 → (t == h) ≡ true → used h t ≡ 0
used_empty h t l m e = ground arith

used_next : (h t : ℕ) → h < 2 ^ 8 → t < 2 ^ 8 → (t == h) ≡ false → used h t ≡ suc (used h (next t))
used_next h t l m e = ground arith

fewer :
    (h t n : ℕ) → h < 2 ^ 8 → t < 2 ^ 8 → (t == h) ≡ false → used h t ≤ suc n → used h (next t) ≤ n
fewer h t n l m ne e = ground arith

and_false : (b : Bool) → (b && false) ≡ true → ⊥
and_false true e = cc
and_false false e = cc

take_bytes-Drains :
    (n : ℕ) (s : Console)
    → IsRing s
    → used s.rx_head s.rx_tail ≤ n
    → Drains s (take_bytes false n s)
unfolding take_bytes
take_bytes-Drains zero s ring few = record {
  all = sym (ap (items s.rx_buf s.rx_tail) (none_used s.rx_head s.rx_tail few));
  empty = all_read s.rx_head s.rx_tail ring.0 ring.1 few;
  eofs = refl;
}
take_bytes-Drains (suc n) s ring few =
    let c = s.rx_buf s.rx_tail in
    let g = advanced (line_taken c s) in
    let (eofs, head, tail, buf) = line_taken-Same c s in
    if-split (Drains s) (s.rx_tail == s.rx_head)
      (λ e. record {
        all = sym (ap (items s.rx_buf s.rx_tail) (used_empty s.rx_head s.rx_tail ring.0 ring.1 e));
        empty = e;
        eofs = refl;
      })
      λ more.
        if-split (Drains s) ((c == newline && not (s.rx_lines == 0)) && false)
          (λ e. absurd (and_false (c == newline && not (s.rx_lines == 0)) e))
          λ e.
            let t =
              take_bytes-Drains n g (omega (arith, head, ring.0), omega arith)
                (subst (λ (p : ℕ × ℕ). used p.0 (next p.1) ≤ n) {x = (s.rx_head, s.rx_tail)}
                  {y = ((line_taken c s).rx_head, (line_taken c s).rx_tail)}
                  (λ k. (sym head k, sym tail k))
                  (fewer s.rx_head s.rx_tail n ring.0 ring.1 more few)) in
            record {
              all =
                  ap (λ q. c ∷ q) (t.all ∙ waiting-advanced c s)
                  ∙ sym (
                      ap (items s.rx_buf s.rx_tail)
                        (used_next s.rx_head s.rx_tail ring.0 ring.1 more));
              empty = t.empty;
              eofs = t.eofs ∙ eofs;
            }

-- Something is read where something waits.
abbrev Some : Taken → Type 0
Some r = (t : ℕ) × (q : List ℕ) × (r.0 ≡ t ∷ q)

take_bytes-Some :
    (n : ℕ) (s : Console) → 0 < n → (s.rx_tail == s.rx_head) ≡ false → Some (take_bytes false n s)
unfolding take_bytes
take_bytes-Some zero s pos more = absurd (omega (arith, pos))
take_bytes-Some (suc n) s pos more =
    let c = s.rx_buf s.rx_tail in
    if-split Some (s.rx_tail == s.rx_head) (λ e. absurd (false_true more e))
      λ e.
        if-split Some ((c == newline && not (s.rx_lines == 0)) && false)
          (λ e'. absurd (and_false (c == newline && not (s.rx_lines == 0)) e'))
          (λ e'. (c, (take_bytes false n (advanced (line_taken c s))).0, refl))
  where
    false_true : {b : Bool} → b ≡ false → b ≡ true → ⊥
    false_true p q = cc

read_result-Some :
    (nonblock : Bool) (t : Taken) → Some t → read_result false nonblock t ≡ (bytes t.0, t.2)
read_result-Some nonblock ([], eof, s) (x, q, e) = cc
read_result-Some nonblock (c ∷ r, eof, s) (x, q, e) = refl

module _ (s : Console) (lflag : ℕ) (q : List ℕ) (h : Holds q lflag s) where
  size : length q ≡ used s.rx_head s.rx_tail
  size = ap length (sym h.bytes) ∙ length-items s.rx_buf s.rx_tail (used s.rx_head s.rx_tail)

  some_waits : 0 < length q → (s.rx_tail == s.rx_head) ≡ false
  some_waits pos = apart s.rx_head s.rx_tail h.ring.0 h.ring.1 (omega (arith, size, pos))
    where
      apart : (a b : ℕ) → a < 2 ^ 8 → b < 2 ^ 8 → 0 < used a b → (b == a) ≡ false
      apart a b l m e = ground arith

  raw_read :
      (len : ℕ) (nonblock : Bool)
      → has s.tty_lflag tty_icanon ≡ false
      → 0 < length q
      → length q ≤ len
      → let t = take_bytes false len s in console_read true len nonblock s ≡ (bytes t.0, t.2)
  unfolding console_read
  raw_read len nonblock raw some fits =
      let some_read = take_bytes-Some len s (omega (arith, some, fits)) (some_waits some) in
      subst
        (λ (mode : Bool).
          (if false || len == 0
            then (bytes [], s)
            else if mode && (s.rx_lines == 0 && s.rx_eofs == 0)
            then if nonblock then (bytes [], s) else blocks s
            else read_result mode nonblock (take_bytes mode len s))
          ≡ (bytes (take_bytes false len s).0, (take_bytes false len s).2))
        (sym raw)
        (if-false _ _ (pos→==_false len (omega (arith, some, fits)))
          ∙ read_result-Some nonblock (take_bytes false len s) some_read)

take_bytes-empty :
    (n : ℕ) (g : Console) → (g.rx_tail == g.rx_head) ≡ true → take_bytes true n g ≡ ([], false, g)
unfolding take_bytes
take_bytes-empty zero g e = refl
take_bytes-empty (suc n) g e = if-true _ _ e

or_not : (a b : Bool) → b ≡ false → (not a || not b) ≡ true
or_not a b e = ground arith

and_not : (a b : Bool) → b ≡ false → (a && b) ≡ false
and_not a b e = ground arith

-- An empty ring whose counter of ends of input is not 0.
module _ (g : Console) (n : ℕ) (ends : (g.rx_eofs == 0) ≡ false)
    (canonical : has g.tty_lflag tty_icanon ≡ true) where
  stale-can_read : can_read g ≡ true
  unfolding can_read
  stale-can_read = if-true _ _ canonical ∙ or_not (g.rx_lines == 0) (g.rx_eofs == 0) ends

  stale_blocks : (g.rx_tail == g.rx_head) ≡ true → 0 < n → console_read true n false g ≡ blocks g
  unfolding console_read
  stale_blocks empty pos =
      subst
        (λ (mode : Bool).
          (if false || n == 0
            then (bytes [], g)
            else if mode && (g.rx_lines == 0 && g.rx_eofs == 0)
            then if false then (bytes [], g) else blocks g
            else read_result mode false (take_bytes mode n g))
          ≡ blocks g)
        (sym canonical)
        (if-false _ _ (pos→==_false n pos)
          ∙ if-false _ _ (and_not (g.rx_lines == 0) (g.rx_eofs == 0) ends)
          ∙ ap (read_result true false) (take_bytes-empty n g empty))

-- Without line editing, a read into a buffer with room for all that waits returns exactly the bytes
-- that waited, in order, an end of input among them as the byte 4, and leaves the ring empty with
-- the ends of input counted as before. With line editing switched on after that, the console is
-- readable though nothing waits, and a read blocks.
pub raw_read-stale :
    (s : Console) (lflag : ℕ) (q : List ℕ) (len : ℕ) (nonblock : Bool) (n : ℕ)
    → Holds q lflag s
    → has s.tty_lflag tty_icanon ≡ false
    → 0 < count veof q
    → length q ≤ len
    → 0 < n
    → let r = console_read true len nonblock s in
      let g = tty_set_lflag lflag_supported r.1 in
      (r.0 ≡ bytes q)
      × ((g.rx_tail == g.rx_head) ≡ true)
      × (g.rx_eofs ≡ count veof q)
      × (can_read g ≡ true)
      × (console_read true n false g ≡ blocks g)
unfolding tty_set_lflag
raw_read-stale s lflag q len nonblock n h raw ends fits pos =
    let some : 0 < length q = omega (arith, ends, count-le-length veof q) in
    let after = raw_read s lflag q h len nonblock raw some fits in
    let d = take_bytes-Drains len s h.ring (omega (arith, fits, size s lflag q h)) in
    let r = (console_read true len nonblock s).1 in
    let empty : (r.rx_tail == r.rx_head) ≡ true =
      ap (λ (g : Reading × Console). g.1.rx_tail == g.1.rx_head) after ∙ d.empty in
    let counted : r.rx_eofs ≡ count veof q =
      ap (λ (g : Reading × Console). g.1.rx_eofs) after ∙ d.eofs ∙ h.eofs in
    let left : (r.rx_eofs == 0) ≡ false =
      ap (λ (m : ℕ). m == 0) counted ∙ pos→==_false (count veof q) ends in
    (
      ap (λ (g : Reading × Console). g.0) after ∙ ap bytes (d.all ∙ h.bytes),
      empty,
      counted,
      stale-can_read (tty_set_lflag lflag_supported r) n left refl,
      stale_blocks (tty_set_lflag lflag_supported r) n left refl empty pos,
    )
