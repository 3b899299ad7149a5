-- ===== src/Kernel/Console/Ring.antt =====
-- The ring under the line discipline.
use lamp_vm.Common.Tests.{
  ℕ, zero, suc, ◌+◌, ◌%◌, ◌^◌, ◌<◌, ◌≡◌, refl, sym, ap, ◌∙◌, subst, Bool, true, false, not, List,
  [], ◌∷◌, ◌++◌, ◌==◌, if◌then◌else◌, if-true, if-false, if-split, if-both, arith,
}
use lamp_vm.Common.Ring.{items, used, items-last}
use lamp_vm.Kernel.Console.{
  Console, has, prev, ends_line, tty_echo, newline, veof, rx_pop_last_editable, erase_line, rub_out,
  echo_backspace, echo_intr, echo_data_char, is_shown,
}
use lamp_vm.Kernel.Console.Lines.{erase, rubout, erase-snoc, rubout-snoc, count, count-snoc}

-- The bytes that wait, the oldest first.
abbrev pub waiting : Console → List ℕ
waiting s = items s.rx_buf s.rx_tail (used s.rx_head s.rx_tail)

abbrev pub IsRing : Console → Type 0
IsRing s = (s.rx_head < 2 ^ 8) × (s.rx_tail < 2 ^ 8)

-- Only the screen and the scheduler may differ.
pub record SameRing (s g : Console) : Type 0 where
  pub buf : g.rx_buf ≡ s.rx_buf
  pub head : g.rx_head ≡ s.rx_head
  pub tail : g.rx_tail ≡ s.rx_tail
  pub lflag : g.tty_lflag ≡ s.tty_lflag
  pub lines : g.rx_lines ≡ s.rx_lines
  pub eofs : g.rx_eofs ≡ s.rx_eofs

pub same : (s : Console) → SameRing s s
same s = record { buf = refl; head = refl; tail = refl; lflag = refl; lines = refl; eofs = refl }

pub SameRing-waiting : (s g : Console) → SameRing s g → waiting g ≡ waiting s
SameRing-waiting s g e =
    ap (λ (f : ℕ → ℕ). items f g.rx_tail (used g.rx_head g.rx_tail)) e.buf
    ∙ ap (λ (h : ℕ). items s.rx_buf g.rx_tail (used h g.rx_tail)) e.head
    ∙ ap (λ (t : ℕ). items s.rx_buf t (used s.rx_head t)) e.tail

echo_backspace-SameRing : (s : Console) → SameRing s (echo_backspace s)
echo_backspace-SameRing s =
    if-both (SameRing s) (not (has s.tty_lflag tty_echo)) (same s)
      (record { buf = refl; head = refl; tail = refl; lflag = refl; lines = refl; eofs = refl })

pub echo_intr-SameRing : (s : Console) → SameRing s (echo_intr s)
echo_intr-SameRing s =
    if-both (SameRing s) (not (has s.tty_lflag tty_echo)) (same s)
      (record { buf = refl; head = refl; tail = refl; lflag = refl; lines = refl; eofs = refl })

pub echo_data_char-SameRing : (c : ℕ) (s : Console) → SameRing s (echo_data_char c s)
echo_data_char-SameRing c s = if-both (SameRing s) (not (has s.tty_lflag tty_echo)) (same s) (
    if-both (SameRing s) (is_shown c)
      (record { buf = refl; head = refl; tail = refl; lflag = refl; lines = refl; eofs = refl })
      (same s))

-- What taking back the last byte does.
pub data Popped (s : Console) (r : Bool × Console) : Type 0 where
  kept :
      r ≡ (false, s) → erase (waiting s) ≡ waiting s → rubout (waiting s) ≡ waiting s → Popped s r
  popped :
      (x : ℕ)
      → r ≡ (true, record s { rx_head = prev s.rx_head })
      → suc (used (prev s.rx_head) s.rx_tail) ≡ used s.rx_head s.rx_tail
      → ends_line x ≡ false
      → waiting s ≡ waiting (record s { rx_head = prev s.rx_head }) ++ (x ∷ [])
      → Popped s r

rx_pop_last_editable-Popped : (s : Console) → IsRing s → Popped s (rx_pop_last_editable s)
unfolding rx_pop_last_editable
rx_pop_last_editable-Popped s ring =
    let f = s.rx_buf in
    let t = s.rx_tail in
    let x = f (prev s.rx_head) in
    if-split (Popped s) (s.rx_head == t)
      (λ empty.
        let none_wait : waiting s ≡ [] = ap (items f t) {y = 0} (ground (arith, ring.0, ring.1)) in
        kept refl (ap erase none_wait ∙ sym none_wait) (ap rubout none_wait ∙ sym none_wait))
      (λ some_wait.
        let n = used (prev s.rx_head) t in
        let more : suc n ≡ used s.rx_head t = ground (arith, ring.0, ring.1) in
        let last : (t + n) % 2 ^ 8 ≡ prev s.rx_head = ground (arith, ring.0, ring.1) in
        let shape : waiting s ≡ items f t n ++ (x ∷ []) =
          sym (ap (items f t) more)
          ∙ items-last f t n ring.1
          ∙ ap (λ (i : ℕ). items f t n ++ (f i ∷ [])) last in
        if-split (Popped s) (ends_line x)
          (λ ends.
            kept refl (ap erase shape ∙ erase-snoc (items f t n) x ∙ if-true _ _ ends ∙ sym shape)
              (ap rubout shape ∙ rubout-snoc (items f t n) x ∙ if-true _ _ ends ∙ sym shape))
          (λ editable. popped x refl more editable shape))

-- The ring holds the bytes `q`, and the counters count its ends of lines.
pub record Holds (q : List ℕ) (lflag : ℕ) (s : Console) : Type 0 where
  pub ring : IsRing s
  pub bytes : waiting s ≡ q
  pub flags : s.tty_lflag ≡ lflag
  pub lines : s.rx_lines ≡ count newline q
  pub eofs : s.rx_eofs ≡ count veof q

pub SameRing-Holds :
    (q : List ℕ) (lflag : ℕ) (s g : Console) → SameRing s g → Holds q lflag s → Holds q lflag g
SameRing-Holds q lflag s g e h = record {
  ring = (omega (arith, e.head, h.ring.0), omega (arith, e.tail, h.ring.1));
  bytes = SameRing-waiting s g e ∙ h.bytes;
  flags = e.lflag ∙ h.flags;
  lines = e.lines ∙ h.lines;
  eofs = e.eofs ∙ h.eofs;
}

module _ (q : List ℕ) (lflag : ℕ) (s : Console) (h : Holds q lflag s) where
  -- The ring after a byte was taken back.
  abbrev shorter : Console
  shorter = record s { rx_head = prev s.rx_head }

  shorter-Holds :
      (x : ℕ)
      → ends_line x ≡ false
      → waiting s ≡ waiting shorter ++ (x ∷ [])
      → Holds (waiting shorter) lflag shorter
  shorter-Holds x editable shape = record {
    ring = (omega arith, h.ring.1);
    bytes = refl;
    flags = h.flags;
    lines =
        h.lines
        ∙ ap (count newline) (sym h.bytes ∙ shape)
        ∙ ground (arith, count-snoc newline (waiting shorter) x, editable);
    eofs =
        h.eofs
        ∙ ap (count veof) (sym h.bytes ∙ shape)
        ∙ ground (arith, count-snoc veof (waiting shorter) x, editable);
  }

  -- The same ring holds what an equal list says.
  pub holds_as : (r : List ℕ) → q ≡ r → Holds r lflag s
  holds_as r e = subst (λ (b : List ℕ). Holds b lflag s) e h

  pub rub_out-Holds : Holds (rubout q) lflag (rub_out s)
  unfolding rub_out
  rub_out-Holds = after (rx_pop_last_editable s) (rx_pop_last_editable-Popped s h.ring)
    where
      result : Bool × Console → Console
      result r = if r.0 then echo_backspace r.1 else r.1

      after : (r : Bool × Console) → Popped s r → Holds (rubout q) lflag (result r)
      after r (kept e er ru) =
          subst (λ (x : Bool × Console). Holds (rubout q) lflag (result x)) (sym e)
            (holds_as (rubout q) (sym (ap rubout (sym h.bytes) ∙ ru ∙ h.bytes)))
      after r (popped x e more editable shape) =
          let rubbed : rubout q ≡ waiting shorter =
            ap rubout (sym h.bytes ∙ shape)
            ∙ rubout-snoc (waiting shorter) x
            ∙ if-false _ _ editable in
          subst (λ (y : Bool × Console). Holds (rubout q) lflag (result y)) (sym e)
            (subst (λ (b : List ℕ). Holds b lflag (echo_backspace shorter)) (sym rubbed)
              (SameRing-Holds (waiting shorter) lflag shorter (echo_backspace shorter)
                (echo_backspace-SameRing shorter) (shorter-Holds x editable shape)))

-- The loop takes back the whole line, within as many rounds as bytes wait.
pub erase_line-Holds :
    (fuel : ℕ) (q : List ℕ) (lflag : ℕ) (s : Console)
    → used s.rx_head s.rx_tail < fuel
    → Holds q lflag s
    → Holds (erase q) lflag (erase_line fuel s)
unfolding erase_line
erase_line-Holds zero q lflag s few h = absurd (omega (arith, few))
erase_line-Holds (suc fuel) q lflag s few h =
    after (rx_pop_last_editable s) (rx_pop_last_editable-Popped s h.ring)
      (λ g small hold. erase_line-Holds fuel (waiting g) lflag (echo_backspace g) small hold)
  where
    result : Bool × Console → Console
    result r = if r.0 then erase_line fuel (echo_backspace r.1) else r.1

    after :
        (r : Bool × Console)
        → Popped s r
        → ((g : Console)
            → used (echo_backspace g).rx_head (echo_backspace g).rx_tail < fuel
            → Holds (waiting g) lflag (echo_backspace g)
            → Holds (erase (waiting g)) lflag (erase_line fuel (echo_backspace g)))
        → Holds (erase q) lflag (result r)
    after r (kept e er ru) again =
        subst (λ (x : Bool × Console). Holds (erase q) lflag (result x)) (sym e)
          (holds_as q lflag s h (erase q) (sym (ap erase (sym h.bytes) ∙ er ∙ h.bytes)))
    after r (popped x e more editable shape) again =
        let g = shorter q lflag s h in
        let echo = echo_backspace-SameRing g in
        let erased : erase q ≡ erase (waiting g) =
          ap erase (sym h.bytes ∙ shape) ∙ erase-snoc (waiting g) x ∙ if-false _ _ editable in
        subst (λ (y : Bool × Console). Holds (erase q) lflag (result y)) (sym e)
          (subst (λ (b : List ℕ). Holds b lflag (erase_line fuel (echo_backspace g))) (sym erased)
            (again g
              (subst (λ (p : ℕ × ℕ). used p.0 p.1 < fuel) {x = (g.rx_head, g.rx_tail)}
                (λ k. (sym echo.head k, sym echo.tail k)) (omega (arith, few, more)))
              (SameRing-Holds (waiting g) lflag g (echo_backspace g) echo
                (shorter-Holds q lflag s h x editable shape))))
