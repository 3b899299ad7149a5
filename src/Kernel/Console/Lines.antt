-- ===== src/Kernel/Console/Lines.antt =====
-- What the line discipline does to the bytes that wait, as a list, the oldest first.
use lamp_vm.Common.Tests.{
  ℕ, ◌+◌, ◌≤◌, ◌≡◌, refl, ap, ◌∙◌, Bool, ◌&&◌, ◌||◌, List, [], ◌∷◌, ◌++◌, ltb, ◌==◌, if◌then◌else◌,
  if-true, if-false, if-split, arith,
}
use lamp_vm.Common.Arrays.{length}
use lamp_vm.Kernel.Console.{ends_line, newline, vintr, verase_bs, verase_del, vkill}

abbrev pub keep_end : ℕ → List ℕ → List ℕ
keep_end c [] = if ends_line c then c ∷ [] else []
keep_end c (d ∷ q) = c ∷ d ∷ q

-- The bytes up to the last that ends a line.
abbrev pub erase : List ℕ → List ℕ
erase [] = []
erase (c ∷ q) = keep_end c (erase q)

-- The last byte taken off, unless it ends a line.
abbrev pub rubout : List ℕ → List ℕ
rubout [] = []
rubout (c ∷ []) = if ends_line c then c ∷ [] else []
rubout (c ∷ d ∷ q) = c ∷ rubout (d ∷ q)

-- At most 255 bytes wait.
abbrev pub put : ℕ → List ℕ → List ℕ
put c q = if ltb (length q) 255 then q ++ (c ∷ []) else q

-- A byte from the terminal: interrupt, kill, erase and end of input, or a byte to read.
abbrev pub discipline : Bool → Bool → ℕ → List ℕ → List ℕ
discipline canonical isig c q =
    if c == vintr && isig
    then put newline (erase q)
    else if canonical && c == vkill
    then erase q
    else if canonical && (c == verase_bs || c == verase_del)
    then rubout q
    else if c == 0
    then q
    else put c q

keep_end-append : (c : ℕ) (q r : List ℕ) (x : ℕ) → keep_end c (q ++ (x ∷ r)) ≡ c ∷ (q ++ (x ∷ r))
keep_end-append c [] r x = refl
keep_end-append c (d ∷ q) r x = refl

pub erase-snoc :
    (q : List ℕ) (x : ℕ) → erase (q ++ (x ∷ [])) ≡ (if ends_line x then q ++ (x ∷ []) else erase q)
erase-snoc [] x = refl
erase-snoc (c ∷ q) x =
    ap (keep_end c) (erase-snoc q x)
    ∙ if-split (λ (r : List ℕ). keep_end c (if ends_line x then q ++ (x ∷ []) else erase q) ≡ r)
        (ends_line x) (λ e. ap (keep_end c) (if-true _ _ e) ∙ keep_end-append c q [] x)
        (λ e. ap (keep_end c) (if-false _ _ e))

rubout-cons :
    (c : ℕ) (q r : List ℕ) (x : ℕ) → rubout (c ∷ (q ++ (x ∷ r))) ≡ c ∷ rubout (q ++ (x ∷ r))
rubout-cons c [] r x = refl
rubout-cons c (d ∷ q) r x = refl

pub rubout-snoc :
    (q : List ℕ) (x : ℕ) → rubout (q ++ (x ∷ [])) ≡ (if ends_line x then q ++ (x ∷ []) else q)
rubout-snoc [] x = refl
rubout-snoc (c ∷ q) x =
    rubout-cons c q [] x
    ∙ ap (λ r. c ∷ r) (rubout-snoc q x)
    ∙ if-split (λ (r : List ℕ). c ∷ (if ends_line x then q ++ (x ∷ []) else q) ≡ r) (ends_line x)
        (λ e. ap (λ r. c ∷ r) (if-true _ _ e)) (λ e. ap (λ r. c ∷ r) (if-false _ _ e))

-- How often a byte waits.
abbrev pub count : ℕ → List ℕ → ℕ
count c [] = 0
count c (x ∷ q) = (if x == c then 1 else 0) + count c q

pub count-snoc :
    (c : ℕ) (q : List ℕ) (x : ℕ) → count c (q ++ (x ∷ [])) ≡ count c q + (if x == c then 1 else 0)
count-snoc c [] x = omega arith
count-snoc c (y ∷ q) x = omega (arith, count-snoc c q x)

pub count-le-length : (c : ℕ) (q : List ℕ) → count c q ≤ length q
count-le-length c [] = omega arith
count-le-length c (x ∷ q) = ground (arith, count-le-length c q)
