-- ===== src/Kernel/Divmod/Long.antt =====
-- The long division computes quotient and remainder.
use native.Mathlib.Nat.{
  pow-suc, add-mul, mul_comm, mul_assoc, mul-add-div_right, mul-add-mod_self_right, div-eq_of_lt,
  mod-eq_of_lt,
}
use lamp_vm.Common.Tests.{
  ℕ, zero, suc, ◌+◌, ◌-◌, ◌*◌, ◌/◌, ◌%◌, ◌^◌, ◌<◌, ◌≤◌, ◌≡◌, sym, ap, ◌∙◌, ◌&&◌, ◌⊎◌, inl, inr, ltb,
  leb, ◌==◌, if◌then◌else◌, if-true, if-false, if-split, Bool-cases, arith, leb→le,
}
use lamp_vm.Common.Word.{u64}
use lamp_vm.Common.Bits.Step.{bit_or}
use lamp_vm.Common.Bits.Sets.{pow-lt}
use lamp_vm.Common.Bits.Fields.{bit_or_fields, double-pow}
use lamp_vm.Kernel.Divmod.{align, subtract, reduced, extended, divide_from, udivmoddi4}

-- The divisor is `b` moved up `shift` places, and twice it is above `a`.
abbrev IsAligned : ℕ → ℕ → ℕ × ℕ → Type 0
IsAligned a b r = (r.0 ≡ b * 2 ^ r.1) × (a < r.0 * 2) × (r.0 ≤ a)

align-IsAligned :
    (fuel a b div shift : ℕ)
    → a < 2 ^ 64
    → div ≡ b * 2 ^ shift
    → div ≤ a
    → a < div * 2 ^ suc fuel
    → IsAligned a b (align fuel a div shift)
unfolding align
align-IsAligned zero a b div shift small at below above = (at, omega (arith, above), below)
align-IsAligned (suc fuel) a b div shift small at below above =
    if-split (IsAligned a b) ((div / 2 ^ 63 == 0) && leb div (a / 2))
      (λ e.
        let fits : div ≤ a / 2 = ground arith in
        let no_wrap : u64 (div * 2) ≡ div * 2 = omega arith in
        let next : shift + 1 ≡ suc shift = omega arith in
        let moved : b * 2 ^ (shift + 1) ≡ 2 * (b * 2 ^ shift) =
          (ap (λ (k : ℕ). b * 2 ^ k) next ∙ double-pow b shift) in
        align-IsAligned fuel a b (u64 (div * 2)) (shift + 1) small
          (omega (arith, no_wrap, at, moved)) (omega arith)
          (omega (
            arith,
            above,
            double-pow div (suc fuel),
            ap (λ (d : ℕ). d * 2 ^ suc fuel) (no_wrap ∙ mul_comm div 2),
            mul_assoc 2 div (2 ^ suc fuel),
          )))
      (λ e. (at, ground arith, below))

-- One round: the divisor is taken off if it fits, and the quotient gets the digit.
abbrev Round : ℕ → ℕ → ℕ → Type 0
Round a div quot =
    ((div ≤ a) × (reduced a div ≡ a - div) × (extended a div quot ≡ quot * 2 + 1))
    ⊎ ((a < div) × (reduced a div ≡ a) × (extended a div quot ≡ quot * 2))

round : (a div quot : ℕ) → quot * 2 < 2 ^ 64 → Round a div quot
round a div quot small =
    let no_wrap : u64 (quot * 2) ≡ quot * 2 = omega arith in
    elim (Bool-cases (leb div a)) [
      | inl e ↦ inl (
        leb→le div a e,
        if-true _ _ e,
        if-true _ _ e ∙ ap (λ w. bit_or w 1) no_wrap ∙ bit_or_fields 1 quot 1 (omega arith),
      )
      | inr e ↦ inr (ground arith, if-false _ _ e, if-false _ _ e ∙ no_wrap)
    ]

-- The quotient's new digits `c` and the remainder.
abbrev Divides : ℕ → ℕ → ℕ → ℕ → ℕ × ℕ → Type 0
Divides shift a b quot r =
    (c : ℕ) × (r.0 ≡ quot * 2 ^ suc shift + c) × (a ≡ c * b + r.1) × (r.1 < b)

last_digit :
    (a b div quot : ℕ)
    → div ≡ b
    → a < div * 2
    → Round a div quot
    → Divides zero a b quot (extended a div quot, reduced a div)
last_digit a b div quot at above (inl (fits, left, digit)) =
    (1, omega (arith, digit), omega (arith, left), omega (arith, left))
last_digit a b div quot at above (inr (small, left, digit)) =
    (0, omega (arith, digit), omega (arith, left), omega (arith, left))

module _ (shift a b div quot : ℕ) (at : div ≡ b * 2 ^ suc shift) where
  abbrev place : ℕ
  place = 2 ^ suc shift

  doubled : quot * 2 * place ≡ quot * 2 ^ suc (suc shift)
  doubled =
      ap (λ (d : ℕ). d * place) (mul_comm quot 2)
      ∙ mul_assoc 2 quot place
      ∙ sym (double-pow quot (suc shift))

  digit_before :
      (r : ℕ × ℕ)
      → Round a div quot
      → Divides shift (reduced a div) b (extended a div quot) r
      → Divides (suc shift) a b quot r
  digit_before r (inl (fits, left, digit)) (c, q, rest, below) = (
    place + c,
    q ∙ ap (λ (x : ℕ). x * place + c) digit ∙ omega (arith, doubled, add-mul (quot * 2) 1 place),
    omega (arith, at, left, rest, add-mul place c b, mul_comm place b),
    below,
  )
  digit_before r (inr (small, left, digit)) (c, q, rest, below) =
      (c, q ∙ ap (λ (x : ℕ). x * place + c) digit ∙ omega (arith, doubled), sym left ∙ rest, below)

  room_left :
      Round a div quot
      → (quot + 1) * 2 ^ suc (suc shift) ≤ 2 ^ 64
      → (extended a div quot + 1) * place ≤ 2 ^ 64
  room_left (inl (fits, left, digit)) room =
      let one = add-mul (quot * 2 + 1) 1 place in
      let two = add-mul (quot * 2) 1 place in
      let same : (extended a div quot + 1) * place ≡ (quot * 2 + 1 + 1) * place =
        ap (λ (x : ℕ). (x + 1) * place) digit in
      omega (
        arith,
        same,
        one,
        two,
        doubled,
        room,
        add-mul quot 1 (2 ^ suc (suc shift)),
        pow-suc 2 (suc shift),
      )
  room_left (inr (small, left, digit)) room =
      let two = add-mul (quot * 2) 1 place in
      let same : (extended a div quot + 1) * place ≡ (quot * 2 + 1) * place =
        ap (λ (x : ℕ). (x + 1) * place) digit in
      omega (
        arith,
        same,
        two,
        doubled,
        room,
        add-mul quot 1 (2 ^ suc (suc shift)),
        pow-suc 2 (suc shift),
      )

le-mul_pow : (n k : ℕ) → n ≤ n * 2 ^ k
le-mul_pow n zero = omega arith
le-mul_pow n (suc k) = omega (arith, le-mul_pow n k, double-pow n k)

reduced-lt : (a div quot : ℕ) → a < div * 2 → Round a div quot → reduced a div < div
reduced-lt a div quot above (inl (fits, left, digit)) = omega (arith, left)
reduced-lt a div quot above (inr (small, left, digit)) = omega (arith, left)

subtract-Divides :
    (shift a b div quot : ℕ)
    → div ≡ b * 2 ^ shift
    → a < div * 2
    → (quot + 1) * 2 ^ suc shift ≤ 2 ^ 64
    → Divides shift a b quot (subtract shift a div quot)
unfolding subtract
subtract-Divides zero a b div quot at above room =
    last_digit a b div quot (omega (arith, at)) above (round a div quot (omega (arith, room)))
subtract-Divides (suc shift) a b div quot at above room =
    let now =
      round a div quot (
        omega
          (arith, room, double-pow (quot + 1) (suc shift), le-mul_pow (quot + 1) (suc shift))) in
    let down : div / 2 ≡ b * 2 ^ shift = omega (arith, at, double-pow b shift) in
    digit_before shift a b div quot at
      (subtract shift (reduced a div) (div / 2) (extended a div quot)) now
      (subtract-Divides shift (reduced a div) b (div / 2) (extended a div quot) down
        (omega (arith, at, double-pow b shift, reduced-lt a div quot above now))
        (room_left shift a b div quot at now room))

quotient_and_remainder :
    (a b : ℕ) (r : ℕ × ℕ) → (c : ℕ) × (r.0 ≡ c) × (a ≡ c * b + r.1) × (r.1 < b) → r ≡ (a / b, a % b)
quotient_and_remainder a b r (c, q, e, below) =
    let positive : 0 < b = omega arith in
    let quotient : a / b ≡ c =
      ap (λ (n : ℕ). n / b) e
      ∙ mul-add-div_right positive c r.1
      ∙ omega (arith, div-eq_of_lt below) in
    let remainder : a % b ≡ r.1 =
      ap (λ (n : ℕ). n % b) e ∙ mul-add-mod_self_right c b r.1 ∙ mod-eq_of_lt below in
    λ k. ((q ∙ sym quotient) k, sym remainder k)

monotone : (m n : ℕ) → m ≤ n → 2 ^ m ≤ 2 ^ n
monotone m n h = elim (Bool-cases (ltb m n)) [
  | inl e ↦ let less = pow-lt m n (ground arith) in omega (arith, less)
  | inr e ↦ let same : m ≡ n = ground arith in omega (arith, ap (λ (k : ℕ). 2 ^ k) same)
]

le-mul_factor : (b n : ℕ) → 0 < b → n ≤ b * n
le-mul_factor zero n h = absurd (omega (arith, h))
le-mul_factor (suc b) n h = omega (arith, add-mul b 1 n)

room_below : (s : ℕ) → 2 ^ s < 2 ^ 64 → 2 ^ suc s ≤ 2 ^ 64
room_below s small = elim (Bool-cases (ltb s 64)) [
  | inl e ↦ monotone (suc s) 64 (ground arith)
  | inr e ↦
      let above : 2 ^ 64 ≤ 2 ^ s = monotone 64 s (ground arith) in
      absurd (omega (arith, above, small))
]

long_division :
    (a b : ℕ) (r : ℕ × ℕ) → a < 2 ^ 64 → 0 < b → IsAligned a b r → divide_from a r ≡ (a / b, a % b)
long_division a b r small positive (at, above, below) =
    let multiple : 2 ^ r.1 ≤ b * 2 ^ r.1 = le-mul_factor b (2 ^ r.1) positive in
    let power : 2 ^ r.1 < 2 ^ 64 = omega (arith, multiple, at, below, small) in
    let room : (0 + 1) * 2 ^ suc r.1 ≤ 2 ^ 64 = omega (arith, room_below r.1 power) in
    let d = subtract-Divides r.1 a b r.0 0 at above room in
    let quotient : (subtract r.1 a r.0 0).0 ≡ d.0 = omega (arith, d.1) in
    quotient_and_remainder a b (subtract r.1 a r.0 0) (d.0, quotient, d.2, d.3)

by_size :
    (a b : ℕ)
    → a < 2 ^ 64
    → 0 < b
    → (if ltb a b then (0, a) else divide_from a (align 64 a b 0)) ≡ (a / b, a % b)
by_size a b small positive =
    if-split (λ (r : ℕ × ℕ). r ≡ (a / b, a % b)) (ltb a b)
      (λ e.
        let less : a < b = ground arith in
        λ k. (sym (div-eq_of_lt less) k, sym (mod-eq_of_lt less) k))
      (λ e.
        long_division a b (align 64 a b 0) small positive
          (align-IsAligned 64 a b b 0 small (omega arith) (ground arith) (omega arith)))

-- For operands of 64 bits, division returns quotient and remainder; by zero, it returns 0 and stores
-- 0. The fuel of 64 rounds that the model gives to the first loop is enough.
pub udivmoddi4-div-mod :
    (a b : ℕ)
    → a < 2 ^ 64
    → ((b ≡ 0) × (udivmoddi4 a b ≡ (0, 0))) ⊎ ((0 < b) × (udivmoddi4 a b ≡ (a / b, a % b)))
unfolding udivmoddi4
udivmoddi4-div-mod a b small = elim (Bool-cases (b == 0)) [
  | inl e ↦ inl (ground arith, if-true _ _ e)
  | inr e ↦
      let positive : 0 < b = ground arith in
      inr (positive, if-false _ _ e ∙ by_size a b small positive)
]
