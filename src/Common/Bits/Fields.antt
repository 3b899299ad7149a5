-- ===== src/Common/Bits/Fields.antt =====
-- Disjoint fields under `|`, low masks under `&`, and the bounds of the results.
use mathlib.Core.WellFounded.{Acc, WellFounded}
use mathlib.Core.WellFounded
use native.Mathlib.Nat.{
  pow-suc, one-le-pow, add-mul-mod_self_right, mod-eq_of_lt, mod-lt, div-add-mod',
}
use lamp_vm.Common.Tests.{
  ℕ, zero, suc, ◌+◌, ◌-◌, ◌*◌, ◌/◌, ◌%◌, ◌^◌, ◌≤◌, ◌<◌, ◌≡◌, refl, ap, arith, ◌∙◌,
}
use lamp_vm.Common.Word.{◌<<<◌}
use lamp_vm.Common.Bits.Step.{
  bit_and, bit_or, bit_xor, bit, bit_or_step, bit_and_step, bit_xor_step, zero-bit_or, zero-bit_and,
  zero-bit_xor, differ-lt,
}

acc_below : (k n : ℕ) → n < k → Acc ◌<◌ n
acc_below zero n h = absurd (omega arith)
acc_below (suc k) n h = Acc.intro n (λ m hm. acc_below k m (omega arith))

pub lt_wf : WellFounded ◌<◌
lt_wf = record { apply = λ n. acc_below (suc n) n (omega arith) }

-- Induction from `n / 2` to `n`.
pub by_halves {ℓ} : (P : ℕ → Type ℓ) → P 0 → ((n : ℕ) → P (suc n / 2) → P (suc n)) → (n : ℕ) → P n
by_halves P base step n = WellFounded.induction lt_wf {C = P} n go
  where
    go : (n : ℕ) → ((m : ℕ) → m < n → P m) → P n
    go zero ih = base
    go (suc n) ih = step n (ih (suc n / 2) (omega arith))

pub bit_or-zero : (a : ℕ) → bit_or a 0 ≡ a
bit_or-zero = by_halves (λ n. bit_or n 0 ≡ n) refl (λ n h. omega (arith, bit_or_step (suc n) 0))

pub bit_and-zero : (a : ℕ) → bit_and a 0 ≡ 0
bit_and-zero = by_halves (λ n. bit_and n 0 ≡ 0) refl (λ n h. omega (arith, bit_and_step (suc n) 0))

pub double-pow : (q k : ℕ) → q * 2 ^ suc k ≡ 2 * (q * 2 ^ k)
double-pow q k = omega (arith, ap (λ (t : ℕ). q * t) (pow-suc 2 k))

-- Fields that do not meet: `(high << k) | low` is a sum when `low` fits in `k` bits.
pub bit_or_fields : (k high low : ℕ) → low < 2 ^ k → bit_or (high <<< k) low ≡ high * 2 ^ k + low
bit_or_fields zero high low small = ground (bit_or-zero high, arith)
bit_or_fields (suc k) high low small =
    let rest = bit_or_fields k high (low / 2) (omega arith) in
    ground (rest, double-pow high k, bit_or_step (high * 2 ^ suc k) low, arith)

pub bit_or_comm : (a b : ℕ) → bit_or a b ≡ bit_or b a
bit_or_comm a = WellFounded.induction lt_wf {C = λ n. (b : ℕ) → bit_or n b ≡ bit_or b n} a step
  where
    step :
        (n : ℕ)
        → ((m : ℕ) → m < n → (b : ℕ) → bit_or m b ≡ bit_or b m)
        → (b : ℕ) → bit_or n b ≡ bit_or b n
    step zero ih b = omega (arith, bit_or-zero b, zero-bit_or b)
    step (suc n) ih b =
        omega (
          arith,
          bit_or_step (suc n) b,
          bit_or_step b (suc n),
          ih (suc n / 2) (omega arith) (b / 2),
        )

low-mod : (k q r : ℕ) → r < 2 ^ suc k → (r + q * 2 ^ suc k) % 2 ^ suc k ≡ r
low-mod k q r h = add-mul-mod_self_right r q (2 ^ suc k) ∙ mod-eq_of_lt h

pub mod-double : (k a : ℕ) → a % 2 ^ suc k ≡ a / 2 % 2 ^ k * 2 + a % 2
mod-double k a =
    ap (λ (t : ℕ). t % 2 ^ suc k) split ∙ low-mod k (a / 2 / 2 ^ k) (a / 2 % 2 ^ k * 2 + a % 2) fits
  where
    split : a ≡ a / 2 % 2 ^ k * 2 + a % 2 + a / 2 / 2 ^ k * 2 ^ suc k
    split = omega (arith, double-pow (a / 2 / 2 ^ k) k, div-add-mod' (a / 2) (2 ^ k))

    fits : a / 2 % 2 ^ k * 2 + a % 2 < 2 ^ suc k
    fits = omega (arith, pow-suc 2 k, mod-lt (a / 2) {m = 2 ^ k} (one-le-pow k 2 (omega arith)))

-- A low mask is a remainder.
pub bit_and_mask : (k a : ℕ) → bit_and a (2 ^ k - 1) ≡ a % 2 ^ k
bit_and_mask zero a = omega (arith, bit_and-zero a)
bit_and_mask (suc k) a = omega (
  arith,
  bit_and_step a (2 ^ suc k - 1),
  pow-suc 2 k,
  one-le-pow k 2 (omega arith),
  mod-double k a,
  ap (λ (t : ℕ). bit_and (a / 2) t) half_mask,
  bit_and_mask k (a / 2),
)
  where
    half_mask : (2 ^ suc k - 1) / 2 ≡ 2 ^ k - 1
    half_mask = omega (arith, pow-suc 2 k, one-le-pow k 2 (omega arith))

-- The results of `|`, `&` and `^` on words of `k` bits have `k` bits.
pub bit_or-lt : (k a b : ℕ) → a < 2 ^ k → b < 2 ^ k → bit_or a b < 2 ^ k
bit_or-lt zero a b p q = ground (arith, bit_or-zero a)
bit_or-lt (suc k) a b p q =
    ground (arith, pow-suc 2 k, bit_or_step a b, bit_or-lt k (a / 2) (b / 2))

pub bit_and-le : (a b : ℕ) → bit_and a b ≤ a
bit_and-le =
    by_halves (λ n. (b : ℕ) → bit_and n b ≤ n) (λ b. omega (arith, zero-bit_and b))
      (λ n ih b. omega (arith, bit_and_step (suc n) b, ih (b / 2)))

pub bit_xor-lt : (k a b : ℕ) → a < 2 ^ k → b < 2 ^ k → bit_xor a b < 2 ^ k
bit_xor-lt zero zero b p q = rw zero-bit_xor q
bit_xor-lt zero (suc a) b p q = absurd (omega arith)
bit_xor-lt (suc k) a b p q = ground (
  arith,
  pow-suc 2 k,
  bit_xor_step a b,
  differ-lt (a % 2) (b % 2) (omega arith) (omega arith),
  bit_xor-lt k (a / 2) (b / 2),
)

pub bit-lt : (k n : ℕ) → bit n k < 2
bit-lt zero n = omega arith
bit-lt (suc k) n = bit-lt k (n / 2)

half-pow : (k : ℕ) → 2 ^ suc k / 2 ≡ 2 ^ k
half-pow k = omega (arith, pow-suc 2 k)

-- `n & (1 << k)` is bit `k` in its place.
pub bit_and-pow : (k n : ℕ) → bit_and n (2 ^ k) ≡ bit n k * 2 ^ k
bit_and-pow zero n = omega (arith, bit_and_mask 1 n)
bit_and-pow (suc k) n = ground (
  arith,
  bit_and_step n (2 ^ suc k),
  pow-suc 2 k,
  ap (λ (t : ℕ). bit_and (n / 2) t) (half-pow k),
  double-pow (bit (n / 2) k) k,
  bit_and-pow k (n / 2),
)

-- The same with the low field first.
pub bit_or_low_high : (k q r : ℕ) → r < 2 ^ k → bit_or r (q <<< k) ≡ q * 2 ^ k + r
bit_or_low_high k q r h = bit_or_comm r (q <<< k) ∙ bit_or_fields k q r h
