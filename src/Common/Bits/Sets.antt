-- ===== src/Common/Bits/Sets.antt =====
-- A word as a set of bit numbers: one bit added, one bit taken out.
use native.Mathlib.Nat.{pow-suc, one-le-pow}
use lamp_vm.Common.Tests.{ℕ, zero, suc, ◌-◌, ◌/◌, ◌^◌, ◌<◌, ◌≡◌, ◌≢◌, refl, ap, ◌∙◌, arith}
use lamp_vm.Common.Bits.Step.{bit, bit_or, bit_and, bit-bit_or, bit-bit_and}
use lamp_vm.Common.Bits.Fields.{bit-lt}

bit-zero : (j : ℕ) → bit 0 j ≡ 0
bit-zero zero = refl
bit-zero (suc j) = bit-zero j

half-pow_suc : (b : ℕ) → 2 ^ suc b / 2 ≡ 2 ^ b
half-pow_suc b = omega (arith, pow-suc 2 b)

pub bit-pow : (b : ℕ) → bit (2 ^ b) b ≡ 1
bit-pow zero = refl
bit-pow (suc b) = ap (λ n. bit n b) (half-pow_suc b) ∙ bit-pow b

pub bit-pow_other : (b j : ℕ) → j ≢ b → bit (2 ^ b) j ≡ 0
bit-pow_other zero zero h = absurd (omega arith)
bit-pow_other zero (suc j) h = bit-zero j
bit-pow_other (suc b) zero h = omega (arith, pow-suc 2 b)
bit-pow_other (suc b) (suc j) h =
    ap (λ n. bit n j) (half-pow_suc b) ∙ bit-pow_other b j (omega arith)

pub bit-complement : (n x j : ℕ) → x < 2 ^ n → j < n → bit (2 ^ n - 1 - x) j ≡ 1 - bit x j
bit-complement zero x j h l = absurd (omega arith)
bit-complement (suc n) x zero h l = omega (arith, pow-suc 2 n)
bit-complement (suc n) x (suc j) h l =
    let half : (2 ^ suc n - 1 - x) / 2 ≡ 2 ^ n - 1 - x / 2 = omega (arith, pow-suc 2 n) in
    ap (λ m. bit m j) half ∙ bit-complement n (x / 2) j (omega (arith, pow-suc 2 n)) (omega arith)

pub add_bit_self : (w b : ℕ) → bit (bit_or w (2 ^ b)) b ≡ 1
add_bit_self w b = omega (arith, bit-bit_or b w (2 ^ b), bit-pow b, bit-lt b w)

pub add_bit_other : (w b j : ℕ) → j ≢ b → bit (bit_or w (2 ^ b)) j ≡ bit w j
add_bit_other w b j h = omega (arith, bit-bit_or j w (2 ^ b), bit-pow_other b j h)

pub pow-lt : (b n : ℕ) → b < n → 2 ^ b < 2 ^ n
pow-lt zero zero h = absurd (omega arith)
pow-lt zero (suc n) h = omega (arith, pow-suc 2 n, one-le-pow n 2 (omega arith))
pow-lt (suc b) zero h = absurd (omega arith)
pow-lt (suc b) (suc n) h = omega (arith, pow-suc 2 n, pow-suc 2 b, pow-lt b n (omega arith))

module _ (n w b : ℕ) (h : b < n) where
  pub clear_bit_self : bit (bit_and w (2 ^ n - 1 - 2 ^ b)) b ≡ 0
  clear_bit_self = omega (
    arith,
    bit-bit_and b w (2 ^ n - 1 - 2 ^ b),
    bit-complement n (2 ^ b) b (pow-lt b n h) h,
    bit-pow b,
  )

  pub clear_bit_other : (j : ℕ) → j < n → j ≢ b → bit (bit_and w (2 ^ n - 1 - 2 ^ b)) j ≡ bit w j
  clear_bit_other j l d = omega (
    arith,
    bit-bit_and j w (2 ^ n - 1 - 2 ^ b),
    bit-complement n (2 ^ b) j (pow-lt b n h) l,
    bit-pow_other b j d,
    bit-lt j w,
  )
