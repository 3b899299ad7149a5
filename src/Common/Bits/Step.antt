-- ===== src/Common/Bits/Step.antt =====
-- One equation for the lowest digit of each operation, and what each does to a single bit.
use Prim.Native.Nat.{min, max, digits, bit_and-bitwise, bit_or-bitwise, bit_xor-bitwise}
pub use Prim.Native.Nat.{bit_and, bit_or, bit_xor}
use Prim.Native.Nat.{bitwise, differ}
use lamp_vm.Common.Tests.{ℕ, zero, suc, ◌+◌, ◌*◌, ◌/◌, ◌%◌, ◌≤◌, ◌<◌, ◌≡◌, refl, ap, sym, arith}

-- Any fuel that reaches the first operand is as good as any other.
module _ (rest : ℕ → ℕ) (op : ℕ → ℕ → ℕ) where
  same_digits :
      (x y fuel more : ℕ) → x ≤ fuel → x ≤ more → digits rest op fuel x y ≡ digits rest op more x y
  same_digits zero y zero zero l g = refl
  same_digits zero y zero (suc more) l g = refl
  same_digits zero y (suc fuel) zero l g = refl
  same_digits zero y (suc fuel) (suc more) l g = refl
  same_digits (suc x) y (suc fuel) (suc more) l g =
      ap (λ (high : ℕ). high * 2 + op (suc x % 2) (y % 2))
        (same_digits (suc x / 2) (y / 2) fuel more (omega arith) (omega arith))
  same_digits (suc x) y zero more l g = absurd (omega arith)
  same_digits (suc x) y (suc fuel) zero l g = absurd (omega arith)

  low_digit :
      (x y : ℕ)
      → op (suc x % 2) (y % 2) + bitwise rest op (suc x / 2) (y / 2) * 2 ≡ bitwise rest op (suc x) y
  low_digit x y =
      let half : ℕ = suc x / 2 in
      omega (arith, same_digits half (y / 2) x half (omega arith) (omega arith))

pub bit_or_step : (x y : ℕ) → bit_or x y ≡ max (x % 2) (y % 2) + bit_or (x / 2) (y / 2) * 2
bit_or_step zero y = simp bit_or-bitwise (omega arith)
bit_or_step (suc x) y = sym (simp bit_or-bitwise (low_digit (λ d. d) max x y))

pub bit_and_step : (x y : ℕ) → bit_and x y ≡ min (x % 2) (y % 2) + bit_and (x / 2) (y / 2) * 2
bit_and_step zero y = simp bit_and-bitwise (omega arith)
bit_and_step (suc x) y = sym (simp bit_and-bitwise (low_digit (λ d. 0) min x y))

pub bit_xor_step : (x y : ℕ) → bit_xor x y ≡ differ (x % 2) (y % 2) + bit_xor (x / 2) (y / 2) * 2
bit_xor_step zero y = simp bit_xor-bitwise (omega arith)
bit_xor_step (suc x) y = sym (simp bit_xor-bitwise (low_digit (λ d. d) differ x y))

pub zero-bit_or : (b : ℕ) → bit_or 0 b ≡ b
zero-bit_or b = bit_or-bitwise 0 b

pub zero-bit_and : (b : ℕ) → bit_and 0 b ≡ 0
zero-bit_and b = bit_and-bitwise 0 b

pub zero-bit_xor : (b : ℕ) → bit_xor 0 b ≡ b
zero-bit_xor b = bit_xor-bitwise 0 b

pub differ-lt : (a b : ℕ) → a < 2 → b < 2 → differ a b < 2
differ-lt zero b p q = q
differ-lt (suc zero) zero p q = p
differ-lt (suc zero) (suc zero) p q = omega arith
differ-lt (suc zero) (suc (suc b)) p q = absurd (omega arith)
differ-lt (suc (suc a)) b p q = absurd (omega arith)

-- Bit `k` of a number.
abbrev pub bit : ℕ → ℕ → ℕ
bit n zero = n % 2
bit n (suc k) = bit (n / 2) k

pub bit_or-half : (a b : ℕ) → bit_or a b / 2 ≡ bit_or (a / 2) (b / 2)
bit_or-half a b = omega (arith, bit_or_step a b)

pub bit_and-half : (a b : ℕ) → bit_and a b / 2 ≡ bit_and (a / 2) (b / 2)
bit_and-half a b = omega (arith, bit_and_step a b)

pub bit-bit_or : (k a b : ℕ) → bit (bit_or a b) k ≡ max (bit a k) (bit b k)
bit-bit_or zero a b = omega (arith, bit_or_step a b)
bit-bit_or (suc k) a b = rw (bit_or-half a b) (bit-bit_or k (a / 2) (b / 2))

pub bit-bit_and : (k a b : ℕ) → bit (bit_and a b) k ≡ min (bit a k) (bit b k)
bit-bit_and zero a b = omega (arith, bit_and_step a b)
bit-bit_and (suc k) a b = rw (bit_and-half a b) (bit-bit_and k (a / 2) (b / 2))
