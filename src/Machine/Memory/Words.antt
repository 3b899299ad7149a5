-- ===== src/Machine/Memory/Words.antt =====
-- Words in a memory: what a store leaves at each address, and a load after it.
use lamp_vm.Common.Tests.{ℕ, ◌+◌, ◌*◌, ◌^◌, ◌≤◌, ◌<◌, ◌≡◌, ◌⊎◌, inl, ap, ◌∙◌, arith}
use lamp_vm.Common.Word.{u8, u32, ◌<<<◌, ◌>>>◌}
use lamp_vm.Common.Bits.Step.{bit_or, zero-bit_or}
use lamp_vm.Common.Bits.Fields.{bit_or_low_high}
use lamp_vm.Machine.Memory.{load32, store32}

-- Four bytes, put together.
abbrev pub four_bytes : ℕ → ℕ → ℕ → ℕ → ℕ
four_bytes b0 b1 b2 b3 = b0 + b1 * 2 ^ 8 + b2 * 2 ^ 16 + b3 * 2 ^ 24

abbrev pub IsByteAt : (ℕ → ℕ) → ℕ → Type 0
IsByteAt mem a = mem a < 2 ^ 8

pub load32-four_bytes :
    (mem : ℕ → ℕ) (a : ℕ)
    → IsByteAt mem a
    → IsByteAt mem (a + 1)
    → IsByteAt mem (a + 2)
    → load32 mem a ≡ four_bytes (mem a) (mem (a + 1)) (mem (a + 2)) (mem (a + 3))
unfolding load32
load32-four_bytes mem a h0 h1 h2 = rw (zero-bit_or (mem a)) (
    rw (bit_or_low_high 8 (mem (a + 1)) (mem a) h0) (
      rw (bit_or_low_high 16 (mem (a + 2)) (mem (a + 1) * 2 ^ 8 + mem a) (omega arith)) (
        rw
          (bit_or_low_high 24 (mem (a + 3)) (mem (a + 2) * 2 ^ 16 + (mem (a + 1) * 2 ^ 8 + mem a))
            (omega arith))
          (omega arith))))

module _ (mem : ℕ → ℕ) (a v : ℕ) where
  pub store32_bytes :
      (store32 mem a v a ≡ u8 v)
      × (store32 mem a v (a + 1) ≡ u8 (v >>> 8))
      × (store32 mem a v (a + 2) ≡ u8 (v >>> 16))
      × (store32 mem a v (a + 3) ≡ u8 (v >>> 24))
  unfolding store32
  store32_bytes = ground arith

  pub store32_elsewhere : (q : ℕ) → (q < a) ⊎ (a + 4 ≤ q) → store32 mem a v q ≡ mem q
  unfolding store32
  store32_elsewhere q h = ground arith

  -- A load gives back the word that was stored.
  pub load32-store32 : v < 2 ^ 32 → load32 (store32 mem a v) a ≡ v
  load32-store32 h =
      let (e0, e1, e2, e3) = store32_bytes in
      load32-four_bytes (store32 mem a v) a (rw e0 (omega arith)) (rw e1 (omega arith))
        (rw e2 (omega arith))
      ∙ omega (arith, e0, e1, e2, e3)

-- A load of untouched bytes gives what it gave.
pub load32_cong :
    (m n : ℕ → ℕ) (a : ℕ)
    → m a ≡ n a
    → m (a + 1) ≡ n (a + 1)
    → m (a + 2) ≡ n (a + 2)
    → m (a + 3) ≡ n (a + 3)
    → load32 m a ≡ load32 n a
unfolding load32
load32_cong m n a e0 e1 e2 e3 = rw (e0, e1, e2, e3)

pub load32-store32_apart :
    (mem : ℕ → ℕ) (a v b : ℕ)
    → (b + 4 ≤ a) ⊎ (a + 4 ≤ b)
    → load32 (store32 mem a v) b ≡ load32 mem b
load32-store32_apart mem a v b h =
    load32_cong (store32 mem a v) mem b (store32_elsewhere mem a v b (ground arith))
      (store32_elsewhere mem a v (b + 1) (ground arith))
      (store32_elsewhere mem a v (b + 2) (ground arith))
      (store32_elsewhere mem a v (b + 3) (ground arith))

abbrev pub store64 : (ℕ → ℕ) → ℕ → ℕ → ℕ → ℕ
store64 mem a v = store32 (store32 mem a v) (a + 4) (v >>> 32)

-- Two words, put together.
abbrev pub two_words : (ℕ → ℕ) → ℕ → ℕ
two_words mem a = bit_or (load32 mem a) (load32 mem (a + 4) <<< 32)

store32-u32 : (mem : ℕ → ℕ) (a v : ℕ) → store32 mem a v ≡ store32 mem a (u32 v)
unfolding store32
store32-u32 mem a v =
    let e0 : u8 v ≡ u8 (u32 v) = omega arith in
    let e1 : u8 (v >>> 8) ≡ u8 (u32 v >>> 8) = omega arith in
    let e2 : u8 (v >>> 16) ≡ u8 (u32 v >>> 16) = omega arith in
    let e3 : u8 (v >>> 24) ≡ u8 (u32 v >>> 24) = omega arith in rw (e0, e1, e2, e3)

pub two_words-store64 : (mem : ℕ → ℕ) (a v : ℕ) → v < 2 ^ 64 → two_words (store64 mem a v) a ≡ v
two_words-store64 mem a v h =
    rw (low, high) (bit_or_low_high 32 (v >>> 32) (u32 v) (omega arith) ∙ omega arith)
  where
    low : load32 (store64 mem a v) a ≡ u32 v
    low =
        load32-store32_apart (store32 mem a v) (a + 4) (v >>> 32) a (inl (omega arith))
        ∙ ap (λ m. load32 m a) (store32-u32 mem a v)
        ∙ load32-store32 mem a (u32 v) (omega arith)

    high : load32 (store64 mem a v) (a + 4) ≡ v >>> 32
    high = load32-store32 (store32 mem a v) (a + 4) (v >>> 32) (omega arith)

pub two_words-store64_apart :
    (mem : ℕ → ℕ) (a v b : ℕ)
    → (b + 8 ≤ a) ⊎ (a + 8 ≤ b)
    → two_words (store64 mem a v) b ≡ two_words mem b
two_words-store64_apart mem a v b h = rw (low, high)
  where
    low : load32 (store64 mem a v) b ≡ load32 mem b
    low =
        load32-store32_apart (store32 mem a v) (a + 4) (v >>> 32) b (ground arith)
        ∙ load32-store32_apart mem a v b (ground arith)

    high : load32 (store64 mem a v) (b + 4) ≡ load32 mem (b + 4)
    high =
        load32-store32_apart (store32 mem a v) (a + 4) (v >>> 32) (b + 4) (ground arith)
        ∙ load32-store32_apart mem a v (b + 4) (ground arith)
