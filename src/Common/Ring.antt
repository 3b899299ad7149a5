-- ===== src/Common/Ring.antt =====
-- A ring of 256 bytes with a head and a tail index, as the list of its bytes, the oldest first.
use lamp_vm.Common.Tests.{
  ℕ, zero, suc, ◌+◌, ◌-◌, ◌%◌, ◌^◌, ◌<◌, ◌≡◌, ◌≢◌, refl, ap, ◌∙◌, List, [], ◌∷◌, ◌++◌, ◌==◌, true,
  false, arith,
}
use lamp_vm.Common.Arrays.{update, update_self, update_ne, length}

-- `n` bytes of the ring from index `t` on.
abbrev pub items : (ℕ → ℕ) → ℕ → ℕ → List ℕ
items f t zero = []
items f t (suc n) = f t ∷ items f ((t + 1) % 2 ^ 8) n

abbrev pub used : ℕ → ℕ → ℕ
used head tail = (head + 2 ^ 8 - tail) % 2 ^ 8

pub length-items : (f : ℕ → ℕ) (t n : ℕ) → length (items f t n) ≡ n
length-items f t zero = refl
length-items f t (suc n) = ap suc (length-items f ((t + 1) % 2 ^ 8) n)

pub items-snoc :
    (f : ℕ → ℕ) (c h t n : ℕ)
    → t < 2 ^ 8
    → n < 2 ^ 8 - 1
    → h ≡ (t + n) % 2 ^ 8
    → items (update f h c) t (suc n) ≡ items f t n ++ (c ∷ [])
items-snoc f c h t zero lt ln e =
    let at : t ≡ h = omega arith in
    ap (λ (x : ℕ). x ∷ []) (ap (update f h c) at ∙ update_self f h c)
items-snoc f c h t (suc n) lt ln e =
    let apart : h ≢ t = (λ s. omega arith) in
    ap (λ (x : ℕ). x ∷ items (update f h c) ((t + 1) % 2 ^ 8) (suc n)) (update_ne f h t c apart)
    ∙ ap (λ q. f t ∷ q)
        (items-snoc f c h ((t + 1) % 2 ^ 8) n (omega arith) (omega arith) (omega arith))

-- The newest byte last.
pub items-last :
    (f : ℕ → ℕ) (t n : ℕ)
    → t < 2 ^ 8
    → items f t (suc n) ≡ items f t n ++ (f ((t + n) % 2 ^ 8) ∷ [])
items-last f t zero l = ap (λ (i : ℕ). f i ∷ []) (omega (arith, l))
items-last f t (suc n) l =
    ap (λ q. f t ∷ q)
      (items-last f ((t + 1) % 2 ^ 8) n (omega arith)
        ∙ ap (λ (i : ℕ). items f ((t + 1) % 2 ^ 8) n ++ (f i ∷ [])) (omega (arith, l)))

-- Full is one short of 256.
pub used-full : (h t : ℕ) → h < 2 ^ 8 → t < 2 ^ 8 → ((h + 1) % 2 ^ 8 == t) ≡ true → used h t ≡ 255
used-full h t l m e = ground arith

pub used-lt : (h t : ℕ) → h < 2 ^ 8 → t < 2 ^ 8 → ((h + 1) % 2 ^ 8 == t) ≡ false → used h t < 255
used-lt h t l m e = ground arith
