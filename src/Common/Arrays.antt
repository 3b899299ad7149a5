-- ===== src/Common/Arrays.antt =====
-- C arrays and memories of fixed extent as functions of the index; the extent is kept, and
-- guarded, where the array is used.
use lamp_vm.Common.Tests.{
  ℕ, zero, suc, ◌≡◌, ◌≢◌, ◌==◌, if◌then◌else◌, ==_self, ne→==_false, List, [], ◌∷◌,
}

abbrev pub update {ℓ} : {A : Type ℓ} → (ℕ → A) → ℕ → A → ℕ → A
update f p v q = if p == q then v else f q

module _ {ℓ} {A : Type ℓ} where
  abbrev pub length : List A → ℕ
  length [] = 0
  length (x ∷ xs) = suc (length xs)

  abbrev pub get_or : List A → ℕ → A → A
  get_or [] i d = d
  get_or (x ∷ xs) zero d = x
  get_or (x ∷ xs) (suc i) d = get_or xs i d

pub update_self {ℓ} : {A : Type ℓ} (f : ℕ → A) (p : ℕ) (v : A) → update f p v p ≡ v
update_self f p v = rw (==_self p)

pub update_ne {ℓ} : {A : Type ℓ} (f : ℕ → A) (p q : ℕ) (v : A) → p ≢ q → update f p v q ≡ f q
update_ne f p q v h = rw (ne→==_false p q h)
