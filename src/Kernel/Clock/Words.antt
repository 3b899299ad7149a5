-- ===== src/Kernel/Clock/Words.antt =====
-- A pair of words at a user address, and the range test.
use lamp_vm.Common.Tests.{
  ℕ, ◌+◌, ◌^◌, ◌<◌, ◌≡◌, ◌∙◌, Bool-cases, inr, ◌==◌, false, inl, true, some, arith,
}
use lamp_vm.Machine.Memory.{load32}
use lamp_vm.Machine.Memory.Words.{load32-store32, load32-store32_apart}
use lamp_vm.Kernel.Clock.{Timespec}
use lamp_vm.Kernel.Clock.User.{store_pair, ptr_range_ok, user_read_timespec}

load_pair :
    (mem : ℕ → ℕ) (a x y : ℕ)
    → x < 2 ^ 32
    → y < 2 ^ 32
    → (load32 (store_pair mem a x y) a ≡ x) × (load32 (store_pair mem a x y) (a + 4) ≡ y)
load_pair mem a x y hx hy = (
  load32-store32_apart _ (a + 4) y a (inl (omega arith)) ∙ load32-store32 mem a x hx,
  load32-store32 _ (a + 4) y hy,
)

-- What was written is read back.
pub user_read_timespec-user_write_timespec :
    (a : ℕ) (ts : Timespec) (mem : ℕ → ℕ)
    → ts.tv_sec < 2 ^ 32
    → ts.tv_nsec < 2 ^ 32
    → ptr_range_ok a 8 ≡ true
    → user_read_timespec a (store_pair mem a ts.tv_sec ts.tv_nsec) ≡ some ts
user_read_timespec-user_write_timespec a ts mem hs hn ok =
    let (e1, e2) = load_pair mem a ts.tv_sec ts.tv_nsec hs hn in rw (ok, e1, e2)

-- A range at 0 is refused.
pub not_null : (a : ℕ) → ptr_range_ok a 8 ≡ true → (a == 0) ≡ false
unfolding ptr_range_ok
not_null a ok = ground arith

pub read_in_range :
    (a : ℕ) (ts : Timespec) (mem : ℕ → ℕ)
    → user_read_timespec a mem ≡ some ts
    → ptr_range_ok a 8 ≡ true
read_in_range a ts mem e = elim (Bool-cases (ptr_range_ok a 8)) [
  | inl ok ↦ ok
  | inr bad ↦ ground arith
]
