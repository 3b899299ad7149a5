-- ===== src/Machine/Flags/Bits.antt =====
-- The flag updates, bit by bit.
use lamp_vm.Common.Tests.{ℕ, ◌≡◌, refl, Bool, true, false, ltb, ◌==◌, if◌then◌else◌, arith}
use lamp_vm.Common.Word.{add32, not32, is_neg}
use lamp_vm.Common.Bits.Step.{bit, bit_and, bit-bit_or, bit-bit_and}
use lamp_vm.Common.Bits.Fields.{bit-lt, bit_and-pow}
use lamp_vm.Machine.State.{flag_cf, flag_zf, flag_sf, flag_of}
use lamp_vm.Machine.Flags.{
  put_flag, has_flag, update_add_flags, update_sub_flags, add_overflows, sub_overflows,
}

abbrev pub digit : Bool → ℕ
digit b = if b then 1 else 0

-- `put_flag` sets the bit of its mask and leaves the others.
pub put_flag_hit :
    (k m : ℕ) (b : Bool) (f : ℕ)
    → bit m k ≡ 1
    → bit (not32 m) k ≡ 0
    → bit (put_flag m b f) k ≡ digit b
put_flag_hit k m true f p q = omega (arith, bit-bit_or k f m, bit-lt k f)
put_flag_hit k m false f p q = omega (arith, bit-bit_and k f (not32 m), bit-lt k f)

pub put_flag_miss :
    (k m : ℕ) (b : Bool) (f : ℕ)
    → bit m k ≡ 0
    → bit (not32 m) k ≡ 1
    → bit (put_flag m b f) k ≡ bit f k
put_flag_miss k m true f p q = omega (arith, bit-bit_or k f m, bit-lt k f)
put_flag_miss k m false f p q = omega (arith, bit-bit_and k f (not32 m), bit-lt k f)

-- ZF, SF, CF and OF are bits 3, 4, 0 and 5.
pub record Shows (zf sf cf of : Bool) (flags : ℕ) : Type 0 where
  pub zero_bit : bit flags 3 ≡ digit zf
  pub sign_bit : bit flags 4 ≡ digit sf
  pub carry_bit : bit flags 0 ≡ digit cf
  pub overflow_bit : bit flags 5 ≡ digit of

four_flags :
    (z s o c : Bool) (f : ℕ)
    → Shows z s c o
        (put_flag flag_sf s (put_flag flag_zf z (put_flag flag_of o (put_flag flag_cf c f))))
four_flags z s o c f =
    let f1 = put_flag flag_cf c f in
    let f2 = put_flag flag_of o f1 in
    let f3 = put_flag flag_zf z f2 in
    record {
      zero_bit =
          omega
            (arith, put_flag_miss 3 flag_sf s f3 refl refl, put_flag_hit 3 flag_zf z f2 refl refl);
      sign_bit = put_flag_hit 4 flag_sf s f3 refl refl;
      carry_bit = omega (
        arith,
        put_flag_miss 0 flag_sf s f3 refl refl,
        put_flag_miss 0 flag_zf z f2 refl refl,
        put_flag_miss 0 flag_of o f1 refl refl,
        put_flag_hit 0 flag_cf c f refl refl,
      );
      overflow_bit = omega (
        arith,
        put_flag_miss 5 flag_sf s f3 refl refl,
        put_flag_miss 5 flag_zf z f2 refl refl,
        put_flag_hit 5 flag_of o f1 refl refl,
      );
    }

pub update_sub_flags-Shows :
    (a b r f : ℕ)
    → Shows (r == 0) (is_neg r) (ltb a b) (sub_overflows a b r) (update_sub_flags a b r f)
unfolding update_sub_flags
update_sub_flags-Shows a b r f = four_flags (r == 0) (is_neg r) (sub_overflows a b r) (ltb a b) f

pub update_add_flags-Shows :
    (a b r f : ℕ)
    → Shows (r == 0) (is_neg r) (ltb (add32 a b) a) (add_overflows a b r) (update_add_flags a b r f)
unfolding update_add_flags
update_add_flags-Shows a b r f =
    four_flags (r == 0) (is_neg r) (add_overflows a b r) (ltb (add32 a b) a) f

-- What the tests of the jumps read.
module _ (zf sf cf of : Bool) (f : ℕ) (shows : Shows zf sf cf of f) where
  pub has_flag-zf : has_flag flag_zf f ≡ zf
  has_flag-zf = ground (arith, bit_and-pow 3 f)

  pub has_flag-cf : has_flag flag_cf f ≡ cf
  has_flag-cf = ground (arith, bit_and-pow 0 f)

  pub masked_sf : bit_and f flag_sf ≡ (if sf then 16 else 0)
  masked_sf = ground (arith, bit_and-pow 4 f)

  pub masked_of : bit_and f flag_of ≡ (if of then 32 else 0)
  masked_of = ground (arith, bit_and-pow 5 f)
