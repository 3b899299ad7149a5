-- ===== src/Machine/Flags.antt =====
-- The flag updates at the top of vm.c and `update_fcmp_flags` of float.h, on the executing VCPU.
-- An `int32_t` argument is a pattern below 2 ^ 32.
pub mod Bits
use lamp_vm.Common.Tests.{
  ℕ, ◌+◌, ◌-◌, ◌%◌, ◌^◌, Bool, true, false, ◌&&◌, ◌||◌, ltb, ◌==◌, if◌then◌else◌,
}
use lamp_vm.Common.Word.{add32, not32, is_neg, is_pos}
use lamp_vm.Common.Bits.Step.{bit_or, bit_and}
use lamp_vm.Machine.State.{Vcpu, flag_cf, flag_zf, flag_sf, flag_of}

-- `if (test) flags |= mask; else flags &= ~mask;`
abbrev pub put_flag : ℕ → Bool → ℕ → ℕ
put_flag mask true flags = bit_or flags mask
put_flag mask false flags = bit_and flags (not32 mask)

abbrev pub set_flags : (ℕ → ℕ) → Vcpu → Vcpu
set_flags f c = record c { flags = f c.flags }

unfoldable pub update_zf_sf : ℕ → ℕ → ℕ
update_zf_sf result flags = put_flag flag_sf (is_neg result) (put_flag flag_zf (result == 0) flags)

-- The overflow test of an addition, and of a subtraction.
abbrev pub add_overflows : ℕ → ℕ → ℕ → Bool
add_overflows a b result =
    (is_pos a && (is_pos b && is_neg result)) || (is_neg a && (is_neg b && is_pos result))

abbrev pub sub_overflows : ℕ → ℕ → ℕ → Bool
sub_overflows a b result =
    (is_pos a && (is_neg b && is_neg result)) || (is_neg a && (is_pos b && is_pos result))

unfoldable pub update_add_flags : ℕ → ℕ → ℕ → ℕ → ℕ
unfolding update_zf_sf
update_add_flags a b result flags =
    update_zf_sf result
      (put_flag flag_of (add_overflows a b result) (put_flag flag_cf (ltb (add32 a b) a) flags))

unfoldable pub update_sub_flags : ℕ → ℕ → ℕ → ℕ → ℕ
unfolding update_zf_sf
update_sub_flags a b result flags =
    update_zf_sf result
      (put_flag flag_of (sub_overflows a b result) (put_flag flag_cf (ltb a b) flags))

unfoldable pub clear_cf_of : ℕ → ℕ
clear_cf_of flags = bit_and flags (not32 (bit_or flag_cf flag_of))

unfoldable pub update_logic_flags : ℕ → ℕ → ℕ
unfolding update_zf_sf clear_cf_of
update_logic_flags result flags = update_zf_sf result (clear_cf_of flags)

abbrev pub zf_sf_cf_of : ℕ
zf_sf_cf_of = bit_or (bit_or (bit_or flag_zf flag_sf) flag_cf) flag_of

unfoldable pub clear_all_flags : ℕ → ℕ
clear_all_flags flags = bit_and flags (not32 zf_sf_cf_of)

unfoldable pub set_cas_flags : Bool → ℕ → ℕ
set_cas_flags success flags =
    let cleared = bit_and flags (not32 zf_sf_cf_of) in
    if success then bit_or cleared flag_zf else cleared

-- What the float unit says of two operands: unordered (a NaN), equal, less, greater.
unfoldable pub update_fcmp_flags : Bool → Bool → Bool → Bool → ℕ → ℕ
unfolding clear_all_flags
update_fcmp_flags unordered eq lt gt flags =
    let f0 = clear_all_flags flags in
    if unordered
    then bit_or f0 flag_of
    else let f1 = if eq then bit_or f0 flag_zf else f0 in
      let f2 = if lt then bit_or f1 flag_sf else f1 in if gt then bit_or f2 flag_cf else f2

-- `flags & mask` as a test.
abbrev pub has_flag : ℕ → ℕ → Bool
has_flag mask flags = if bit_and flags mask == 0 then false else true
