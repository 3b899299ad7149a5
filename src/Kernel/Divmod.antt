-- ===== src/Kernel/Divmod.antt =====
-- kernel/src/compiler_rt_divmod.c: unsigned division of 64 bits by shifting and subtracting.
pub mod Long
use lamp_vm.Common.Tests.{
  ℕ, zero, suc, ◌+◌, ◌-◌, ◌*◌, ◌/◌, ◌%◌, ◌^◌, ◌<◌, ◌≤◌, ◌≡◌, refl, sym, ap, ◌∙◌, Bool, true, false,
  ◌&&◌, not, inl, inr, ltb, leb, ◌==◌, if◌then◌else◌, if-true, if-false, Bool-cases, arith,
}
use lamp_vm.Common.Word.{u64}
use lamp_vm.Common.Bits.Step.{bit_or}

-- The loop that moves the divisor up; the second component counts its rounds. It runs on fuel.
unfoldable align : ℕ → ℕ → ℕ → ℕ → ℕ × ℕ
align zero a div shift = (div, shift)
align (suc fuel) a div shift =
    let rest = align fuel a (u64 (div * 2)) (shift + 1) in
    if (div / 2 ^ 63 == 0) && leb div (a / 2) then rest else (div, shift)

abbrev reduced : ℕ → ℕ → ℕ
reduced a div = if leb div a then a - div else a

abbrev extended : ℕ → ℕ → ℕ → ℕ
extended a div quot = if leb div a then bit_or (u64 (quot * 2)) 1 else u64 (quot * 2)

-- The loop of subtractions, with `shift` rounds after the next: quotient and remainder.
unfoldable subtract : ℕ → ℕ → ℕ → ℕ → ℕ × ℕ
subtract zero a div quot = (extended a div quot, reduced a div)
subtract (suc shift) a div quot = subtract shift (reduced a div) (div / 2) (extended a div quot)

abbrev divide_from : ℕ → ℕ × ℕ → ℕ × ℕ
divide_from a (div, shift) = subtract shift a div 0

-- `udivmoddi4`: the quotient and what is stored at `Rem`.
unfoldable pub udivmoddi4 : ℕ → ℕ → ℕ × ℕ
unfolding align subtract
udivmoddi4 a b =
    if b == 0 then (0, 0) else if ltb a b then (0, a) else divide_from a (align 64 a b 0)

unfoldable pub udivdi3 : ℕ → ℕ → ℕ
unfolding udivmoddi4
udivdi3 a b = (udivmoddi4 a b).0

unfoldable pub umoddi3 : ℕ → ℕ → ℕ
unfolding udivmoddi4
umoddi3 a b = (udivmoddi4 a b).1

abbrev differ : Bool → Bool → Bool
differ true b = not b
differ false b = b

-- Signed operands are patterns of 64 bits.
abbrev pub is_negative : ℕ → Bool
is_negative v = leb (2 ^ 63) v

abbrev pub negated : ℕ → ℕ
negated v = u64 (2 ^ 64 - v)

unfoldable pub uabsdi : ℕ → ℕ
uabsdi v = if is_negative v then negated v else v

unfoldable pub divdi3 : ℕ → ℕ → ℕ
unfolding udivdi3 uabsdi
divdi3 a b =
    if b == 0
    then 0
    else let q = udivdi3 (uabsdi a) (uabsdi b) in
      if differ (is_negative a) (is_negative b) then negated q else q

unfoldable pub moddi3 : ℕ → ℕ → ℕ
unfolding umoddi3 uabsdi
moddi3 a b =
    if b == 0
    then 0
    else let r = umoddi3 (uabsdi a) (uabsdi b) in if is_negative a then negated r else r
