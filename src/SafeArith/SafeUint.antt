-- ===== src/SafeArith/SafeUint.antt =====
-- src/lang/base/SafeArith.ml: the functor SafeUint.
pub mod Exact
use scilla.Base.{
  ℕ, zero, suc, Bool, not, ◌&&◌, ◌||◌, Option, none, some, if◌then◌else◌, is_less, is_equal,
}
use scilla.SafeArith.{Checked, returned, raised, int_overflow, int_underflow, bind, divided, IntRep}

module _ (unsafe : IntRep) where
  open unsafe use {T}

  unfoldable pub add : T → T → Checked T
  add a b =
      let r = unsafe.add a b in
      if is_less (unsafe.compare r a) || is_less (unsafe.compare r b)
      then raised int_overflow
      else returned r

  unfoldable pub sub : T → T → Checked T
  sub a b =
      let r = unsafe.sub a b in
      if is_less (unsafe.compare a b) then raised int_underflow else returned r

  -- The test of the product divides by `b`.
  unfoldable pub mul : T → T → Checked T
  mul a b =
      let r = unsafe.mul a b in
      if not (is_equal (unsafe.compare b unsafe.zero))
      then bind (divided (unsafe.div r b))
          (λ q. if not (is_equal (unsafe.compare q a)) then raised int_overflow else returned r)
      else returned r

  unfoldable pub div : T → T → Checked T
  div a b = divided (unsafe.div a b)

  unfoldable pub rem : T → T → Checked T
  rem a b = divided (unsafe.rem a b)

  -- The exponent, an Uint32, counts down.
  unfoldable pub pow_aux : T → T → ℕ → Checked T
  unfolding mul
  pow_aux a acc zero = returned acc
  pow_aux a acc (suc b) = bind (mul a acc) (λ p. pow_aux a p b)

  unfoldable pub pow : T → ℕ → Checked T
  pow a b = pow_aux a unsafe.one b

  unfoldable pub lt : T → T → Bool
  lt a b = is_less (unsafe.compare a b)
