-- ===== src/SafeArith/SafeInt.antt =====
-- src/lang/base/SafeArith.ml: the functor SafeInt.
pub mod Sums
mod Quotients
mod Ranges
pub mod Words
pub mod Products
pub mod Divisions
use Prim.Native.Nat.{Ordering}
use scilla.Base.{ℕ, zero, suc, Bool, true, false, not, ◌&&◌, ◌||◌, if◌then◌else◌, is_less, is_equal}
use scilla.SafeArith.{Checked, returned, raised, int_overflow, int_underflow, bind, divided, IntRep}

abbrev pub is_greater : Ordering → Bool
is_greater Ordering.gt = true
is_greater _ = false

-- Equality of the numbers that two comparisons return.
abbrev pub same : Ordering → Ordering → Bool
same Ordering.lt y = is_less y
same Ordering.eq y = is_equal y
same Ordering.gt y = is_greater y

module _ (unsafe : IntRep) where
  open unsafe use {T, compare}

  abbrev pub sign : T → Ordering
  sign a = compare a unsafe.zero

  unfoldable pub add : T → T → Checked T
  add a b =
      let r = unsafe.add a b in
      if is_greater (sign a) && (is_greater (sign b) && is_less (sign r))
      then raised int_overflow
      else if is_less (sign a) && (is_less (sign b) && not (is_less (sign r)))
      then raised int_underflow
      else returned r

  unfoldable pub sub : T → T → Checked T
  sub a b =
      let r = unsafe.sub a b in
      if not (is_less (sign a)) && (is_less (sign b) && is_less (sign r))
      then raised int_overflow
      else if is_less (sign a) && (is_greater (sign b) && is_greater (sign r))
      then raised int_underflow
      else returned r

  unfoldable pub mul : T → T → Checked T
  mul a b =
      let r = unsafe.mul a b in
      if is_less (sign b) && is_equal (compare a unsafe.min_int)
      then raised int_overflow
      else if not (is_equal (sign b))
      then bind (divided (unsafe.div r b)) (λ q.
        if not (is_equal (compare q a))
        then if same (sign a) (sign b) then raised int_overflow else raised int_underflow
        else returned r)
      else returned r

  unfoldable pub div : T → T → Checked T
  div a b =
      if is_equal (compare a unsafe.min_int)
        && is_equal (compare b (unsafe.sub unsafe.zero unsafe.one))
      then raised int_overflow
      else divided (unsafe.div a b)

  unfoldable pub rem : T → T → Checked T
  rem a b = divided (unsafe.rem a b)

  -- The exponent, an Uint32, counts down.
  unfoldable pub pow_aux : T → T → ℕ → Checked T
  unfolding mul
  pow_aux a acc zero = returned acc
  pow_aux a acc (suc b) = bind (mul a acc) (λ p. pow_aux a p b)

  unfoldable pub pow : T → ℕ → Checked T
  pow a b = pow_aux a unsafe.one b

  unfoldable pub lt : T → T → Bool
  lt a b = is_less (compare a b)
