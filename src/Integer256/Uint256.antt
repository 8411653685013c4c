-- ===== src/Integer256/Uint256.antt =====
-- src/lang/base/Integer256.ml: the module Uint256.
pub mod Sums
pub mod Products
pub mod Shifts
pub mod Digits
mod Partial
pub mod Division
pub mod Text
pub mod Octets
use scilla.Base.{
  ℕ, zero, suc, ◌+◌, ◌-◌, Bool, true, false, not, ◌&&◌, ◌||◌, Option, none, some, ltb, ◌==◌,
  if◌then◌else◌, is_less, is_equal,
}
use Prim.Native.Nat.{Ordering}
use mathlib.Core.Option
use scilla.Integer256.{Uint128, Halves, getlow, gethigh, highlow}

-- The first comparison that is not equal.
abbrev pub lexicographic : Ordering → Ordering → Ordering
lexicographic Ordering.lt y = Ordering.lt
lexicographic Ordering.gt y = Ordering.gt
lexicographic Ordering.eq y = y

module _ (u : Uint128) where
  open u use {Word}

  abbrev pub zero_256 : Halves u
  zero_256 = record { high = u.zero; low = u.zero }

  abbrev pub one_256 : Halves u
  one_256 = record { high = u.zero; low = u.one }

  abbrev pub max_int : Halves u
  max_int = record { high = u.max_int; low = u.max_int }

  unfoldable pub add : Halves u → Halves u → Halves u
  add a b =
      let low = u.add a.low b.low in
      let carry =
        if is_less (u.compare low a.low) || is_less (u.compare low b.low) then u.one else u.zero in
      record { high = u.add (u.add a.high b.high) carry; low = low }

  unfoldable pub sub : Halves u → Halves u → Halves u
  sub a b =
      let borrow = if is_less (u.compare a.low b.low) then u.one else u.zero in
      record { high = u.sub (u.sub a.high b.high) borrow; low = u.sub a.low b.low }

  -- The structural comparison of the records, and the comparison that the module defines at its end:
  -- the high halves first.
  unfoldable pub compare : Halves u → Halves u → Ordering
  compare a b = lexicographic (u.compare a.high b.high) (u.compare a.low b.low)

  unfoldable pub shift_left : Halves u → ℕ → Halves u
  shift_left a shift =
      if not (ltb shift 256)
      then zero_256
      else if shift == 128
      then record { high = a.low; low = u.zero }
      else if shift == 0
      then a
      else if ltb shift 128
      then record {
        high = u.add (u.shift_left a.high shift) (u.shift_right a.low (128 - shift));
        low = u.shift_left a.low shift;
      }
      else record { high = u.shift_left a.low (shift - 128); low = u.zero }

  unfoldable pub shift_right : Halves u → ℕ → Halves u
  shift_right a shift =
      if not (ltb shift 256)
      then zero_256
      else if shift == 128
      then record { high = u.zero; low = a.high }
      else if shift == 0
      then a
      else if ltb shift 128
      then record {
        high = u.shift_right a.high shift;
        low = u.add (u.shift_left a.high (128 - shift)) (u.shift_right a.low shift);
      }
      else record { high = u.zero; low = u.shift_right a.high (shift - 128) }

  unfoldable pub logand : Halves u → Halves u → Halves u
  logand a b = record { high = u.logand a.high b.high; low = u.logand a.low b.low }

  unfoldable pub logor : Halves u → Halves u → Halves u
  logor a b = record { high = u.logor a.high b.high; low = u.logor a.low b.low }

  unfoldable pub logxor : Halves u → Halves u → Halves u
  logxor a b = record { high = u.logxor a.high b.high; low = u.logxor a.low b.low }

  unfoldable pub lognot : Halves u → Halves u
  lognot a = record { high = u.lognot a.high; low = u.lognot a.low }

  -- The rows of partial products of 64 bit limbs, added up.
  unfoldable pub mul : Halves u → Halves u → Halves u
  mul a b =
      let a0 = getlow u a.low in
      let a1 = gethigh u a.low in
      let a2 = getlow u a.high in
      let a3 = gethigh u a.high in
      let b0 = getlow u b.low in
      let b1 = gethigh u b.low in
      let b2 = getlow u b.high in
      let b3 = gethigh u b.high in
      let b0a0 = u.mul b0 a0 in
      let s_b0a1 = u.add (gethigh u b0a0) (u.mul b0 a1) in
      let s_b0a2 = u.add (gethigh u s_b0a1) (u.mul b0 a2) in
      let s_b0a3 = u.add (gethigh u s_b0a2) (u.mul b0 a3) in
      let b1a0 = u.mul b1 a0 in
      let s_b1a1 = u.add (gethigh u b1a0) (u.mul b1 a1) in
      let s_b1a2 = u.add (gethigh u s_b1a1) (u.mul b1 a2) in
      let b2a0 = u.mul b2 a0 in
      let s_b2a1 = u.add (gethigh u b2a0) (u.mul b2 a1) in
      let b3a0 = u.mul b3 a0 in
      let s_r1 = u.add (getlow u s_b0a1) (getlow u b1a0) in
      let s_r2 =
        u.add (u.add (u.add (getlow u s_b0a2) (getlow u s_b1a1)) (getlow u b2a0))
          (gethigh u s_r1) in
      let s_r3 =
        u.add
          (u.add (u.add (u.add (getlow u s_b0a3) (getlow u s_b1a2)) (getlow u s_b2a1))
            (getlow u b3a0))
          (gethigh u s_r2) in
      record {
        high = highlow u (getlow u s_r3) (getlow u s_r2);
        low = highlow u (getlow u s_r1) (getlow u b0a0);
      }

  unfoldable pub setbit : Halves u → ℕ → Halves u
  setbit a i = logor (shift_left one_256 i) a

  unfoldable pub clearbit : Halves u → ℕ → Halves u
  clearbit a i = logand (lognot (setbit zero_256 i)) a

  unfoldable pub isset : Halves u → ℕ → Bool
  isset a i = is_equal (compare (setbit a i) a)

  -- The loop of `divrem` with its index `i - 1`; it ends below 0.
  unfoldable pub divloop : Halves u → Halves u → ℕ → Halves u → Halves u → Halves u × Halves u
  divloop a b zero q r = (q, r)
  divloop a b (suc i) q r =
      let r' = shift_left r 1 in
      let r'' = if isset a i then setbit r' 0 else clearbit r' 0 in
      let enough = not (is_less (compare r'' b)) in
      divloop a b i (if enough then setbit q i else q) (if enough then sub r'' b else r'')

  -- `none` is the exception Division_by_zero.
  unfoldable pub divrem : Halves u → Halves u → Option (Halves u × Halves u)
  divrem a b =
      if is_equal (compare b zero_256)
      then none
      else if is_equal (u.compare a.high u.zero) && is_equal (u.compare b.high u.zero)
      then some (
        record { high = u.zero; low = u.div a.low b.low },
        record { high = u.zero; low = u.rem a.low b.low },
      )
      else some (divloop a b 256 zero_256 zero_256)

  unfoldable pub div : Halves u → Halves u → Option (Halves u)
  div a b = Option.map (λ p. p.0) (divrem a b)

  unfoldable pub rem : Halves u → Halves u → Option (Halves u)
  rem a b = Option.map (λ p. p.1) (divrem a b)
