-- ===== src/Integer256/Int256/Signs.antt =====
-- The signs of two's complement: `isneg`, `neg` and `compare`.
use native.Mathlib.Decide.{dec_lt}
use scilla.Base.{◌-◌, ◌%◌, ◌^◌, ◌≡◌, refl, ◌∙◌, not, lt→ltb, le→ltb, ltb, arith}
use scilla.Integer256.{Uint128, Halves}
use scilla.Integer256.Documented.{IsUint128, whole, whole-lt}
use scilla.Integer256.Uint256
use scilla.Integer256.Uint256.{zero_256, one_256}
use scilla.Integer256.Uint256.Sums.{add-whole, compare-whole, whole-zero_256, whole-one_256}
use scilla.Integer256.Uint256.Digits.{lognot-whole, setbit-whole, isset-digit}
use scilla.Integer256.Int256.{min_int, isneg, neg, compare, abs}
use scilla.SafeArith.Integers.{to_int, magnitude, compare_int}

module _ {u : Uint128} (h : IsUint128 u) where
  pub isneg-whole : (a : Halves u) → isneg u a ≡ not (ltb (whole h a) (2 ^ 255))
  unfolding isneg
  isneg-whole a = let small = whole-lt h a in isset-digit h a 255 (omega arith) ∙ ground arith

  -- `neg` is negation modulo 2 ^ 256.
  pub neg-whole : (a : Halves u) → whole h (neg u a) ≡ (2 ^ 256 - whole h a) % 2 ^ 256
  unfolding neg
  neg-whole a =
      add-whole h (Uint256.lognot u a) (one_256 u)
      ∙ omega (arith, lognot-whole h a, whole-one_256 h, whole-lt h a)

  pub min_int-whole : whole h (min_int u) ≡ 2 ^ 255
  unfolding min_int
  min_int-whole = setbit-whole h (zero_256 u) 255 (omega arith) ∙ rw (whole-zero_256 h) refl

  -- `compare` compares the integers.
  pub compare_int256-whole :
      (a b : Halves u)
      → compare u a b ≡ compare_int (to_int 255 (whole h a)) (to_int 255 (whole h b))
  unfolding compare
  compare_int256-whole a b =
      let la = whole-lt h a in
      let lb = whole-lt h b in rw (isneg-whole a, isneg-whole b, compare-whole h a b) (ground arith)

  -- `abs` answers the magnitude, 2 ^ 255 for the lowest integer.
  pub abs-whole : (a : Halves u) → whole h (abs u a) ≡ magnitude (to_int 255 (whole h a))
  unfolding abs
  abs-whole a =
      let la = whole-lt h a in
      rw (isneg-whole a) (elim (dec_lt (whole h a) (2 ^ 255)) [
        | yes below ↦ rw (lt→ltb (whole h a) (2 ^ 255) below) refl
        | no above ↦ rw (le→ltb (whole h a) (2 ^ 255) (omega arith)) (neg-whole a ∙ omega arith)
      ])
