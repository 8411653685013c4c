-- ===== src/SafeArith/Uint256.antt =====
-- src/lang/base/Integer256.ml as the argument of SafeUint: the module Uint256.
use scilla.Integer256.{Uint128, Halves}
use scilla.Integer256.Documented.{IsUint128, whole, whole-lt}
use scilla.Integer256.Uint256.{add, sub, mul, div, rem, compare, zero_256, one_256}
use scilla.Integer256.Uint256.Sums.{
  add-whole, sub-whole, compare-whole, whole-zero_256, whole-one_256,
}
use scilla.Integer256.Uint256.Products.{mul-whole}
use scilla.Integer256.Uint256.Division.{div-whole, rem-whole}
use scilla.SafeArith.{IntRep}
use scilla.SafeArith.Unsigned.{IsUnsigned}

abbrev pub uint256_rep : Uint128 → IntRep
uint256_rep u = record {
  T = Halves u;
  compare = compare u;
  add = add u;
  sub = sub u;
  mul = mul u;
  div = div u;
  rem = rem u;
  zero = zero_256 u;
  one = one_256 u;
  min_int = zero_256 u;
}

abbrev pub uint256_numbers : (u : Uint128) → IsUint128 u → IsUnsigned (uint256_rep u) 256
uint256_numbers u h = record {
  value = whole h;
  value-lt = whole-lt h;
  value-zero = whole-zero_256 h;
  value-one = whole-one_256 h;
  value-add = add-whole h;
  value-sub = sub-whole h;
  value-mul = mul-whole h;
  value-div = div-whole h;
  value-rem = rem-whole h;
  compare-value = compare-whole h;
}

-- Two halves of 128 bits implement the numbers below 2 ^ 256: sums, differences and products modulo
-- 2 ^ 256, the comparison, and quotient and remainder with the exception for the divisor 0. The words
-- of 128 bits behave as stdint documents.
pub uint256_rep-IsUnsigned : (u : Uint128) → IsUint128 u → IsUnsigned (uint256_rep u) 256
uint256_rep-IsUnsigned = uint256_numbers
