-- ===== src/SafeArith/Int256.antt =====
-- src/lang/base/Integer256.ml as the argument of SafeInt: the module Int256.
use scilla.Integer256.{Uint128, Halves}
use scilla.Integer256.Documented.{IsUint128, whole, whole-lt}
use scilla.Integer256.Uint256
use scilla.Integer256.Uint256.{zero_256, one_256}
use scilla.Integer256.Uint256.Sums.{add-whole, sub-whole, whole-zero_256, whole-one_256}
use scilla.Integer256.Uint256.Products.{mul-whole}
use scilla.Integer256.Int256.{compare, div, rem, min_int}
use scilla.Integer256.Int256.Signs.{compare_int256-whole, min_int-whole}
use scilla.Integer256.Int256.Division.{div_int256-whole, rem_int256-whole}
use scilla.SafeArith.{IntRep}
use scilla.SafeArith.Signed.{IsSigned}

abbrev pub int256_rep : Uint128 → IntRep
int256_rep u = record {
  T = Halves u;
  compare = compare u;
  add = Uint256.add u;
  sub = Uint256.sub u;
  mul = Uint256.mul u;
  div = div u;
  rem = rem u;
  zero = zero_256 u;
  one = one_256 u;
  min_int = min_int u;
}

abbrev pub int256_numbers : (u : Uint128) → IsUint128 u → IsSigned (int256_rep u) 255
int256_numbers u h = record {
  value = whole h;
  value-lt = whole-lt h;
  value-zero = whole-zero_256 h;
  value-one = whole-one_256 h;
  value-min_int = min_int-whole h;
  value-add = add-whole h;
  value-sub = sub-whole h;
  value-mul = mul-whole h;
  value-div = div_int256-whole h;
  value-rem = rem_int256-whole h;
  compare-value = compare_int256-whole h;
}

-- Two halves of 128 bits implement two's complement of 256 bits: sums, differences and products modulo
-- 2 ^ 256, the comparison of the integers, and their quotient rounded to 0 with its remainder, with the
-- exception for the divisor 0. The words of 128 bits behave as stdint documents.
pub int256_rep-IsSigned : (u : Uint128) → IsUint128 u → IsSigned (int256_rep u) 255
int256_rep-IsSigned = int256_numbers
