-- ===== src/SafeArith/Runs.antt =====
-- Runs of the checked arithmetic at concrete numbers of 256 bits, over the words of `Integer256.Toy`.
use scilla.Base.{ℕ, ◌≡◌, ◌^◌, ◌-◌}
use scilla.Integer256.{Halves}
use scilla.Integer256.Toy.{toy, toy_words}
use scilla.Integer256.Uint256.{max_int}
use scilla.SafeArith.{IntRep, returned, raised, int_overflow, int_underflow, map}
use scilla.SafeArith.Unsigned.{IsUnsigned}
use scilla.SafeArith.Signed.{IsSigned}
use scilla.SafeArith.Integers.{pos, negsuc}
use scilla.SafeArith.SafeUint
use scilla.SafeArith.SafeUint.Exact.{mul_exact, pow_exact}
use scilla.SafeArith.SafeInt
use scilla.SafeArith.SafeInt.Sums.{int, add_exact_int}
use scilla.SafeArith.SafeInt.Products.{mul_exact_int}
use scilla.SafeArith.SafeInt.Divisions.{div_exact_int}
use scilla.SafeArith.Uint256.{uint256_rep, uint256_numbers, uint256_rep-IsUnsigned}
use scilla.SafeArith.Int256.{int256_rep, int256_numbers, int256_rep-IsSigned}

abbrev uint256 : IntRep
uint256 = uint256_rep toy

abbrev int256 : IntRep
int256 = int256_rep toy

abbrev unsigned : IsUnsigned uint256 256
unsigned = uint256_numbers toy toy_words

abbrev twos_complement : IsSigned int256 255
twos_complement = int256_numbers toy toy_words

abbrev small : ℕ → Halves toy
small n = record { high = 0; low = n }

-- 2 ^ 255 - 1 and - 7, in two's complement.
abbrev highest : Halves toy
highest = record { high = 2 ^ 127 - 1; low = 2 ^ 128 - 1 }

abbrev minus_seven : Halves toy
minus_seven = record { high = 2 ^ 128 - 1; low = 2 ^ 128 - 7 }

uint256_rep-IsUnsigned_example : IsUnsigned uint256 256
uint256_rep-IsUnsigned_example = uint256_rep-IsUnsigned toy toy_words

int256_rep-IsSigned_example : IsSigned int256 255
int256_rep-IsSigned_example = int256_rep-IsSigned toy toy_words

mul_exact_example :
    map unsigned.value (SafeUint.mul uint256 (max_int toy) (small 2)) ≡ raised int_overflow
mul_exact_example = mul_exact unsigned (max_int toy) (small 2)

pow_exact_example : map unsigned.value (SafeUint.pow uint256 (small 2) 200) ≡ returned (2 ^ 200)
pow_exact_example = pow_exact unsigned (small 2) 200

add_exact_int_example :
    map (int twos_complement) (SafeInt.add int256 highest minus_seven)
    ≡ returned (pos (2 ^ 255 - 8))
add_exact_int_example = add_exact_int twos_complement highest minus_seven

mul_exact_int_example :
    map (int twos_complement) (SafeInt.mul int256 highest minus_seven) ≡ raised int_underflow
mul_exact_int_example = mul_exact_int twos_complement highest minus_seven

div_exact_int_example :
    map (int twos_complement) (SafeInt.div int256 minus_seven (small 2)) ≡ returned (negsuc 2)
div_exact_int_example = div_exact_int twos_complement minus_seven (small 2)
