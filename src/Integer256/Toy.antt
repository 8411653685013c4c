-- ===== src/Integer256/Toy.antt =====
-- Words that meet the documented behaviour of stdint: numbers, read modulo 2 ^ 128.
pub mod Octets
use Prim.Native.Nat
use Prim.Native.Nat.{bit_and, bit_or, bit_xor}
use native.Mathlib.Nat.{mod-mod, mod-eq_of_lt, div-le_self, mod-le}
use scilla.Base.{List, [], ◌∷◌, ℕ, ◌+◌, ◌-◌, ◌*◌, ◌/◌, ◌%◌, ◌^◌, ◌<◌, ◌≡◌, refl, arith}
use scilla.Base.Bits.{bit_and_lt, bit_or_lt, bit_xor_lt}
use scilla.Integer256.{Uint128}
use scilla.Integer256.Documented.{IsUint128}

abbrev pub wrap : ℕ → ℕ
wrap n = n % 2 ^ 128

-- A decimal number from its characters.
abbrev pub read_decimal : ℕ → List ℕ → ℕ
read_decimal n [] = n
read_decimal n (c ∷ cs) = read_decimal (n * 10 + (c - 48)) cs

pub read_digit : (d : ℕ) → d < 10 → wrap (read_decimal 0 ((48 + d) ∷ [])) ≡ d
read_digit d h = omega arith

abbrev pub toy : Uint128
toy = record {
  Word = ℕ;
  zero = 0;
  one = 1;
  max_int = 2 ^ 128 - 1;
  add = λ a b. wrap (wrap a + wrap b);
  sub = λ a b. wrap (wrap a + 2 ^ 128 - wrap b);
  mul = λ a b. wrap (wrap a * wrap b);
  div = λ a b. wrap a / wrap b;
  rem = λ a b. wrap a % wrap b;
  shift_left = λ a s. wrap (wrap a * 2 ^ s);
  shift_right = λ a s. wrap a / 2 ^ s;
  logand = λ a b. bit_and (wrap a) (wrap b);
  logor = λ a b. bit_or (wrap a) (wrap b);
  logxor = λ a b. bit_xor (wrap a) (wrap b);
  lognot = λ a. 2 ^ 128 - 1 - wrap a;
  compare = λ a b. Nat.compare (wrap a) (wrap b);
  of_string = read_decimal 0;
  to_int = wrap;
}

pub wrap_lt : (n : ℕ) → wrap n < 2 ^ 128
wrap_lt n = omega arith

pub small_div : (n d : ℕ) → wrap (wrap n / d) ≡ wrap n / d
small_div n d = mod-eq_of_lt (omega (arith, div-le_self (wrap n) d))

abbrev pub toy_words : IsUint128 toy
toy_words = record {
  value = wrap;
  value-lt = wrap_lt;
  value-zero = refl;
  value-one = refl;
  value-max_int = refl;
  value-add = λ a b. mod-mod (wrap a + wrap b) (2 ^ 128);
  value-sub = λ a b. mod-mod (wrap a + 2 ^ 128 - wrap b) (2 ^ 128);
  value-mul = λ a b. mod-mod (wrap a * wrap b) (2 ^ 128);
  value-div = λ a b h. small_div a (wrap b);
  value-rem = λ a b h. mod-eq_of_lt (omega (arith, mod-le (wrap a) (wrap b)));
  value-shift_left = λ a s h. mod-mod (wrap a * 2 ^ s) (2 ^ 128);
  value-shift_right = λ a s h. small_div a (2 ^ s);
  value-logand = λ a b. mod-eq_of_lt (bit_and_lt 128 (wrap a) (wrap b) (wrap_lt a) (wrap_lt b));
  value-logor = λ a b. mod-eq_of_lt (bit_or_lt 128 (wrap a) (wrap b) (wrap_lt a) (wrap_lt b));
  value-logxor = λ a b. mod-eq_of_lt (bit_xor_lt 128 (wrap a) (wrap b) (wrap_lt a) (wrap_lt b));
  value-lognot = λ a. omega arith;
  compare-value = λ a b. refl;
  value-of_string = λ d h. read_digit d h;
  value-of_string_ten = refl;
  to_int-value = λ a h. refl;
}
