-- ===== src/Integer256/Documented.antt =====
-- What Integer256.ml relies on of the package stdint: a word stands for a number below 2 ^ 128, and the
-- operations are those of the numbers modulo 2 ^ 128.
use Prim.Native.Nat.{compare, bit_and, bit_or, bit_xor}
use scilla.Base.{ℕ, [], ◌∷◌, ◌+◌, ◌-◌, ◌*◌, ◌/◌, ◌%◌, ◌^◌, ◌<◌, ◌≡◌, arith}
use scilla.Integer256.{Uint128, Halves, getlow, gethigh, highlow}

pub record IsUint128 (u : Uint128) : Type 0 where
  pub value : u.Word → ℕ
  pub value-lt : (a : u.Word) → value a < 2 ^ 128
  pub value-zero : value u.zero ≡ 0
  pub value-one : value u.one ≡ 1
  pub value-max_int : value u.max_int ≡ 2 ^ 128 - 1
  pub value-add : (a b : u.Word) → value (u.add a b) ≡ (value a + value b) % 2 ^ 128
  pub value-sub : (a b : u.Word) → value (u.sub a b) ≡ (value a + 2 ^ 128 - value b) % 2 ^ 128
  pub value-mul : (a b : u.Word) → value (u.mul a b) ≡ value a * value b % 2 ^ 128
  pub value-div : (a b : u.Word) → 0 < value b → value (u.div a b) ≡ value a / value b
  pub value-rem : (a b : u.Word) → 0 < value b → value (u.rem a b) ≡ value a % value b
  pub value-shift_left :
      (a : u.Word) (s : ℕ) → s < 128 → value (u.shift_left a s) ≡ value a * 2 ^ s % 2 ^ 128
  pub value-shift_right :
      (a : u.Word) (s : ℕ) → s < 128 → value (u.shift_right a s) ≡ value a / 2 ^ s
  pub value-logand : (a b : u.Word) → value (u.logand a b) ≡ bit_and (value a) (value b)
  pub value-logor : (a b : u.Word) → value (u.logor a b) ≡ bit_or (value a) (value b)
  pub value-logxor : (a b : u.Word) → value (u.logxor a b) ≡ bit_xor (value a) (value b)
  pub value-lognot : (a : u.Word) → value (u.lognot a) ≡ 2 ^ 128 - 1 - value a
  pub compare-value : (a b : u.Word) → u.compare a b ≡ compare (value a) (value b)
  pub value-of_string : (d : ℕ) → d < 10 → value (u.of_string ((48 + d) ∷ [])) ≡ d
  pub value-of_string_ten : value (u.of_string (49 ∷ 48 ∷ [])) ≡ 10
  pub to_int-value : (a : u.Word) → value a < 2 ^ 62 → u.to_int a ≡ value a

module _ {u : Uint128} (h : IsUint128 u) where
  open u use {Word}
  open h use {value, value-lt, value-add, value-shift_left, value-shift_right}

  -- The number of two halves.
  abbrev pub whole : Halves u → ℕ
  whole x = value x.high * 2 ^ 128 + value x.low

  pub whole-lt : (x : Halves u) → whole x < 2 ^ 256
  whole-lt x = omega (arith, value-lt x.high, value-lt x.low)

  pub value-gethigh : (x : Word) → value (gethigh u x) ≡ value x / 2 ^ 64
  unfolding gethigh
  value-gethigh x = value-shift_right x 64 (omega arith)

  pub value-getlow : (x : Word) → value (getlow u x) ≡ value x % 2 ^ 64
  unfolding getlow
  value-getlow x = omega (
    arith,
    value-shift_right (u.shift_left x 64) 64 (omega arith),
    value-shift_left x 64 (omega arith),
  )

  pub value-highlow :
      (a b : Word) → value a < 2 ^ 64 → value (highlow u a b) ≡ value a * 2 ^ 64 + value b % 2 ^ 64
  unfolding highlow
  value-highlow a b small = omega (
    arith,
    value-add (u.shift_left a 64) (getlow u b),
    value-shift_left a 64 (omega arith),
    value-getlow b,
  )
