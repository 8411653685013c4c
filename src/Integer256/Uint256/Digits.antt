-- ===== src/Integer256/Uint256/Digits.antt =====
-- The bit operations of two halves, and single bits.
use Prim.Native.Nat.{bit_and, bit_or, bit_xor, bit_and-bitwise}
use mathlib.Core.Path.{ap₂}
use native.Mathlib.Nat.{pow-le-pow_right, pow-suc}
use scilla.Base.{
  ℕ, suc, ◌+◌, ◌-◌, ◌*◌, ◌/◌, ◌%◌, ◌^◌, ◌≤◌, ◌<◌, ◌≡◌, sym, ap, ◌∙◌, Bool, not, arith, ◌==◌,
  if◌then◌else◌,
}
use scilla.Base.Bits.{bit_and_parts, bit_or_parts, bit_xor_parts, bit_or_pow, bit_and_mask}
use scilla.Integer256.{Uint128, Halves}
use scilla.Integer256.Documented.{IsUint128, whole, whole-lt}
use scilla.Integer256.Uint256.{
  shift_left, logand, logor, logxor, lognot, setbit, clearbit, isset, zero_256, one_256,
}
use scilla.Integer256.Uint256.Sums.{compare-whole, whole-zero_256, whole-one_256}
use scilla.Integer256.Uint256.Shifts.{shift_left-whole, pow_pos}

-- Digit `i` of a number is 1.
abbrev pub digit : ℕ → ℕ → Bool
digit n i = not (n / 2 ^ i % 2 == 0)

module _ {u : Uint128} (h : IsUint128 u) where
  open h use {
    value, value-lt, value-zero, value-one, value-logand, value-logor, value-logxor, value-lognot,
  }

  -- `logand`, `logor`, `logxor` and `lognot` work on all 256 digits.
  pub logand-whole : (a b : Halves u) → whole h (logand u a b) ≡ bit_and (whole h a) (whole h b)
  unfolding logand
  logand-whole a b =
      rw (value-logand a.high b.high, value-logand a.low b.low)
        (sym (
          bit_and_parts 128 (value a.high) (value a.low) (value b.high) (value b.low)
            (value-lt a.low) (value-lt b.low)))

  pub logor-whole : (a b : Halves u) → whole h (logor u a b) ≡ bit_or (whole h a) (whole h b)
  unfolding logor
  logor-whole a b =
      rw (value-logor a.high b.high, value-logor a.low b.low)
        (sym (
          bit_or_parts 128 (value a.high) (value a.low) (value b.high) (value b.low)
            (value-lt a.low) (value-lt b.low)))

  pub logxor-whole : (a b : Halves u) → whole h (logxor u a b) ≡ bit_xor (whole h a) (whole h b)
  unfolding logxor
  logxor-whole a b =
      rw (value-logxor a.high b.high, value-logxor a.low b.low)
        (sym (
          bit_xor_parts 128 (value a.high) (value a.low) (value b.high) (value b.low)
            (value-lt a.low) (value-lt b.low)))

  pub lognot-whole : (a : Halves u) → whole h (lognot u a) ≡ 2 ^ 256 - 1 - whole h a
  unfolding lognot
  lognot-whole a =
      omega (arith, value-lognot a.high, value-lognot a.low, value-lt a.high, value-lt a.low)

  one_shifted : (i : ℕ) → i < 256 → whole h (shift_left u (one_256 u) i) ≡ 2 ^ i
  one_shifted i small =
      let next : 2 ^ suc i ≤ 2 ^ 256 =
        pow-le-pow_right {n = 2} (omega arith) {i = suc i} {j = 256} small in
      shift_left-whole h (one_256 u) i
      ∙ ap (λ t. t * 2 ^ i % 2 ^ 256) (whole-one_256 h)
      ∙ omega (arith, pow_pos i, pow-suc 2 i)

  -- `setbit` adds 2 ^ i unless digit i is 1 already.
  pub setbit-whole :
      (a : Halves u) (i : ℕ)
      → i < 256
      → whole h (setbit u a i) ≡ whole h a + (if digit (whole h a) i then 0 else 2 ^ i)
  unfolding setbit
  setbit-whole a i small =
      logor-whole (shift_left u (one_256 u) i) a
      ∙ ap (λ t. bit_or t (whole h a)) (one_shifted i small)
      ∙ bit_or_pow i (whole h a)
      ∙ ground arith

  -- `isset` tells digit i.
  pub isset-digit : (a : Halves u) (i : ℕ) → i < 256 → isset u a i ≡ digit (whole h a) i
  unfolding isset
  isset-digit a i small =
      let power : 0 < 2 ^ i = pow_pos i in
      rw (compare-whole h (setbit u a i) a, setbit-whole a i small) (ground arith)

  -- `clearbit` at 0 makes a number even.
  pub clearbit-zero : (a : Halves u) → whole h (clearbit u a 0) ≡ whole h a / 2 * 2
  unfolding clearbit
  clearbit-zero a =
      let n = whole h a in
      let small = whole-lt h a in
      let bit = setbit u (zero_256 u) 0 in
      let one : whole h bit ≡ 1 =
        setbit-whole (zero_256 u) 0 (omega arith)
        ∙ ap (λ t. t + (if digit t 0 then 0 else 2 ^ 0)) (whole-zero_256 h) in
      let mask : whole h (lognot u bit) ≡ (2 ^ 255 - 1) * 2 ^ 1 + 0 =
        lognot-whole bit ∙ omega (arith, one) in
      let parts : n ≡ n / 2 * 2 ^ 1 + n % 2 = omega arith in
      logand-whole (lognot u bit) a
      ∙ ap₂ bit_and mask parts
      ∙ bit_and_parts 1 (2 ^ 255 - 1) 0 (n / 2) (n % 2) (omega arith) (omega arith)
      ∙ omega (arith, bit_and_mask 255 (n / 2), bit_and-bitwise 0 (n % 2))
