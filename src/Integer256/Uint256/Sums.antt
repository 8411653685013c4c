-- ===== src/Integer256/Uint256/Sums.antt =====
-- Addition, subtraction and comparison of two halves are those of the numbers.
use Prim.Native.Nat.{Ordering}
use Prim.Native.Nat
use scilla.Base.{
  ℕ, ◌+◌, ◌-◌, ◌*◌, ◌%◌, ◌^◌, ◌<◌, ◌≡◌, Bool, true, false, ◌||◌, arith, ltb, is_less, if◌then◌else◌,
}
use scilla.Integer256.{Uint128, Halves}
use scilla.Integer256.Documented.{IsUint128, whole}
use scilla.Integer256.Uint256.{add, sub, compare, lexicographic, zero_256, one_256}

-- The test that the sum of two words has wrapped around.
carried :
    (x y z : ℕ)
    → x < 2 ^ 128
    → y < 2 ^ 128
    → z ≡ (x + y) % 2 ^ 128
    → (is_less (Nat.compare z x) || is_less (Nat.compare z y)) ≡ ltb (2 ^ 128 - 1) (x + y)
carried x y z hx hy e = ground arith

-- The sums of the halves, with the carry between them.
add_halves :
    (ah al bh bl : ℕ)
    → ah < 2 ^ 128
    → al < 2 ^ 128
    → bh < 2 ^ 128
    → bl < 2 ^ 128
    → ((ah + bh) % 2 ^ 128 + (if ltb (2 ^ 128 - 1) (al + bl) then 1 else 0)) % 2 ^ 128 * 2 ^ 128
        + (al + bl) % 2 ^ 128
      ≡ (ah * 2 ^ 128 + al + (bh * 2 ^ 128 + bl)) % 2 ^ 256
add_halves ah al bh bl h1 h2 h3 h4 = ground arith

sub_halves :
    (ah al bh bl : ℕ)
    → ah < 2 ^ 128
    → al < 2 ^ 128
    → bh < 2 ^ 128
    → bl < 2 ^ 128
    → ((ah + 2 ^ 128 - bh) % 2 ^ 128 + 2 ^ 128 - (if ltb al bl then 1 else 0)) % 2 ^ 128 * 2 ^ 128
        + (al + 2 ^ 128 - bl) % 2 ^ 128
      ≡ (ah * 2 ^ 128 + al + 2 ^ 256 - (bh * 2 ^ 128 + bl)) % 2 ^ 256
sub_halves ah al bh bl h1 h2 h3 h4 = ground arith

compare_halves :
    (ah al bh bl : ℕ)
    → ah < 2 ^ 128
    → al < 2 ^ 128
    → bh < 2 ^ 128
    → bl < 2 ^ 128
    → lexicographic (Nat.compare ah bh) (Nat.compare al bl)
      ≡ Nat.compare (ah * 2 ^ 128 + al) (bh * 2 ^ 128 + bl)
compare_halves ah al bh bl h1 h2 h3 h4 = ground arith

is_less-compare : (x y : ℕ) → is_less (Nat.compare x y) ≡ ltb x y
is_less-compare x y = ground arith

module _ {u : Uint128} (h : IsUint128 u) where
  open h use {value, value-lt, value-add, value-sub, value-zero, value-one, compare-value}

  value-flag : (t : Bool) → value (if t then u.one else u.zero) ≡ (if t then 1 else 0)
  value-flag true = value-one
  value-flag false = value-zero

  pub whole-zero_256 : whole h (zero_256 u) ≡ 0
  whole-zero_256 = omega (arith, value-zero)

  pub whole-one_256 : whole h (one_256 u) ≡ 1
  whole-one_256 = omega (arith, value-zero, value-one)

  -- `add` is addition modulo 2 ^ 256.
  pub add-whole : (a b : Halves u) → whole h (add u a b) ≡ (whole h a + whole h b) % 2 ^ 256
  unfolding add
  add-whole a b =
      let low = u.add a.low b.low in
      let wrapped : (is_less (u.compare low a.low) || is_less (u.compare low b.low))
          ≡ ltb (2 ^ 128 - 1) (value a.low + value b.low) =
        rw (compare-value low a.low, compare-value low b.low)
          (carried (value a.low) (value b.low) (value low) (value-lt a.low) (value-lt b.low)
            (value-add a.low b.low)) in
      rw
        (
          wrapped,
          value-add (u.add a.high b.high),
          value-add a.high b.high,
          value-add a.low b.low,
          value-flag,
        )
        (add_halves (value a.high) (value a.low) (value b.high) (value b.low) (value-lt a.high)
          (value-lt a.low) (value-lt b.high) (value-lt b.low))

  -- `sub` is subtraction modulo 2 ^ 256.
  pub sub-whole :
      (a b : Halves u) → whole h (sub u a b) ≡ (whole h a + 2 ^ 256 - whole h b) % 2 ^ 256
  unfolding sub
  sub-whole a b =
      rw
        (
          compare-value a.low b.low,
          is_less-compare (value a.low) (value b.low),
          value-sub (u.sub a.high b.high),
          value-sub a.high b.high,
          value-sub a.low b.low,
          value-flag,
        )
        (sub_halves (value a.high) (value a.low) (value b.high) (value b.low) (value-lt a.high)
          (value-lt a.low) (value-lt b.high) (value-lt b.low))

  -- `compare` compares the numbers.
  pub compare-whole : (a b : Halves u) → compare u a b ≡ Nat.compare (whole h a) (whole h b)
  unfolding compare
  compare-whole a b =
      rw (compare-value a.high b.high, compare-value a.low b.low)
        (compare_halves (value a.high) (value a.low) (value b.high) (value b.low) (value-lt a.high)
          (value-lt a.low) (value-lt b.high) (value-lt b.low))
