-- ===== src/Integer256/Uint256/Products.antt =====
-- Multiplication of two halves is that of the numbers.
use mathlib.Core.Path.{ap₂}
use native.Mathlib.Nat.{mod-eq_of_lt, mul-le-mul, add-mul-mod_self_left}
use scilla.Base.{ℕ, ◌+◌, ◌-◌, ◌*◌, ◌/◌, ◌%◌, ◌^◌, ◌≤◌, ◌<◌, ◌≡◌, sym, ap, ◌∙◌, arith}
use scilla.Integer256.{Uint128, Halves, getlow, gethigh, highlow}
use scilla.Integer256.Documented.{IsUint128, whole, value-getlow, value-gethigh, value-highlow}
use scilla.Integer256.Uint256.{mul}

limb_product : (x y : ℕ) → x < 2 ^ 64 → y < 2 ^ 64 → x * y ≤ (2 ^ 64 - 1) * (2 ^ 64 - 1)
limb_product x y hx hy =
    mul-le-mul {n₁ = x} {m₁ = y} {n₂ = 2 ^ 64 - 1} {m₂ = 2 ^ 64 - 1} (omega arith) (omega arith)

-- The value of four limbs.
abbrev limbs : ℕ → ℕ → ℕ → ℕ → ℕ
limbs a3 a2 a1 a0 = (a3 * 2 ^ 64 + a2) * 2 ^ 128 + (a1 * 2 ^ 64 + a0)

-- The columns of the partial products, added up, are the product but for a multiple of 2 ^ 256.
columns :
    (a0 a1 a2 a3 b0 b1 b2 b3 p00 s01 s02 s03 p10 s11 s12 p20 s21 p30 s1 s2 s3 : ℕ)
    → p00 ≡ b0 * a0
    → s01 ≡ p00 / 2 ^ 64 + b0 * a1
    → s02 ≡ s01 / 2 ^ 64 + b0 * a2
    → s03 ≡ s02 / 2 ^ 64 + b0 * a3
    → p10 ≡ b1 * a0
    → s11 ≡ p10 / 2 ^ 64 + b1 * a1
    → s12 ≡ s11 / 2 ^ 64 + b1 * a2
    → p20 ≡ b2 * a0
    → s21 ≡ p20 / 2 ^ 64 + b2 * a1
    → p30 ≡ b3 * a0
    → s1 ≡ s01 % 2 ^ 64 + p10 % 2 ^ 64
    → s2 ≡ s02 % 2 ^ 64 + s11 % 2 ^ 64 + p20 % 2 ^ 64 + s1 / 2 ^ 64
    → s3 ≡ s03 % 2 ^ 64 + s12 % 2 ^ 64 + s21 % 2 ^ 64 + p30 % 2 ^ 64 + s2 / 2 ^ 64
    → limbs (s3 % 2 ^ 64) (s2 % 2 ^ 64) (s1 % 2 ^ 64) (p00 % 2 ^ 64)
      ≡ limbs a3 a2 a1 a0 * limbs b3 b2 b1 b0 % 2 ^ 256
columns a0 a1 a2 a3 b0 b1 b2 b3 p00 s01 s02 s03 p10 s11 s12 p20 s21 p30 s1 s2 s3 e00 e01 e02 e03 e10
      e11 e12 e20 e21 e30 f1 f2 f3 =
    let r = limbs (s3 % 2 ^ 64) (s2 % 2 ^ 64) (s1 % 2 ^ 64) (p00 % 2 ^ 64) in
    let more =
      s3 / 2 ^ 64
      + s03 / 2 ^ 64
      + s12 / 2 ^ 64
      + s21 / 2 ^ 64
      + p30 / 2 ^ 64
      + (b1 * a3 + b2 * a2 + b3 * a1)
      + 2 ^ 64 * (b2 * a3 + b3 * a2)
      + 2 ^ 128 * (b3 * a3) in
    let product : r + 2 ^ 256 * more ≡ limbs a3 a2 a1 a0 * limbs b3 b2 b1 b0 = omega arith in
    let small : r < 2 ^ 256 = omega arith in
    sym (
      ap (λ t. t % 2 ^ 256) (sym product)
      ∙ add-mul-mod_self_left r (2 ^ 256) more
      ∙ mod-eq_of_lt small)

module _ {u : Uint128} (h : IsUint128 u) where
  open u use {Word}
  open h use {value, value-lt, value-add, value-mul}

  value-getlow_lt : (x : Word) → value (getlow u x) < 2 ^ 64
  value-getlow_lt x = omega (arith, value-getlow h x)

  value-gethigh_lt : (x : Word) → value (gethigh u x) < 2 ^ 64
  value-gethigh_lt x = omega (arith, value-gethigh h x, value-lt x)

  -- The product of two limbs does not overflow.
  first_product :
      (x y : Word) → value x < 2 ^ 64 → value y < 2 ^ 64 → value (u.mul x y) ≡ value x * value y
  first_product x y hx hy =
      value-mul x y ∙ mod-eq_of_lt (omega (arith, limb_product (value x) (value y) hx hy))

  -- Neither does the sum with the carry of the last column.
  next_product :
      (c x y : Word)
      → value x < 2 ^ 64
      → value y < 2 ^ 64
      → value (u.add (gethigh u c) (u.mul x y)) ≡ value c / 2 ^ 64 + value x * value y
  next_product c x y hx hy = omega (
    arith,
    value-add (gethigh u c) (u.mul x y),
    first_product x y hx hy,
    value-gethigh h c,
    value-lt c,
    limb_product (value x) (value y) hx hy,
  )

  -- A sum of columns does not overflow.
  sum_two :
      (x y : Word) → value (u.add (getlow u x) (getlow u y)) ≡ value x % 2 ^ 64 + value y % 2 ^ 64
  sum_two x y =
      omega (arith, value-add (getlow u x) (getlow u y), value-getlow h x, value-getlow h y)

  sum_next :
      (s x : Word) → value s ≤ 2 ^ 68 → value (u.add s (getlow u x)) ≡ value s + value x % 2 ^ 64
  sum_next s x small = omega (arith, value-add s (getlow u x), value-getlow h x)

  sum_carry :
      (s c : Word) → value s ≤ 2 ^ 68 → value (u.add s (gethigh u c)) ≡ value s + value c / 2 ^ 64
  sum_carry s c small = omega (arith, value-add s (gethigh u c), value-gethigh h c, value-lt c)

  whole-limbs :
      (x : Halves u)
      → limbs
          (value (gethigh u x.high))
          (value (getlow u x.high))
          (value (gethigh u x.low))
          (value (getlow u x.low))
        ≡ whole h x
  whole-limbs x = omega (
    arith,
    value-gethigh h x.high,
    value-getlow h x.high,
    value-gethigh h x.low,
    value-getlow h x.low,
  )

  joined_limbs :
      (r3 r2 r1 r0 : Word)
      → value (highlow u (getlow u r3) (getlow u r2)) * 2 ^ 128
          + value (highlow u (getlow u r1) (getlow u r0))
        ≡ limbs (value r3 % 2 ^ 64) (value r2 % 2 ^ 64) (value r1 % 2 ^ 64) (value r0 % 2 ^ 64)
  joined_limbs r3 r2 r1 r0 = omega (
    arith,
    value-highlow h (getlow u r3) (getlow u r2) (value-getlow_lt r3),
    value-highlow h (getlow u r1) (getlow u r0) (value-getlow_lt r1),
    value-getlow h r3,
    value-getlow h r2,
    value-getlow h r1,
    value-getlow h r0,
  )

  -- `mul` is multiplication modulo 2 ^ 256. The words of 128 bits behave as stdint documents.
  pub mul-whole : (a b : Halves u) → whole h (mul u a b) ≡ whole h a * whole h b % 2 ^ 256
  unfolding mul
  mul-whole a b =
      let a0 = getlow u a.low in
      let a1 = gethigh u a.low in
      let a2 = getlow u a.high in
      let a3 = gethigh u a.high in
      let b0 = getlow u b.low in
      let b1 = gethigh u b.low in
      let b2 = getlow u b.high in
      let b3 = gethigh u b.high in
      let la0 = value-getlow_lt a.low in
      let la1 = value-gethigh_lt a.low in
      let la2 = value-getlow_lt a.high in
      let la3 = value-gethigh_lt a.high in
      let lb0 = value-getlow_lt b.low in
      let lb1 = value-gethigh_lt b.low in
      let lb2 = value-getlow_lt b.high in
      let p00 = u.mul b0 a0 in
      let s01 = u.add (gethigh u p00) (u.mul b0 a1) in
      let s02 = u.add (gethigh u s01) (u.mul b0 a2) in
      let s03 = u.add (gethigh u s02) (u.mul b0 a3) in
      let p10 = u.mul b1 a0 in
      let s11 = u.add (gethigh u p10) (u.mul b1 a1) in
      let s12 = u.add (gethigh u s11) (u.mul b1 a2) in
      let p20 = u.mul b2 a0 in
      let s21 = u.add (gethigh u p20) (u.mul b2 a1) in
      let p30 = u.mul b3 a0 in
      let s1 = u.add (getlow u s01) (getlow u p10) in
      let t2 = u.add (getlow u s02) (getlow u s11) in
      let t2' = u.add t2 (getlow u p20) in
      let s2 = u.add t2' (gethigh u s1) in
      let t3 = u.add (getlow u s03) (getlow u s12) in
      let t3' = u.add t3 (getlow u s21) in
      let t3'' = u.add t3' (getlow u p30) in
      let s3 = u.add t3'' (gethigh u s2) in
      let e2 = sum_two s02 s11 in
      let e2' = sum_next t2 p20 (omega arith) in
      let e2'' = sum_carry t2' s1 (omega arith) in
      let e3 = sum_two s03 s12 in
      let e3' = sum_next t3 s21 (omega arith) in
      let e3'' = sum_next t3' p30 (omega arith) in
      let e3''' = sum_carry t3'' s2 (omega arith) in
      joined_limbs s3 s2 s1 p00
      ∙ columns (value a0) (value a1) (value a2) (value a3) (value b0) (value b1) (value b2)
          (value b3) (value p00) (value s01) (value s02) (value s03) (value p10) (value s11)
          (value s12) (value p20) (value s21) (value p30) (value s1) (value s2) (value s3)
          (first_product b0 a0 lb0 la0) (next_product p00 b0 a1 lb0 la1)
          (next_product s01 b0 a2 lb0 la2) (next_product s02 b0 a3 lb0 la3)
          (first_product b1 a0 lb1 la0) (next_product p10 b1 a1 lb1 la1)
          (next_product s11 b1 a2 lb1 la2) (first_product b2 a0 lb2 la0)
          (next_product p20 b2 a1 lb2 la1) (first_product b3 a0 (value-gethigh_lt b.high) la0)
          (sum_two s01 p10) (omega arith) (omega arith)
      ∙ ap₂ (λ x y. x * y % 2 ^ 256) (whole-limbs a) (whole-limbs b)
