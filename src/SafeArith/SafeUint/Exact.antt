-- ===== src/SafeArith/SafeUint/Exact.antt =====
-- The checked operations on unsigned integers answer the exact result, or raise an exception just where
-- it does not fit.
use native.Mathlib.Decide.{dec_lt, ℕ_discrete}
use native.Mathlib.Nat.{
  mod-eq_of_lt, mod-eq-sub-mod, mod-lt, mul_comm, mul_assoc, pow-zero, pow-suc, mul-le-mul_left,
  mul-div_cancel, div-lt_iff_lt-mul, one-le-pow,
}
use scilla.Base.{
  ℕ, zero, suc, ◌+◌, ◌-◌, ◌*◌, ◌/◌, ◌%◌, ◌^◌, ◌≤◌, ◌<◌, ◌≡◌, refl, sym, ap, ◌∙◌, false, ltb, lt→ltb,
  le→ltb, ◌==◌, if◌then◌else◌, is_equal, some, arith, map-eq-some, ◌⊎◌, inl, inr, ◌≢◌,
}
use scilla.SafeArith.{
  Checked, returned, raised, int_overflow, int_underflow, map, divided, IntRep, map-eq-returned,
  map-eq-raised, divided-map,
}
use scilla.SafeArith.Unsigned.{IsUnsigned, nonzero}
use scilla.SafeArith.SafeUint.{add, sub, mul, div, rem, pow_aux, pow, lt}

-- A number below 2 ^ w, or an overflow.
abbrev pub fit : ℕ → ℕ → Checked ℕ
fit w n = if ltb n (2 ^ w) then returned n else raised int_overflow

-- A remainder of a number below twice the divisor.
pub mod_once : (m n : ℕ) → n < m + m → n % m ≡ (if ltb n m then n else n - m)
mod_once m n small = elim (dec_lt n m) [
  | yes below ↦ rw (lt→ltb n m below) (mod-eq_of_lt below)
  | no above ↦
      rw (le→ltb n m (omega arith))
        (mod-eq-sub-mod {n = n} {m = m} (omega arith) ∙ mod-eq_of_lt (omega arith))
]

pub factor_pos : (x y : ℕ) → 0 < x * y → 0 < x
factor_pos zero y h = absurd (omega arith)
factor_pos (suc x) y h = omega arith

module _ {r : IntRep} {w : ℕ} (h : IsUnsigned r w) where
  open r use {T}
  open h use {
    value, value-lt, value-zero, value-one, value-add, value-sub, value-mul, value-div,
    compare-value,
  }

  -- `add` answers the sum if it is below 2 ^ w, and else raises IntOverflow.
  pub add_exact : (a b : T) → map value (add r a b) ≡ fit w (value a + value b)
  unfolding add
  add_exact a b =
      let c = r.add a b in
      let e : value c ≡ (
          if ltb (value a + value b) (2 ^ w)
          then value a + value b
          else value a + value b - 2 ^ w) =
        value-add a b
        ∙ mod_once (2 ^ w) (value a + value b) (omega (arith, value-lt a, value-lt b)) in
      let la = value-lt a in
      let lb = value-lt b in rw (compare-value c a, compare-value c b) (ground arith)

  -- `sub` answers the difference if it is not negative, and else raises IntUnderflow.
  pub sub_exact :
      (a b : T)
      → map value (sub r a b)
        ≡ (if ltb (value a) (value b) then raised int_underflow else returned (value a - value b))
  unfolding sub
  sub_exact a b =
      let c = r.sub a b in
      let la = value-lt a in
      let e : value c ≡ (
          if ltb (value a + 2 ^ w - value b) (2 ^ w)
          then value a + 2 ^ w - value b
          else value a + 2 ^ w - value b - 2 ^ w) =
        value-sub a b ∙ mod_once (2 ^ w) (value a + 2 ^ w - value b) (omega arith) in
      rw (compare-value a b) (ground arith)

  -- The quotient of two values.
  quotient :
      (c b : T) → value b ≢ 0 → (q : T) × (r.div c b ≡ some q) × (value q ≡ value c / value b)
  quotient c b nonzero_b = map-eq-some value (r.div c b) (value-div c b ∙ ground arith)

  -- The test of the product: dividing it gives the factor back just if it has not wrapped around.
  divides_back : (x y : ℕ) → y ≢ 0 → ((x * y % 2 ^ w / y) == x) ≡ ltb (x * y) (2 ^ w)
  divides_back x y nonzero_y = elim (dec_lt (x * y) (2 ^ w)) [
    | yes below ↦
        let e : x * y % 2 ^ w / y ≡ x =
          ap (λ t. t / y) (mod-eq_of_lt below) ∙ mul-div_cancel x (omega arith) in
        rw (lt→ltb (x * y) (2 ^ w) below) (ground arith)
    | no above ↦
        let smaller : x * y % 2 ^ w < x * y =
          omega (arith, mod-lt (x * y) {m = 2 ^ w} (omega (arith, one-le-pow w 2))) in
        let less : x * y % 2 ^ w / y < x = (div-lt_iff_lt-mul (omega arith)).1 smaller in
        rw (le→ltb (x * y) (2 ^ w) (omega arith)) (ground arith)
  ]

  -- `mul` answers the product if it is below 2 ^ w, and else raises IntOverflow. The functor's argument
  -- is the numbers modulo 2 ^ w.
  pub mul_exact : (a b : T) → map value (mul r a b) ≡ fit w (value a * value b)
  unfolding mul
  mul_exact a b =
      let c = r.mul a b in
      let test : is_equal (r.compare b r.zero) ≡ (value b == 0) =
        rw (compare-value b r.zero, value-zero) (ground arith) in
      elim (ℕ_discrete (value b) 0) [
        | yes zero_b ↦
            let product : value a * value b ≡ 0 = ap (λ t. value a * t) zero_b ∙ omega arith in
            let positive = one-le-pow w 2 in
            let value_c : value c ≡ value a * value b =
              value-mul a b ∙ mod-eq_of_lt (omega arith) in
            rw (test, zero_b) (ground arith)
        | no nonzero_b ↦
            let (q, e, value_q) = quotient c b nonzero_b in
            let other : (value b == 0) ≡ false = ground arith in
            let back : is_equal (r.compare q a) ≡ ltb (value a * value b) (2 ^ w) =
              rw (compare-value q a, value_q, value-mul a b)
                (divides_back (value a) (value b) nonzero_b) in
            rw (test, other, e, back)
              (elim (dec_lt (value a * value b) (2 ^ w)) [
                | yes below ↦
                    rw (lt→ltb (value a * value b) (2 ^ w) below)
                      (ap returned (value-mul a b ∙ mod-eq_of_lt below))
                | no above ↦ rw (le→ltb (value a * value b) (2 ^ w) (omega arith)) refl
              ])
      ]

  -- `mul` by cases: the product fits, or it is an overflow.
  mul-cases :
      (a b : T)
      → (((p : T) × (mul r a b ≡ returned p)
            × (value p ≡ value a * value b)
            × (value a * value b < 2 ^ w))
          ⊎ ((mul r a b ≡ raised int_overflow) × (2 ^ w ≤ value a * value b)))
  mul-cases a b = elim (dec_lt (value a * value b) (2 ^ w)) [
    | yes below ↦
        let (p, e, value_p) =
          map-eq-returned value (mul r a b)
            (mul_exact a b ∙ rw (lt→ltb (value a * value b) (2 ^ w) below) refl) in
        inl (p, e, value_p, below)
    | no above ↦ inr (
      map-eq-raised value (mul r a b)
          (mul_exact a b ∙ rw (le→ltb (value a * value b) (2 ^ w) (omega arith)) refl),
      omega arith,
    )
  ]

  pow_aux_exact :
      (a acc : T) (n : ℕ) → map value (pow_aux r a acc n) ≡ fit w (value acc * value a ^ n)
  unfolding pow_aux
  pow_aux_exact a acc zero =
      let e : value acc * value a ^ 0 ≡ value acc =
        ap (λ t. value acc * t) (pow-zero (value a)) ∙ omega arith in
      sym (ap (fit w) e ∙ rw (lt→ltb (value acc) (2 ^ w) (value-lt acc)) refl)
  pow_aux_exact a acc (suc n) =
      let x = value a in
      let y = value acc in
      let next : x * y * x ^ n ≡ y * x ^ suc n =
        ap (λ t. t * x ^ n) (mul_comm x y)
        ∙ mul_assoc y x (x ^ n)
        ∙ ap (λ t. y * t) (mul_comm x (x ^ n) ∙ sym (pow-suc x n)) in
      elim (mul-cases a acc) [
        | inl (p, e, value_p, below) ↦
            rw e (pow_aux_exact a p n ∙ ap (fit w) (ap (λ t. t * x ^ n) value_p ∙ next))
        | inr (e, over) ↦
            let positive : 0 < x = factor_pos x y (omega (arith, one-le-pow w 2)) in
            let more : x * y * 1 ≤ x * y * x ^ n =
              mul-le-mul_left (x * y) (one-le-pow n x positive) in
            rw (e, le→ltb (y * x ^ suc n) (2 ^ w) (omega arith)) refl
      ]

  -- `pow` answers the power if it is below 2 ^ w, and else raises IntOverflow. The functor's argument is
  -- the numbers modulo 2 ^ w.
  pub pow_exact : (a : T) (n : ℕ) → map value (pow r a n) ≡ fit w (value a ^ n)
  unfolding pow
  pow_exact a n =
      pow_aux_exact a r.one n ∙ ap (fit w) (ap (λ t. t * value a ^ n) value-one ∙ omega arith)

  -- `div` and `rem` raise Division_by_zero just for the divisor 0.
  pub div_exact :
      (a b : T) → map value (div r a b) ≡ divided (nonzero (value b) (value a / value b))
  unfolding div
  div_exact a b = sym (divided-map value (r.div a b)) ∙ ap divided (value-div a b)

  pub rem_exact :
      (a b : T) → map value (rem r a b) ≡ divided (nonzero (value b) (value a % value b))
  unfolding rem
  rem_exact a b = sym (divided-map value (r.rem a b)) ∙ ap divided (h.value-rem a b)

  pub lt_exact : (a b : T) → lt r a b ≡ ltb (value a) (value b)
  unfolding lt
  lt_exact a b = rw (compare-value a b) (ground arith)
