-- ===== src/SafeArith/SafeInt/Divisions.antt =====
-- The checked quotient of signed integers, and their comparison.
use mathlib.Core.Path.{ap₂}
use native.Mathlib.Decide.{ℕ_discrete}
use native.Mathlib.Nat.{
  pow-suc, one-le-pow, mod-eq_of_lt, div-le_self, div-one, mul-le-mul_left, div-lt_iff_lt-mul,
}
use scilla.Base.{
  ℕ, suc, ◌+◌, ◌-◌, ◌*◌, ◌/◌, ◌%◌, ◌^◌, ◌≤◌, ◌<◌, ◌≡◌, ◌≢◌, refl, sym, ap, ◌∙◌, Bool, true, false,
  ◌&&◌, ◌==◌, is_less, arith, none, Bool-cases, map-eq-none, inl, inr,
}
use scilla.SafeArith.{returned, raised, int_overflow, map, bind, divided, IntRep}
use scilla.SafeArith.Unsigned.{nonzero}
use scilla.SafeArith.Integers.{
  to_int, compare_int, fit_int, is_neg, magnitude, signed, differ, quot,
}
use scilla.SafeArith.Signed.{IsSigned}
use scilla.SafeArith.SafeInt.{div, lt}
use scilla.SafeArith.SafeInt.Quotients.{Fits, int_word}
use scilla.SafeArith.SafeInt.Sums.{int}
use scilla.SafeArith.SafeInt.Products.{quotient_int, equal_values}
use scilla.SafeArith.SafeInt.Ranges.{fit_int-Fits, fit_int-not_Fits, Fits-word}

-- A quotient fits but for that of the lowest number by -1.
quot-Fits :
    (k : ℕ) (s t : Bool) (m n : ℕ)
    → 0 < n
    → Fits k s m
    → Fits k t n
    → (s ≡ true → t ≡ true → m ≡ 2 ^ k → n ≢ 1)
    → Fits k (differ s t) (m / n)
quot-Fits k false false m n positive fm fn special = omega (arith, div-le_self m n)
quot-Fits k false true m n positive fm fn special = omega (arith, div-le_self m n)
quot-Fits k true false m n positive fm fn special = omega (arith, div-le_self m n)
quot-Fits k true true m n positive fm fn special = elim (ℕ_discrete n 1) [
  | yes one ↦ elim (ℕ_discrete m (2 ^ k)) [
    | yes full ↦ absurd (special refl refl full one)
    | no less ↦ omega (arith, div-le_self m n)
  ]
  | no more ↦
      let room : 2 ^ k * 2 ≤ 2 ^ k * n = mul-le-mul_left (2 ^ k) (omega arith) in
      let less : m / n < 2 ^ k = (div-lt_iff_lt-mul positive).1 (omega (arith, one-le-pow k 2)) in
      less
]

module _ {r : IntRep} {k : ℕ} (h : IsSigned r k) where
  open r use {T, compare}
  open h use {
    value, value-lt, value-zero, value-one, value-min_int, value-sub, value-div, compare-value,
  }

  value-minus_one : value (r.sub r.zero r.one) ≡ 2 ^ suc k - 1
  value-minus_one =
      let positive = one-le-pow (suc k) 2 in
      value-sub r.zero r.one
      ∙ ap₂ (λ z o. (z + 2 ^ suc k - o) % 2 ^ suc k) value-zero value-one
      ∙ ap (λ t. t % 2 ^ suc k) (omega arith)
      ∙ mod-eq_of_lt (omega arith)

  -- The test of the one quotient that does not fit.
  abbrev lowest_by_minus_one : T → T → Bool
  lowest_by_minus_one a b = (value a == 2 ^ k) && (value b == 2 ^ suc k - 1)

  quotient_overflows :
      (a b : T)
      → lowest_by_minus_one a b ≡ true
      → fit_int k (quot (int h a) (int h b)) ≡ raised int_overflow
  quotient_overflows a b special =
      let double = pow-suc 2 k in
      let positive = one-le-pow k 2 in
      let low_a : value a ≡ 2 ^ k = ground arith in
      let minus_b : value b ≡ 2 ^ suc k - 1 = ground arith in
      let em : magnitude (int h a) ≡ 2 ^ k = ground arith in
      let en : magnitude (int h b) ≡ 1 = ground arith in
      let sign_a : is_neg (int h a) ≡ true = ground arith in
      let sign_b : is_neg (int h b) ≡ true = ground arith in
      let size : magnitude (int h a) / magnitude (int h b) ≡ 2 ^ k =
        ap₂ (λ m n. m / n) em en ∙ div-one (2 ^ k) in
      ap (fit_int k) (ap₂ signed (ap₂ differ sign_a sign_b) size)
      ∙ fit_int-not_Fits k false (2 ^ k) (λ small. omega (arith, small))

  quotient-Fits :
      (a b : T)
      → value b ≢ 0
      → lowest_by_minus_one a b ≡ false
      → Fits k
          (differ (is_neg (int h a)) (is_neg (int h b)))
          (magnitude (int h a) / magnitude (int h b))
  quotient-Fits a b nonzero_b others =
      let double = pow-suc 2 k in
      let positive = one-le-pow k 2 in
      let la = value-lt a in
      let lb = value-lt b in
      quot-Fits k (is_neg (int h a)) (is_neg (int h b)) (magnitude (int h a)) (magnitude (int h b))
        (ground arith) (Fits-word k (value a) la) (Fits-word k (value b) lb)
        (λ es et em en. ground arith)

  -- `div` raises Division_by_zero just for the divisor 0, and else answers the quotient rounded to 0 if
  -- it is at most 2 ^ k - 1, or raises IntOverflow. The functor's argument is two's complement of k + 1
  -- bits.
  pub div_exact_int :
      (a b : T)
      → map (int h) (div r a b)
        ≡ bind (divided (nonzero (value b) (quot (int h a) (int h b)))) (fit_int k)
  unfolding div
  div_exact_int a b =
      let s = differ (is_neg (int h a)) (is_neg (int h b)) in
      let n = magnitude (int h a) / magnitude (int h b) in
      elim (Bool-cases (lowest_by_minus_one a b)) [
        | inl special ↦
            let positive = one-le-pow k 2 in
            let double = pow-suc 2 k in
            let other : (value b == 0) ≡ false = ground arith in
            rw
              (
                equal_values h a r.min_int,
                equal_values h b (r.sub r.zero r.one),
                value-min_int,
                value-minus_one,
                special,
                other,
              )
              (sym (quotient_overflows a b special))
        | inr others ↦ elim (ℕ_discrete (value b) 0) [
          | yes zero_b ↦
              let is_zero : (value b == 0) ≡ true = ground arith in
              let stopped : r.div a b ≡ none =
                map-eq-none value (r.div a b) (value-div a b ∙ rw is_zero refl) in
              rw
                (
                  equal_values h a r.min_int,
                  equal_values h b (r.sub r.zero r.one),
                  value-min_int,
                  value-minus_one,
                  others,
                  stopped,
                  is_zero,
                )
                refl
          | no nonzero_b ↦
              let other : (value b == 0) ≡ false = ground arith in
              let (q, e, value_q) = quotient_int h a b nonzero_b in
              let fit = quotient-Fits a b nonzero_b others in
              rw
                (
                  equal_values h a r.min_int,
                  equal_values h b (r.sub r.zero r.one),
                  value-min_int,
                  value-minus_one,
                  others,
                  e,
                  other,
                )
                (ap (λ w. returned (to_int k w)) value_q
                  ∙ ap returned (int_word k s n fit)
                  ∙ sym (fit_int-Fits k s n fit))
        ]
      ]

  pub lt_exact_int : (a b : T) → lt r a b ≡ is_less (compare_int (int h a) (int h b))
  unfolding lt
  lt_exact_int a b = ap is_less (compare-value a b)
