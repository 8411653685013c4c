-- ===== src/SafeArith/SafeInt/Products.antt =====
-- The checked product of signed integers.
use mathlib.Core.Path.{ap₂}
use native.Mathlib.Decide.{ℕ_discrete}
use native.Mathlib.Nat.{pow-suc, one-le-pow, mul-le-mul_left}
use scilla.Base.{
  ℕ, ◌*◌, ◌^◌, ◌≤◌, ◌<◌, ◌≡◌, ◌≢◌, refl, sym, ap, ◌∙◌, Bool, true, false, not, ◌&&◌, ltb, ◌==◌,
  if◌then◌else◌, is_less, is_equal, arith, map-eq-some, some, Bool-cases, inl, inr, ◌⊎◌,
}
use scilla.SafeArith.{returned, raised, int_overflow, int_underflow, map, IntRep}
use scilla.SafeArith.Integers.{
  ◌*ℤ◌, to_int, to_word, fit_int, is_neg, magnitude, signed, differ, quot,
}
use scilla.SafeArith.Signed.{IsSigned}
use scilla.SafeArith.SafeInt.{mul, same}
use scilla.SafeArith.SafeInt.Words.{product-word}
use scilla.SafeArith.SafeInt.Quotients.{Fits, Fits-back, not_Fits-back, int_word}
use scilla.SafeArith.SafeInt.Sums.{int}
use scilla.SafeArith.SafeInt.Ranges.{
  signed_parts, neg_magnitude, Fits-word, word_int, Fits-zero, dec_Fits, fit_int-Fits,
  fit_int-not_Fits, lowest_word, neg_word,
}

module _ {r : IntRep} {k : ℕ} (h : IsSigned r k) where
  open r use {T, compare}
  open h use {value, value-lt, value-zero, value-min_int, value-mul, value-div, compare-value}

  less_zero : (b : T) → is_less (compare b r.zero) ≡ not (ltb (value b) (2 ^ k))
  less_zero b =
      let positive = one-le-pow k 2 in rw (compare-value b r.zero, value-zero) (ground arith)

  equal_zero : (b : T) → is_equal (compare b r.zero) ≡ (value b == 0)
  equal_zero b =
      let positive = one-le-pow k 2 in
      let small = value-lt b in rw (compare-value b r.zero, value-zero) (ground arith)

  pub equal_values : (a b : T) → is_equal (compare a b) ≡ (value a == value b)
  equal_values a b =
      let double = pow-suc 2 k in
      let la = value-lt a in let lb = value-lt b in rw (compare-value a b) (ground arith)

  same_signs :
      (a b : T)
      → value a ≢ 0
      → value b ≢ 0
      → same (compare a r.zero) (compare b r.zero)
        ≡ not (differ (is_neg (int h a)) (is_neg (int h b)))
  same_signs a b na nb =
      let double = pow-suc 2 k in
      let positive = one-le-pow k 2 in
      rw (compare-value a r.zero, compare-value b r.zero, value-zero) (ground arith)

  abbrev product_sign : T → T → Bool
  product_sign a b = differ (is_neg (int h a)) (is_neg (int h b))

  abbrev product_size : T → T → ℕ
  product_size a b = magnitude (int h a) * magnitude (int h b)

  magnitude_pos : (b : T) → value b ≢ 0 → 0 < magnitude (int h b)
  magnitude_pos b nonzero_b = ground arith

  product-Fits :
      (a b : T)
      → Fits k (product_sign a b) (product_size a b)
      → returned (int h (r.mul a b)) ≡ fit_int k (int h a *ℤ int h b)
  product-Fits a b fit =
      let s = product_sign a b in
      let n = product_size a b in
      ap (λ w. returned (to_int k w))
        (value-mul a b ∙ product-word k (value a) (value b) (value-lt a) (value-lt b))
      ∙ ap returned (int_word k s n fit)
      ∙ sym (fit_int-Fits k s n fit)

  -- The quotient by a value that is not 0.
  pub quotient_int :
      (c b : T)
      → value b ≢ 0
      → (q : T) × (r.div c b ≡ some q) × (value q ≡ to_word k (quot (int h c) (int h b)))
  quotient_int c b nonzero_b =
      let other : (value b == 0) ≡ false = ground arith in
      map-eq-some value (r.div c b) (value-div c b ∙ rw other refl)

  -- Dividing a product gives the factor back just if it fits.
  quotient_test :
      (a b q : T)
      → value b ≢ 0
      → ¬ ((2 ^ k ≤ value b) × (value a ≡ 2 ^ k))
      → value q ≡ to_word k (quot (int h (r.mul a b)) (int h b))
      → (Fits k (product_sign a b) (product_size a b) × (is_equal (compare q a) ≡ true))
        ⊎ ((¬ Fits k (product_sign a b) (product_size a b)) × (is_equal (compare q a) ≡ false))
  quotient_test a b q nonzero_b special e =
      let s = is_neg (int h a) in
      let t = is_neg (int h b) in
      let m = magnitude (int h a) in
      let n = magnitude (int h b) in
      let pos_n = magnitude_pos b nonzero_b in
      let word_c = value-mul a b ∙ product-word k (value a) (value b) (value-lt a) (value-lt b) in
      let word_a = word_int k (value a) (value-lt a) in
      elim (dec_Fits k (product_sign a b) (product_size a b)) [
        | yes fit ↦
            let back = Fits-back k s t m n pos_n (neg_magnitude (int h a)) fit in
            let equal : value q ≡ value a =
              e
              ∙ ap (to_word k) (
                  ap₂ quot (ap (to_int k) word_c) (sym (signed_parts (int h b)))
                  ∙ back
                  ∙ signed_parts (int h a))
              ∙ word_a in
            inl (fit, equal_values q a ∙ ground arith)
        | no unfit ↦
            let back =
              not_Fits-back k s t m n (value (r.mul a b)) (value-lt (r.mul a b)) pos_n
                (Fits-word k (value a) (value-lt a))
                (λ es et lowest.
                  special (neg_word k (value b) et, lowest_word k (value a) (value-lt a) es lowest))
                unfit in
            let other : value q ≢ value a = λ same_q. back (
              ap (to_word k) (ap (quot (int h (r.mul a b))) (signed_parts (int h b)))
              ∙ sym e
              ∙ same_q
              ∙ sym word_a
              ∙ ap (to_word k) (sym (signed_parts (int h a)))) in
            inr (unfit, equal_values q a ∙ ground arith)
      ]

  -- The lowest number by a negative one is too large.
  lowest_unfit :
      (a b : T)
      → 2 ^ k ≤ value b
      → value a ≡ 2 ^ k
      → fit_int k (int h a *ℤ int h b) ≡ raised int_overflow
  lowest_unfit a b neg_b low_a =
      let double = pow-suc 2 k in
      let lb = value-lt b in
      let positive = one-le-pow k 2 in
      let m = magnitude (int h a) in
      let n = magnitude (int h b) in
      let em : m ≡ 2 ^ k = ground arith in
      let sign_a : is_neg (int h a) ≡ true = ground arith in
      let sign_b : is_neg (int h b) ≡ true = ground arith in
      let pos_n : 1 ≤ n = magnitude_pos b (omega arith) in
      let more : m * 1 ≤ m * n = mul-le-mul_left m pos_n in
      ap (λ s. fit_int k (signed s (m * n))) (ap₂ differ sign_a sign_b)
      ∙ fit_int-not_Fits k false (m * n) (λ small. omega (arith, more, em, small))

  unfit_nonzero : (a b : T) → ¬ Fits k (product_sign a b) (product_size a b) → value a ≢ 0
  unfit_nonzero a b unfit zero_a =
      let zero_size : magnitude (int h a) ≡ 0 = let positive = one-le-pow k 2 in ground arith in
      unfit (
        Fits-zero k (product_sign a b) (product_size a b)
          (ap (λ m. m * magnitude (int h b)) zero_size ∙ omega arith))

  side :
      (s : Bool)
      → raised (if s then int_underflow else int_overflow)
        ≡ map (int h) (if not s then raised int_overflow else raised int_underflow)
  side true = refl
  side false = refl

  -- `mul` answers the product of the two integers if it lies from - 2 ^ k to 2 ^ k - 1, and else raises
  -- IntOverflow for a positive product and IntUnderflow for a negative one. The functor's argument is
  -- two's complement of k + 1 bits.
  pub mul_exact_int : (a b : T) → map (int h) (mul r a b) ≡ fit_int k (int h a *ℤ int h b)
  unfolding mul
  mul_exact_int a b =
      let positive = one-le-pow k 2 in
      elim (ℕ_discrete (value b) 0) [
        | yes zero_b ↦
            let zero_size : magnitude (int h b) ≡ 0 = ground arith in
            let not_neg : not (ltb (value b) (2 ^ k)) ≡ false = ground arith in
            let is_zero : (value b == 0) ≡ true = ground arith in
            let none_left : product_size a b ≡ 0 =
              ap (λ n. magnitude (int h a) * n) zero_size ∙ omega arith in
            let fit : Fits k (product_sign a b) (product_size a b) =
              Fits-zero k (product_sign a b) (product_size a b) none_left in
            rw (less_zero b, not_neg, equal_zero b, is_zero) (product-Fits a b fit)
        | no nonzero_b ↦ elim (Bool-cases (not (ltb (value b) (2 ^ k)) && (value a == 2 ^ k))) [
          | inl lowest ↦
              rw (less_zero b, equal_values a r.min_int, value-min_int, lowest)
                (sym (lowest_unfit a b (ground arith) (ground arith)))
          | inr others ↦
              let (q, e, value_q) = quotient_int (r.mul a b) b nonzero_b in
              let other : (value b == 0) ≡ false = ground arith in
              rw
                (
                  less_zero b,
                  equal_values a r.min_int,
                  value-min_int,
                  others,
                  equal_zero b,
                  other,
                  e,
                )
                (elim (quotient_test a b q nonzero_b (λ p. ground arith) value_q) [
                  | inl (fit, test) ↦ rw test (product-Fits a b fit)
                  | inr (unfit, test) ↦
                      let nonzero_a = unfit_nonzero a b unfit in
                      rw (test, same_signs a b nonzero_a nonzero_b)
                        (sym (
                          fit_int-not_Fits k (product_sign a b) (product_size a b) unfit
                          ∙ side (product_sign a b)))
                ])
        ]
      ]
