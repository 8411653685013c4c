-- ===== src/Integer256/Uint256/Division.antt =====
-- Long division of two halves gives quotient and remainder of the numbers.
use Prim.Native.Nat
use mathlib.Core.Path.{ap₂, subst}
use mathlib.Core.Option
use native.Mathlib.Nat.{pow-suc, div-eq_of_lt}
use native.Mathlib.Decide.{dec_le, ℕ_discrete}
use scilla.Base.{
  ℕ, zero, suc, ◌+◌, ◌-◌, ◌*◌, ◌/◌, ◌%◌, ◌^◌, ◌≤◌, ◌<◌, ◌≡◌, refl, sym, ap, ◌∙◌, true, false, not,
  ◌&&◌, some, none, arith, ◌==◌, if◌then◌else◌, is_less, is_equal, Bool-cases, ◌≢◌, Option, inl,
  inr,
}
use scilla.Integer256.{Uint128, Halves}
use scilla.Integer256.Documented.{IsUint128, whole, whole-lt}
use scilla.Integer256.Uint256.{
  sub, compare, shift_left, setbit, clearbit, isset, divloop, divrem, div, rem, zero_256,
}
use scilla.Integer256.Uint256.Sums.{sub-whole, compare-whole}
use scilla.Integer256.Uint256.Shifts.{shift_left-whole}
use scilla.Integer256.Uint256.Digits.{digit, setbit-whole, clearbit-zero, isset-digit}
use scilla.Integer256.Uint256.Partial.{IsPartial, digit_more, digit_clear, quotient_unique}

-- Division of numbers; none is by zero.
abbrev pub quotient_remainder : ℕ → ℕ → Option (ℕ × ℕ)
quotient_remainder n d = if d == 0 then none else some (n / d, n % d)

module _ {u : Uint128} (h : IsUint128 u) where
  -- The numbers of quotient and remainder.
  abbrev pub numbers : Halves u × Halves u → ℕ × ℕ
  numbers p = (whole h p.0, whole h p.1)

module _ {u : Uint128} (h : IsUint128 u) (a b : Halves u) where
  open h use {value, compare-value}

  -- The remainder with the next digit behind it.
  next_remainder :
      (i : ℕ) (q r : Halves u)
      → i < 256
      → IsPartial (whole h a) (whole h b) (suc i) (whole h q) (whole h r)
      → whole h
          (if isset u a i then setbit u (shift_left u r 1) 0 else clearbit u (shift_left u r 1) 0)
        ≡ 2 * whole h r + whole h a / 2 ^ i % 2
  next_remainder i q r small inv =
      let r' = shift_left u r 1 in
      let more = digit_more (whole h a) i in
      let below : whole h a / 2 ^ i ≤ whole h a = omega arith in
      let twice : whole h r' ≡ 2 * whole h r =
        shift_left-whole h r 1 ∙ omega (arith, whole-lt h a, inv.divided) in
      elim (Bool-cases (isset u a i)) [
        | inl one ↦
            let bit : digit (whole h a) i ≡ true = sym (isset-digit h a i small) ∙ one in
            rw one (setbit-whole h r' 0 (omega arith) ∙ rw twice (ground arith))
        | inr none_set ↦
            let bit : digit (whole h a) i ≡ false = sym (isset-digit h a i small) ∙ none_set in
            rw none_set (clearbit-zero h r' ∙ rw twice (ground arith))
      ]

  abbrev pub State : ℕ → Halves u → Halves u → Type 0
  State i q r = IsPartial (whole h a) (whole h b) i (whole h q) (whole h r)

  -- The divisor fits: the digit of the quotient is set.
  step_enough :
      (i : ℕ) (q r r'' : Halves u)
      → i < 256
      → State (suc i) q r
      → whole h r'' ≡ 2 * whole h r + whole h a / 2 ^ i % 2
      → whole h b ≤ whole h r''
      → State i (setbit u q i) (sub u r'' b)
  step_enough i q r r'' small inv e fits =
      let d = whole h b in
      let k = inv.quotient in
      let clear : digit (whole h q) i ≡ false = ap (λ t. digit t i) inv.shifted ∙ digit_clear k i in
      let double : k * 2 ^ suc i ≡ k * 2 * 2 ^ i =
        omega (arith, ap (λ (t : ℕ). k * t) (pow-suc 2 i)) in
      let set : whole h (setbit u q i) ≡ whole h q + 2 ^ i =
        setbit-whole h q i small ∙ rw clear refl in
      let rest : whole h (sub u r'' b) ≡ whole h r'' - d =
        sub-whole h r'' b ∙ omega (arith, whole-lt h r'', whole-lt h b) in
      record {
        quotient = 2 * k + 1;
        shifted = omega (arith, set, double, inv.shifted);
        divided = omega (arith, rest, digit_more (whole h a) i, inv.divided);
        small = omega (arith, rest, inv.small);
      }

  -- It does not: quotient and remainder stay.
  step_short :
      (i : ℕ) (q r r'' : Halves u)
      → State (suc i) q r
      → whole h r'' ≡ 2 * whole h r + whole h a / 2 ^ i % 2
      → whole h r'' < whole h b
      → State i q r''
  step_short i q r r'' inv e short =
      let k = inv.quotient in
      let double : k * 2 ^ suc i ≡ k * 2 * 2 ^ i =
        omega (arith, ap (λ (t : ℕ). k * t) (pow-suc 2 i)) in
      record {
        quotient = 2 * k;
        shifted = omega (arith, double, inv.shifted);
        divided = omega (arith, digit_more (whole h a) i, inv.divided);
        small = short;
      }

  -- The loop of `divrem` keeps its invariant: with the index i, the quotient so far is a multiple of
  -- 2 ^ i, and with the remainder so far, which is below the divisor, it divides the number's digits from
  -- i on. From any state with it, the loop ends in one with it at i = 0.
  pub divloop-State :
      (i : ℕ) (q r : Halves u)
      → i ≤ 256
      → State i q r
      → State 0 (divloop u a b i q r).0 (divloop u a b i q r).1
  unfolding divloop
  divloop-State zero q r bound inv = inv
  divloop-State (suc i) q r bound inv =
      let r' = shift_left u r 1 in
      let r'' = if isset u a i then setbit u r' 0 else clearbit u r' 0 in
      let e = next_remainder i q r (omega arith) inv in
      let rest = divloop-State i in
      elim (dec_le (whole h b) (whole h r'')) [
        | yes fits ↦
            let test : not (is_less (compare u r'' b)) ≡ true =
              rw (compare-whole h r'' b) (ground arith) in
            rw (divloop, test)
              (rest (setbit u q i) (sub u r'' b) (omega arith)
                (step_enough i q r r'' (omega arith) inv e fits))
        | no short ↦
            let test : not (is_less (compare u r'' b)) ≡ false =
              rw (compare-whole h r'' b) (ground arith) in
            rw (divloop, test) (rest q r'' (omega arith) (step_short i q r r'' inv e (omega arith)))
      ]

  pub start : whole h b ≢ 0 → State 256 (zero_256 u) (zero_256 u)
  start nonzero = record {
    quotient = 0;
    shifted = omega (arith, h.value-zero);
    divided = omega (arith, div-eq_of_lt (whole-lt h a), h.value-zero);
    small = omega (arith, h.value-zero);
  }

  long_division :
      whole h b ≢ 0
      → numbers h (divloop u a b 256 (zero_256 u) (zero_256 u))
        ≡ (whole h a / whole h b, whole h a % whole h b)
  long_division nonzero =
      let p = divloop u a b 256 (zero_256 u) (zero_256 u) in
      let inv = divloop-State 256 (zero_256 u) (zero_256 u) (omega arith) (start nonzero) in
      let unique =
        quotient_unique (whole h a) (whole h b) inv.quotient (whole h p.1)
          (omega (arith, inv.divided)) inv.small in
      ap₂ (λ s t. (s, t)) (omega (arith, inv.shifted, unique.0)) (sym unique.1)

  tested_zero : is_equal (compare u b (zero_256 u)) ≡ (whole h b == 0)
  tested_zero = rw (compare-whole h b (zero_256 u), h.value-zero) (ground arith)

  -- The division of the lower halves, where the higher ones are 0.
  short_division :
      whole h b ≢ 0
      → (is_equal (u.compare a.high u.zero) && is_equal (u.compare b.high u.zero)) ≡ true
      → numbers h (
        record { high = u.zero; low = u.div a.low b.low },
        record { high = u.zero; low = u.rem a.low b.low },
      )
        ≡ (whole h a / whole h b, whole h a % whole h b)
  short_division nonzero small =
      let compared : (is_equal (Nat.compare (value a.high) 0)
            && is_equal (Nat.compare (value b.high) 0))
          ≡ true =
        subst
          (λ z.
            (is_equal (Nat.compare (value a.high) z) && is_equal (Nat.compare (value b.high) z))
            ≡ true)
          h.value-zero (rw (← compare-value a.high u.zero, ← compare-value b.high u.zero) small) in
      let zero_a : value a.high ≡ 0 = ground arith in
      let zero_b : value b.high ≡ 0 = ground arith in
      let whole_a : whole h a ≡ value a.low = omega arith in
      let whole_b : whole h b ≡ value b.low = omega arith in
      rw
        (
          whole_a,
          whole_b,
          h.value-zero,
          h.value-div a.low b.low (omega arith),
          h.value-rem a.low b.low (omega arith),
        )
        (ap₂ (λ s t. (s, t)) (omega arith) (omega arith))

  -- `divrem` raises Division_by_zero just for the divisor 0, and else answers quotient and remainder of
  -- the numbers, whichever of its two ways it takes. The words behave as stdint documents.
  pub divrem-whole :
      Option.map (numbers h) (divrem u a b) ≡ quotient_remainder (whole h a) (whole h b)
  unfolding divrem
  divrem-whole = elim (ℕ_discrete (whole h b) 0) [
    | yes is_zero ↦ rw (tested_zero, is_zero) refl
    | no nonzero ↦
        let test : (whole h b == 0) ≡ false = ground arith in
        rw (tested_zero, test)
          (elim (Bool-cases
            (is_equal (u.compare a.high u.zero) && is_equal (u.compare b.high u.zero))) [
              | inl both ↦ rw both (ap some (short_division nonzero both))
              | inr neither ↦ rw neither (ap some (long_division nonzero))
            ])
  ]

  -- `div` and `rem` are the parts of `divrem`.
  pub div-whole :
      Option.map (whole h) (div u a b)
      ≡ (if whole h b == 0 then none else some (whole h a / whole h b))
  unfolding div
  div-whole =
      Option.map-map (whole h) (λ p. p.0) (divrem u a b)
      ∙ Option.comp-map (λ p. p.0) (numbers h) (divrem u a b)
      ∙ ap (Option.map (λ p. p.0)) divrem-whole
      ∙ ground arith

  pub rem-whole :
      Option.map (whole h) (rem u a b)
      ≡ (if whole h b == 0 then none else some (whole h a % whole h b))
  unfolding rem
  rem-whole =
      Option.map-map (whole h) (λ p. p.1) (divrem u a b)
      ∙ Option.comp-map (λ p. p.1) (numbers h) (divrem u a b)
      ∙ ap (Option.map (λ p. p.1)) divrem-whole
      ∙ ground arith
