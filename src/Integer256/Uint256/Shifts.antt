-- ===== src/Integer256/Uint256/Shifts.antt =====
-- Shifts of two halves are those of the numbers, by any count of bits.
use native.Mathlib.Decide.{dec_lt, ℕ_discrete}
use native.Mathlib.Nat.{
  pow-suc, one-le-pow, mul_assoc, mul_comm, mul-div-mul_right, div-lt_iff_lt-mul,
  div-div-eq-div-mul, mul-add-div_right, mul-le-mul_right, mod-lt, div-add-mod, div-eq_of_lt,
  pow-le-pow_right,
}
use scilla.Base.{
  ℕ, zero, suc, ◌+◌, ◌-◌, ◌*◌, ◌/◌, ◌%◌, ◌^◌, ◌≤◌, ◌<◌, ◌≡◌, sym, ap, ◌∙◌, false, arith, lt→ltb,
  le→ltb, ◌==◌,
}
use scilla.Integer256.{Uint128, Halves}
use scilla.Integer256.Documented.{IsUint128, whole, whole-lt}
use scilla.Integer256.Uint256.{shift_left, shift_right}

pow_add : (a b : ℕ) → 2 ^ (a + b) ≡ 2 ^ a * 2 ^ b
pow_add zero b = let start : zero + b ≡ b = omega arith in ap (λ t. 2 ^ t) start ∙ omega arith
pow_add (suc a) b =
    let next : suc a + b ≡ suc (a + b) = omega arith in
    ap (λ t. 2 ^ t) next
    ∙ omega (arith, pow-suc 2 (a + b), pow_add a b, ap (λ (t : ℕ). t * 2 ^ b) (pow-suc 2 a))

pub pow_pos : (k : ℕ) → 0 < 2 ^ k
pow_pos k = omega (arith, one-le-pow k 2)

pow_split : (s k : ℕ) → s ≤ k → 2 ^ s * 2 ^ (k - s) ≡ 2 ^ k
pow_split s k h =
    let parts : s + (k - s) ≡ k = omega arith in sym (pow_add s (k - s)) ∙ ap (λ t. 2 ^ t) parts

left_below :
    (ah al p q : ℕ)
    → 0 < p
    → q * p ≡ 2 ^ 128
    → (ah * p % 2 ^ 128 + al / q) % 2 ^ 128 * 2 ^ 128 + al * p % 2 ^ 128
      ≡ (ah * 2 ^ 128 + al) * p % 2 ^ 256
left_below ah al p q pos e =
    let carried : al * p / 2 ^ 128 ≡ al / q =
      ap (λ t. al * p / t) (sym e) ∙ mul-div-mul_right al q pos in
    omega arith

left_above :
    (ah al p : ℕ) → al * p % 2 ^ 128 * 2 ^ 128 ≡ (ah * 2 ^ 128 + al) * (2 ^ 128 * p) % 2 ^ 256
left_above ah al p = omega arith

right_below :
    (ah al p q : ℕ)
    → al < 2 ^ 128
    → 0 < p
    → 0 < q
    → q * p ≡ 2 ^ 128
    → ah / p * 2 ^ 128 + (ah * q % 2 ^ 128 + al / p) % 2 ^ 128 ≡ (ah * 2 ^ 128 + al) / p
right_below ah al p q small p_pos q_pos e =
    let x = ah / p in
    let y = ah % p in
    let split : ah ≡ p * x + y = sym (div-add-mod ah p) in
    let e' : p * q ≡ 2 ^ 128 = omega arith in
    let low : al / p < q = (div-lt_iff_lt-mul p_pos).1 (omega arith) in
    let y_lt : y < p = mod-lt ah p_pos in
    let room : suc y * q ≤ p * q = mul-le-mul_right q y_lt in
    let expanded : ah * q ≡ 2 ^ 128 * x + y * q =
      ap (λ t. t * q) split ∙ omega (arith, ap (λ t. t * x) e') in
    let total : (ah * 2 ^ 128 + al) / p ≡ ah * q + al / p =
      ap (λ t. (t + al) / p) (ap (λ t. ah * t) (sym e) ∙ sym (mul_assoc ah q p))
      ∙ mul-add-div_right p_pos (ah * q) al in
    omega arith

right_above : (ah al p : ℕ) → al < 2 ^ 128 → ah / p ≡ (ah * 2 ^ 128 + al) / (2 ^ 128 * p)
right_above ah al p small =
    let whole : (ah * 2 ^ 128 + al) / 2 ^ 128 ≡ ah = omega arith in
    ap (λ t. t / p) (sym whole) ∙ div-div-eq-div-mul (ah * 2 ^ 128 + al) (2 ^ 128) p

module _ {u : Uint128} (h : IsUint128 u) where
  open h use {value, value-lt, value-add, value-zero, value-shift_left, value-shift_right}

  -- `shift_left` multiplies by 2 ^ shift, modulo 2 ^ 256, for every count of bits. The words of 128 bits
  -- behave as stdint documents.
  pub shift_left-whole :
      (a : Halves u) (s : ℕ) → whole h (shift_left u a s) ≡ whole h a * 2 ^ s % 2 ^ 256
  unfolding shift_left
  shift_left-whole a s = elim (dec_lt s 256) [
    | no over ↦
        let beyond : 2 ^ 256 * 2 ^ (s - 256) ≡ 2 ^ s = pow_split 256 s (omega arith) in
        rw (le→ltb s 256 (omega arith), value-zero)
          (omega (arith, ap (λ (t : ℕ). whole h a * t) beyond))
    | yes within ↦ elim (dec_lt s 128) [
      | yes below ↦ elim (ℕ_discrete s 0) [
        | yes none_left ↦ rw none_left (omega (arith, whole-lt h a))
        | no some_left ↦
            let t₁ : (s == 128) ≡ false = ground arith in
            let t₂ : (s == 0) ≡ false = ground arith in
            rw
              (
                lt→ltb s 256 within,
                t₁,
                t₂,
                lt→ltb s 128 below,
                value-add (u.shift_left a.high s) (u.shift_right a.low (128 - s)),
                value-shift_left a.high s below,
                value-shift_left a.low s below,
                value-shift_right a.low (128 - s) (omega arith),
              )
              (left_below (value a.high) (value a.low) (2 ^ s) (2 ^ (128 - s)) (pow_pos s)
                (mul_comm (2 ^ (128 - s)) (2 ^ s) ∙ pow_split s 128 (omega arith)))
      ]
      | no above ↦ elim (ℕ_discrete s 128) [
        | yes middle ↦ rw (middle, value-zero) (omega (arith, value-lt a.low))
        | no more ↦
            let t₁ : (s == 128) ≡ false = ground arith in
            let t₂ : (s == 0) ≡ false = ground arith in
            let split : 2 ^ 128 * 2 ^ (s - 128) ≡ 2 ^ s = pow_split 128 s (omega arith) in
            rw
              (
                lt→ltb s 256 within,
                t₁,
                t₂,
                le→ltb s 128 (omega arith),
                value-zero,
                value-shift_left a.low (s - 128) (omega arith),
                ← split,
              )
              (omega (arith, left_above (value a.high) (value a.low) (2 ^ (s - 128))))
      ]
    ]
  ]

  -- `shift_right` divides by 2 ^ shift.
  pub shift_right-whole : (a : Halves u) (s : ℕ) → whole h (shift_right u a s) ≡ whole h a / 2 ^ s
  unfolding shift_right
  shift_right-whole a s = elim (dec_lt s 256) [
    | no over ↦
        let enough : 2 ^ 256 ≤ 2 ^ s =
          pow-le-pow_right {n = 2} (omega arith) {i = 256} {j = s} (omega arith) in
        rw (le→ltb s 256 (omega arith), value-zero)
          (sym (div-eq_of_lt (omega (arith, whole-lt h a))))
    | yes within ↦ elim (dec_lt s 128) [
      | yes below ↦ elim (ℕ_discrete s 0) [
        | yes none_left ↦ rw none_left (omega arith)
        | no some_left ↦
            let t₁ : (s == 128) ≡ false = ground arith in
            let t₂ : (s == 0) ≡ false = ground arith in
            rw
              (
                lt→ltb s 256 within,
                t₁,
                t₂,
                lt→ltb s 128 below,
                value-add (u.shift_left a.high (128 - s)) (u.shift_right a.low s),
                value-shift_right a.high s below,
                value-shift_right a.low s below,
                value-shift_left a.high (128 - s) (omega arith),
              )
              (right_below (value a.high) (value a.low) (2 ^ s) (2 ^ (128 - s)) (value-lt a.low)
                (pow_pos s) (pow_pos (128 - s))
                (mul_comm (2 ^ (128 - s)) (2 ^ s) ∙ pow_split s 128 (omega arith)))
      ]
      | no above ↦ elim (ℕ_discrete s 128) [
        | yes middle ↦ rw (middle, value-zero) (omega (arith, value-lt a.low))
        | no more ↦
            let t₁ : (s == 128) ≡ false = ground arith in
            let t₂ : (s == 0) ≡ false = ground arith in
            let split : 2 ^ 128 * 2 ^ (s - 128) ≡ 2 ^ s = pow_split 128 s (omega arith) in
            rw
              (
                lt→ltb s 256 within,
                t₁,
                t₂,
                le→ltb s 128 (omega arith),
                value-zero,
                value-shift_right a.high (s - 128) (omega arith),
                ← split,
              )
              (omega
                (arith, right_above (value a.high) (value a.low) (2 ^ (s - 128)) (value-lt a.low)))
      ]
    ]
  ]
