-- ===== src/Integer256/Uint256/Partial.antt =====
-- Long division on numbers: the state of its loop, and its end.
use native.Mathlib.Nat.{
  pow-suc, mul-div_cancel, div-div-eq-div-mul, div-add-mod, mul-add-div, div-eq_of_lt,
}
use scilla.Base.{ℕ, suc, ◌+◌, ◌*◌, ◌/◌, ◌%◌, ◌^◌, ◌<◌, ◌≡◌, sym, ap, ◌∙◌, false, arith}
use scilla.Integer256.Uint256.Shifts.{pow_pos}
use scilla.Integer256.Uint256.Digits.{digit}

-- What the loop keeps: the quotient and the remainder of the digits from `i` on.
pub record IsPartial (n d i q r : ℕ) : Type 0 where
  pub quotient : ℕ
  pub shifted : q ≡ quotient * 2 ^ i
  pub divided : n / 2 ^ i ≡ d * quotient + r
  pub small : r < d

-- One more digit of the number.
pub digit_more : (n i : ℕ) → n / 2 ^ i ≡ 2 * (n / 2 ^ suc i) + n / 2 ^ i % 2
digit_more n i =
    let double : 2 ^ suc i ≡ 2 ^ i * 2 = pow-suc 2 i in
    let halved : n / 2 ^ suc i ≡ n / 2 ^ i / 2 =
      ap (λ t. n / t) double ∙ sym (div-div-eq-div-mul n (2 ^ i) 2) in
    omega (arith, halved)

-- The digit of a quotient that is not yet set.
pub digit_clear : (k i : ℕ) → digit (k * 2 ^ suc i) i ≡ false
digit_clear k i =
    let double : k * 2 ^ suc i ≡ k * 2 * 2 ^ i =
      omega (arith, ap (λ (t : ℕ). k * t) (pow-suc 2 i)) in
    let exact : k * 2 ^ suc i / 2 ^ i ≡ k * 2 =
      ap (λ t. t / 2 ^ i) double ∙ mul-div_cancel (k * 2) (pow_pos i) in
    rw exact (ground arith)

-- Quotient and remainder are unique.
pub quotient_unique : (n d q r : ℕ) → n ≡ d * q + r → r < d → (n / d ≡ q) × (n % d ≡ r)
quotient_unique n d q r e small =
    let positive : 0 < d = omega arith in
    let div : n / d ≡ q =
      ap (λ t. t / d) e ∙ mul-add-div positive q r ∙ omega (arith, div-eq_of_lt small) in
    let parts : d * (n / d) ≡ d * q = ap (λ t. d * t) div in (div, omega (arith, div-add-mod n d))
