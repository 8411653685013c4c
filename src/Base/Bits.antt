-- ===== src/Base/Bits.antt =====
-- The bit operations on numbers, digit by digit and half by half.
use Prim.Native.Nat.{
  ℕ, zero, suc, ◌+◌, ◌-◌, ◌*◌, ◌/◌, ◌%◌, ◌^◌, ◌≤◌, ◌<◌, min, max, digits, differ, bit_and, bit_or,
  bit_xor, bit_and-bitwise, bit_or-bitwise, bit_xor-bitwise,
}
use mathlib.Core.Path.{◌≡◌, refl, sym, ap, ap₂, ◌∙◌}
use native.Mathlib.Nat.{
  pow-suc, mul_assoc, div-div-eq-div-mul, one-le-pow, mod-lt, div-add-mod, add-mul-mod_self_left,
  mod-eq_of_lt,
}
use native.Mathlib.Omega.{arith}
use scilla.Base.Tests.{◌==◌, if◌then◌else◌}

module _ (z : ℕ → ℕ) (f : ℕ → ℕ → ℕ) where
  -- Any count of digits that covers the first number gives the same.
  digits_any : (bound n a b : ℕ) → a ≤ bound → a ≤ n → digits z f n a b ≡ digits z f a a b
  digits_any bound zero zero b p q = refl
  digits_any bound (suc n) zero b p q = refl
  digits_any bound zero (suc a) b p q = absurd (omega arith)
  digits_any zero (suc n) (suc a) b p q = absurd (omega arith)
  digits_any (suc bound) (suc n) (suc a) b p q =
      let half = suc a / 2 in
      let left = digits_any bound n half (b / 2) (omega arith) (omega arith) in
      let right = digits_any bound a half (b / 2) (omega arith) (omega arith) in
      ap (λ t. t * 2 + f (suc a % 2) (b % 2)) (left ∙ sym right)

  digits_step :
      (a b : ℕ)
      → digits z f (suc a) (suc a) b
        ≡ digits z f (suc a / 2) (suc a / 2) (b / 2) * 2 + f (suc a % 2) (b % 2)
  digits_step a b =
      ap (λ t. t * 2 + f (suc a % 2) (b % 2))
        (digits_any a a (suc a / 2) (b / 2) (omega arith) (omega arith))

-- The lowest digit of each operation.
and_digit : (a b : ℕ) → bit_and a b ≡ bit_and (a / 2) (b / 2) * 2 + min (a % 2) (b % 2)
and_digit zero b = omega (arith, bit_and-bitwise 0 b, bit_and-bitwise 0 (b / 2))
and_digit (suc a) b = simp bit_and-bitwise (digits_step (λ b. zero) min a b)

or_digit : (a b : ℕ) → bit_or a b ≡ bit_or (a / 2) (b / 2) * 2 + max (a % 2) (b % 2)
or_digit zero b = omega (arith, bit_or-bitwise 0 b, bit_or-bitwise 0 (b / 2))
or_digit (suc a) b = simp bit_or-bitwise (digits_step (λ b. b) max a b)

xor_digit : (a b : ℕ) → bit_xor a b ≡ bit_xor (a / 2) (b / 2) * 2 + differ (a % 2) (b % 2)
xor_digit zero b = omega (arith, bit_xor-bitwise 0 b, bit_xor-bitwise 0 (b / 2))
xor_digit (suc a) b = simp bit_xor-bitwise (digits_step (λ b. b) differ a b)

-- Numbers in two parts.
module _ (op f : ℕ → ℕ → ℕ)
    (digit : (a b : ℕ) → op a b ≡ op (a / 2) (b / 2) * 2 + f (a % 2) (b % 2))
    (base : op 0 0 ≡ 0) where
  op_parts :
      (k ah al bh bl : ℕ)
      → al < 2 ^ k
      → bl < 2 ^ k
      → op (ah * 2 ^ k + al) (bh * 2 ^ k + bl) ≡ op ah bh * 2 ^ k + op al bl
  op_parts zero ah al bh bl ha hb =
      let ea : ah * 1 + al ≡ ah = omega arith in
      let eb : bh * 1 + bl ≡ bh = omega arith in
      let la : al ≡ 0 = omega arith in
      let lb : bl ≡ 0 = omega arith in ap₂ op ea eb ∙ omega (arith, ap₂ op la lb ∙ base)
  op_parts (suc k) ah al bh bl ha hb =
      let p = 2 ^ k in
      let double : 2 ^ suc k ≡ p * 2 = pow-suc 2 k in
      let ta : ah * 2 ^ suc k ≡ ah * p * 2 = ap (λ t. ah * t) double ∙ sym (mul_assoc ah p 2) in
      let tb : bh * 2 ^ suc k ≡ bh * p * 2 = ap (λ t. bh * t) double ∙ sym (mul_assoc bh p 2) in
      let tc : op ah bh * 2 ^ suc k ≡ op ah bh * p * 2 =
        ap (λ t. op ah bh * t) double ∙ sym (mul_assoc (op ah bh) p 2) in
      let x = ah * 2 ^ suc k + al in
      let y = bh * 2 ^ suc k + bl in
      let xh : x / 2 ≡ ah * p + al / 2 = omega arith in
      let yh : y / 2 ≡ bh * p + bl / 2 = omega arith in
      let xl : x % 2 ≡ al % 2 = omega arith in
      let yl : y % 2 ≡ bl % 2 = omega arith in
      let rest = op_parts k ah (al / 2) bh (bl / 2) (omega arith) (omega arith) in
      let all : op x y ≡ op (ah * p + al / 2) (bh * p + bl / 2) * 2 + f (al % 2) (bl % 2) =
        digit x y ∙ ap₂ (λ s t. s * 2 + t) (ap₂ op xh yh) (ap₂ f xl yl) in
      omega (arith, all, rest, digit al bl, tc)

  op_lt :
      ((x y : ℕ) → x ≤ 1 → y ≤ 1 → f x y ≤ 1) → (k a b : ℕ) → a < 2 ^ k → b < 2 ^ k → op a b < 2 ^ k
  op_lt bit zero a b ha hb =
      let ea : a ≡ 0 = omega arith in
      let eb : b ≡ 0 = omega arith in omega (arith, ap₂ op ea eb ∙ base)
  op_lt bit (suc k) a b ha hb =
      let double = pow-suc 2 k in
      let rest = op_lt bit k (a / 2) (b / 2) (omega arith) (omega arith) in
      omega (arith, digit a b, bit (a % 2) (b % 2) (omega arith) (omega arith))

differ_bit : (x y : ℕ) → x ≤ 1 → y ≤ 1 → differ x y ≤ 1
differ_bit zero zero p q = ground arith
differ_bit zero (suc y) p q = ground arith
differ_bit (suc x) zero p q = ground arith
differ_bit (suc x) (suc y) p q = ground arith

pub bit_and_lt : (k a b : ℕ) → a < 2 ^ k → b < 2 ^ k → bit_and a b < 2 ^ k
bit_and_lt = op_lt bit_and min and_digit refl (λ x y p q. omega arith)

pub bit_or_lt : (k a b : ℕ) → a < 2 ^ k → b < 2 ^ k → bit_or a b < 2 ^ k
bit_or_lt = op_lt bit_or max or_digit refl (λ x y p q. omega arith)

pub bit_xor_lt : (k a b : ℕ) → a < 2 ^ k → b < 2 ^ k → bit_xor a b < 2 ^ k
bit_xor_lt = op_lt bit_xor differ xor_digit refl differ_bit

pub bit_and_parts :
    (k ah al bh bl : ℕ)
    → al < 2 ^ k
    → bl < 2 ^ k
    → bit_and (ah * 2 ^ k + al) (bh * 2 ^ k + bl) ≡ bit_and ah bh * 2 ^ k + bit_and al bl
bit_and_parts = op_parts bit_and min and_digit refl

pub bit_or_parts :
    (k ah al bh bl : ℕ)
    → al < 2 ^ k
    → bl < 2 ^ k
    → bit_or (ah * 2 ^ k + al) (bh * 2 ^ k + bl) ≡ bit_or ah bh * 2 ^ k + bit_or al bl
bit_or_parts = op_parts bit_or max or_digit refl

pub bit_xor_parts :
    (k ah al bh bl : ℕ)
    → al < 2 ^ k
    → bl < 2 ^ k
    → bit_xor (ah * 2 ^ k + al) (bh * 2 ^ k + bl) ≡ bit_xor ah bh * 2 ^ k + bit_xor al bl
bit_xor_parts = op_parts bit_xor differ xor_digit refl

-- A power of two sets one digit.
pub bit_or_pow : (i n : ℕ) → bit_or (2 ^ i) n ≡ n + (if n / 2 ^ i % 2 == 0 then 2 ^ i else 0)
bit_or_pow zero n = ground (arith, or_digit 1 n, bit_or-bitwise 0 (n / 2))
bit_or_pow (suc i) n =
    let p = 2 ^ i in
    let double : 2 ^ suc i ≡ 2 * p = omega (arith, pow-suc 2 i) in
    let halved : n / 2 ^ suc i ≡ n / 2 / p =
      ap (λ t. n / t) double ∙ sym (div-div-eq-div-mul n 2 p) in
    let half : 2 ^ suc i / 2 ≡ p = omega arith in
    let even : 2 ^ suc i % 2 ≡ 0 = omega arith in
    let first : bit_or (2 ^ suc i) n ≡ bit_or p (n / 2) * 2 + max 0 (n % 2) =
      or_digit (2 ^ suc i) n ∙ ap₂ (λ s t. bit_or s (n / 2) * 2 + max t (n % 2)) half even in
    rw halved (ground (arith, first, bit_or_pow i (n / 2), double))

-- A remainder by a power of two, by its lowest digit.
mod_digit : (k n : ℕ) → n % 2 ^ suc k ≡ n / 2 % 2 ^ k * 2 + n % 2
mod_digit k n =
    let p = 2 ^ k in
    let positive : 0 < p = omega (arith, one-le-pow k 2) in
    let double : 2 ^ suc k ≡ p * 2 = pow-suc 2 k in
    let r = n / 2 % p * 2 + n % 2 in
    let below : n / 2 % p < p = mod-lt (n / 2) positive in
    let parts : r + p * 2 * (n / 2 / p) ≡ n = omega (arith, div-add-mod (n / 2) p) in
    let small : r < p * 2 = omega arith in
    ap (λ t. n % t) double
    ∙ ap (λ t. t % (p * 2)) (sym parts)
    ∙ add-mul-mod_self_left r (p * 2) (n / 2 / p)
    ∙ mod-eq_of_lt small

-- A mask of `k` low digits keeps them.
pub bit_and_mask : (k n : ℕ) → bit_and (2 ^ k - 1) n ≡ n % 2 ^ k
bit_and_mask zero n = omega (arith, bit_and-bitwise 0 n)
bit_and_mask (suc k) n =
    let p = 2 ^ k in
    let positive : 0 < p = omega (arith, one-le-pow k 2) in
    let double : 2 ^ suc k ≡ p * 2 = pow-suc 2 k in
    let half : (2 ^ suc k - 1) / 2 ≡ p - 1 = omega arith in
    let odd : (2 ^ suc k - 1) % 2 ≡ 1 = omega arith in
    let first : bit_and (2 ^ suc k - 1) n ≡ bit_and (p - 1) (n / 2) * 2 + min 1 (n % 2) =
      and_digit (2 ^ suc k - 1) n ∙ ap₂ (λ s t. bit_and s (n / 2) * 2 + min t (n % 2)) half odd in
    omega (arith, first, bit_and_mask k (n / 2), mod_digit k n)
