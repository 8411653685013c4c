-- ===== src/SafeArith/SafeInt/Ranges.antt =====
-- The integers that a word holds, by sign and magnitude.
use native.Mathlib.Decide.{dec_lt, dec_le}
use native.Mathlib.Nat.{pow-suc, one-le-pow, mod-eq_of_lt}
use scilla.Base.{
  ℕ, zero, suc, ◌-◌, ◌^◌, ◌≤◌, ◌<◌, ◌≡◌, refl, Bool, true, false, if◌then◌else◌, arith, lt→ltb,
  le→ltb,
}
use scilla.SafeArith.{returned, raised, int_overflow, int_underflow}
use scilla.SafeArith.Integers.{ℤ, pos, negsuc, to_int, to_word, fit_int, is_neg, magnitude, signed}
use scilla.SafeArith.SafeInt.Quotients.{Fits}

pub signed_parts : (z : ℤ) → signed (is_neg z) (magnitude z) ≡ z
signed_parts (pos n) = refl
signed_parts (negsuc n) = refl

pub neg_magnitude : (z : ℤ) → is_neg z ≡ true → 0 < magnitude z
neg_magnitude (pos n) e = cc
neg_magnitude (negsuc n) e = omega arith

pub Fits-word : (k v : ℕ) → v < 2 ^ suc k → Fits k (is_neg (to_int k v)) (magnitude (to_int k v))
Fits-word k v small =
    let double = pow-suc 2 k in
    elim (dec_lt v (2 ^ k)) [
      | yes below ↦ rw (lt→ltb v (2 ^ k) below) below
      | no above ↦ rw (le→ltb v (2 ^ k) (omega arith)) (omega arith)
    ]

pub word_int : (k v : ℕ) → v < 2 ^ suc k → to_word k (to_int k v) ≡ v
word_int k v small =
    let double = pow-suc 2 k in
    elim (dec_lt v (2 ^ k)) [
      | yes below ↦ rw (lt→ltb v (2 ^ k) below) (mod-eq_of_lt small)
      | no above ↦
          let same_word = mod-eq_of_lt {n = 2 ^ suc k - 1 - v} {m = 2 ^ suc k} (omega arith) in
          rw (le→ltb v (2 ^ k) (omega arith)) (omega arith)
    ]

pub Fits-zero : (k : ℕ) (s : Bool) (n : ℕ) → n ≡ 0 → Fits k s n
Fits-zero k false n e = omega (arith, one-le-pow k 2)
Fits-zero k true n e = omega arith

pub dec_Fits : (k : ℕ) (s : Bool) (n : ℕ) → Dec (Fits k s n)
dec_Fits k false n = dec_lt n (2 ^ k)
dec_Fits k true n = dec_le n (2 ^ k)

pub fit_int-Fits :
    (k : ℕ) (s : Bool) (n : ℕ) → Fits k s n → fit_int k (signed s n) ≡ returned (signed s n)
fit_int-Fits k false n h = ground arith
fit_int-Fits k true zero h = let positive = one-le-pow k 2 in ground arith
fit_int-Fits k true (suc n) h = ground arith

pub fit_int-not_Fits :
    (k : ℕ) (s : Bool) (n : ℕ)
    → ¬ Fits k s n
    → fit_int k (signed s n) ≡ raised (if s then int_underflow else int_overflow)
fit_int-not_Fits k false n h =
    rw (le→ltb n (2 ^ k) (elim (dec_lt n (2 ^ k)) [ yes y ↦ absurd (h y) | no y ↦ omega arith ]))
      refl
fit_int-not_Fits k true zero h = absurd (h (omega arith))
fit_int-not_Fits k true (suc n) h =
    rw (le→ltb n (2 ^ k) (elim (dec_lt n (2 ^ k)) [ yes y ↦ absurd (h y) | no y ↦ omega arith ]))
      refl

-- The lowest word, and the negative ones.
pub lowest_word :
    (k v : ℕ)
    → v < 2 ^ suc k
    → is_neg (to_int k v) ≡ true
    → magnitude (to_int k v) ≡ 2 ^ k
    → v ≡ 2 ^ k
lowest_word k v small e f = let double = pow-suc 2 k in ground arith

pub neg_word : (k v : ℕ) → is_neg (to_int k v) ≡ true → 2 ^ k ≤ v
neg_word k v e = ground arith
