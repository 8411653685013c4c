-- ===== src/SafeArith/Signed.antt =====
-- An argument of the functor SafeInt: words of k + 1 bits in two's complement.
use mathlib.Core.Option
use scilla.Base.{ℕ, suc, ◌+◌, ◌-◌, ◌*◌, ◌%◌, ◌^◌, ◌<◌, ◌≡◌}
use scilla.SafeArith.{IntRep}
use scilla.SafeArith.Integers.{to_int, to_word, quot, remainder, compare_int}
use scilla.SafeArith.Unsigned.{nonzero}

pub record IsSigned (r : IntRep) (k : ℕ) : Type 0 where
  pub value : r.T → ℕ
  pub value-lt : (a : r.T) → value a < 2 ^ suc k
  pub value-zero : value r.zero ≡ 0
  pub value-one : value r.one ≡ 1
  pub value-min_int : value r.min_int ≡ 2 ^ k
  pub value-add : (a b : r.T) → value (r.add a b) ≡ (value a + value b) % 2 ^ suc k
  pub value-sub : (a b : r.T) → value (r.sub a b) ≡ (value a + 2 ^ suc k - value b) % 2 ^ suc k
  pub value-mul : (a b : r.T) → value (r.mul a b) ≡ value a * value b % 2 ^ suc k
  pub value-div :
      (a b : r.T)
      → Option.map value (r.div a b)
        ≡ nonzero (value b) (to_word k (quot (to_int k (value a)) (to_int k (value b))))
  pub value-rem :
      (a b : r.T)
      → Option.map value (r.rem a b)
        ≡ nonzero (value b) (to_word k (remainder (to_int k (value a)) (to_int k (value b))))
  pub compare-value :
      (a b : r.T) → r.compare a b ≡ compare_int (to_int k (value a)) (to_int k (value b))
