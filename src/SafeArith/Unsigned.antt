-- ===== src/SafeArith/Unsigned.antt =====
-- An argument of the functor SafeUint: the numbers below 2 ^ w, with operations modulo 2 ^ w.
use Prim.Native.Nat.{compare}
use mathlib.Core.Option
use scilla.Base.{ℕ, ◌+◌, ◌-◌, ◌*◌, ◌/◌, ◌%◌, ◌^◌, ◌<◌, ◌≡◌, Option, none, some, ◌==◌, if◌then◌else◌}
use scilla.SafeArith.{IntRep}

abbrev pub nonzero {ℓ} : {A : Type ℓ} → ℕ → A → Option A
nonzero d n = if d == 0 then none else some n

pub record IsUnsigned (r : IntRep) (w : ℕ) : Type 0 where
  pub value : r.T → ℕ
  pub value-lt : (a : r.T) → value a < 2 ^ w
  pub value-zero : value r.zero ≡ 0
  pub value-one : value r.one ≡ 1
  pub value-add : (a b : r.T) → value (r.add a b) ≡ (value a + value b) % 2 ^ w
  pub value-sub : (a b : r.T) → value (r.sub a b) ≡ (value a + 2 ^ w - value b) % 2 ^ w
  pub value-mul : (a b : r.T) → value (r.mul a b) ≡ value a * value b % 2 ^ w
  pub value-div : (a b : r.T) → Option.map value (r.div a b) ≡ nonzero (value b) (value a / value b)
  pub value-rem : (a b : r.T) → Option.map value (r.rem a b) ≡ nonzero (value b) (value a % value b)
  pub compare-value : (a b : r.T) → r.compare a b ≡ compare (value a) (value b)
