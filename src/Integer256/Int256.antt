-- ===== src/Integer256/Int256.antt =====
-- src/lang/base/Integer256.ml: the module Int256, two's complement on the halves of Uint256. The operations
-- that are those of Uint256 are taken from there; `shift_right`, which always fails, is left out.
pub mod Signs
pub mod Division
pub mod Text
use Prim.Native.Nat.{Ordering}
use mathlib.Core.Option
use scilla.Base.{ℕ, Bool, true, false, not, ◌&&◌, Option, none, some, if◌then◌else◌}
use scilla.Integer256.{Uint128, Halves}
use scilla.Integer256.Uint256
use scilla.Integer256.Uint256.{zero_256, one_256}

module _ (u : Uint128) where
  unfoldable pub max_int : Halves u
  max_int = Uint256.clearbit u (Uint256.max_int u) 255

  unfoldable pub min_int : Halves u
  min_int = Uint256.setbit u (zero_256 u) 255

  unfoldable pub isneg : Halves u → Bool
  isneg a = Uint256.isset u a 255

  unfoldable pub neg : Halves u → Halves u
  neg a = Uint256.add u (Uint256.lognot u a) (one_256 u)

  -- `none` is the exception Division_by_zero.
  unfoldable pub divrem : Halves u → Halves u → Option (Halves u × Halves u)
  unfolding isneg
  divrem x y =
      if isneg x
      then if isneg y
        then Option.map (λ p. (p.0, neg p.1)) (Uint256.divrem u (neg x) (neg y))
        else Option.map (λ p. (neg p.0, neg p.1)) (Uint256.divrem u (neg x) y)
      else if isneg y
      then Option.map (λ p. (neg p.0, p.1)) (Uint256.divrem u x (neg y))
      else Uint256.divrem u x y

  unfoldable pub div : Halves u → Halves u → Option (Halves u)
  div a b = Option.map (λ p. p.0) (divrem a b)

  unfoldable pub rem : Halves u → Halves u → Option (Halves u)
  rem a b = Option.map (λ p. p.1) (divrem a b)

  unfoldable pub abs : Halves u → Halves u
  abs a = if isneg a then neg a else a

  unfoldable pub compare : Halves u → Halves u → Ordering
  compare a b =
      if isneg a && not (isneg b)
      then Ordering.lt
      else if not (isneg a) && isneg b
      then Ordering.gt
      else Uint256.compare u a b
