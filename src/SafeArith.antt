-- ===== src/SafeArith.antt =====
-- src/lang/base/SafeArith.ml: integer arithmetic that raises an exception instead of wrapping around.
-- The two functors are sections over their argument, `IntRep`.
pub mod SafeUint
pub mod SafeInt
pub mod Integers
pub mod Signed
pub mod Unsigned
pub mod Uint256
pub mod Int256
mod Runs
use Prim.Native.Nat.{Ordering}
use mathlib.Core.Option
use scilla.Base.{ℕ, Option, none, some, ◌≡◌, refl, ap}

pub data Exn : Type 0 where
  int_overflow : Exn
  int_underflow : Exn
  division_by_zero : Exn

-- What an operation answers: a value, or the exception that it raises.
pub data Checked {ℓ} (A : Type ℓ) : Type ℓ where
  returned : A → Checked A
  raised : Exn → Checked A

abbrev pub bind {ℓ κ} : {A : Type ℓ} {B : Type κ} → Checked A → (A → Checked B) → Checked B
bind (returned a) f = f a
bind (raised e) f = raised e

abbrev pub map {ℓ κ} : {A : Type ℓ} {B : Type κ} → (A → B) → Checked A → Checked B
map f (returned a) = returned (f a)
map f (raised e) = raised e

-- An unchecked division, whose `none` is the exception Division_by_zero.
abbrev pub divided {ℓ} : {A : Type ℓ} → Option A → Checked A
divided none = raised division_by_zero
divided (some a) = returned a

-- module type IntRep. The number that `compare` returns is read as -1, 0 or 1.
pub record IntRep : Type 1 where
  pub T : Type 0
  pub compare : T → T → Ordering
  pub add : T → T → T
  pub sub : T → T → T
  pub mul : T → T → T
  pub div : T → T → Option T
  pub rem : T → T → Option T
  pub zero : T
  pub one : T
  pub min_int : T

module _ {ℓ κ} {A : Type ℓ} {B : Type κ} (f : A → B) where
  pub map-eq-returned :
      (x : Checked A) {b : B} → map f x ≡ returned b → (a : A) × (x ≡ returned a) × (f a ≡ b)
  map-eq-returned (returned a) e = (a, refl, cc)
  map-eq-returned (raised _) e = cc

  pub map-eq-raised : (x : Checked A) {e : Exn} → map f x ≡ raised e → x ≡ raised e
  map-eq-raised (returned a) e = cc
  map-eq-raised (raised _) e = ap raised cc

  pub divided-map : (x : Option A) → divided (Option.map f x) ≡ map f (divided x)
  divided-map none = refl
  divided-map (some a) = refl
