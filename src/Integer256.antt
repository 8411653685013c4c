-- ===== src/Integer256.antt =====
-- src/lang/base/Integer256.ml: 256 bit integers, built from two 128 bit halves of the package stdint.
-- The package is no part of the repository: it is the interface `Uint128`, and its documented behaviour
-- is the record of `Integer256.Documented`.
pub mod Documented
pub mod Uint256
pub mod Int256
pub mod Toy
mod Runs
use Prim.Native.Nat.{Ordering}
use scilla.Base.{ℕ, List}

-- The operations of `Stdint.Uint128` that the file uses. A shift is by less than 128 bits, and a string,
-- the list of its characters' codes, is the literal of a number up to 10.
pub record Uint128 : Type 1 where
  pub Word : Type 0
  pub zero : Word
  pub one : Word
  pub max_int : Word
  pub add : Word → Word → Word
  pub sub : Word → Word → Word
  pub mul : Word → Word → Word
  pub div : Word → Word → Word
  pub rem : Word → Word → Word
  pub shift_left : Word → ℕ → Word
  pub shift_right : Word → ℕ → Word
  pub logand : Word → Word → Word
  pub logor : Word → Word → Word
  pub logxor : Word → Word → Word
  pub lognot : Word → Word
  pub compare : Word → Word → Ordering
  pub of_string : List ℕ → Word
  pub to_int : Word → ℕ

module _ (u : Uint128) where
  open u use {Word, add, shift_left, shift_right}

  -- type uint256
  pub record Halves : Type 0 where
    pub high : Word
    pub low : Word

  -- The lower and the higher 64 bits of a half, and their join.
  unfoldable pub getlow : Word → Word
  getlow x = shift_right (shift_left x 64) 64

  unfoldable pub gethigh : Word → Word
  gethigh x = shift_right x 64

  unfoldable pub highlow : Word → Word → Word
  unfolding getlow
  highlow a b = add (shift_left a 64) (getlow b)
