-- ===== src/Integer256/Int256/Text.antt =====
-- src/lang/base/Integer256.ml: `of_string` and `to_string` of Int256. A string is the list of its
-- characters' codes; 45 is that of the minus sign.
pub mod RoundTrip
use scilla.Base.{
  ℕ, Bool, true, false, not, ◌&&◌, Option, none, some, List, [], ◌∷◌, ◌==◌, if◌then◌else◌, is_equal,
}
use scilla.Integer256.{Uint128, Halves}
use scilla.Integer256.Uint256.{compare}
use scilla.Integer256.Uint256.Text
use scilla.Integer256.Int256.{isneg, neg, min_int}

module _ (u : Uint128) where
  -- A number as read, with the sign that stood before it.
  unfoldable pub with_sign : Bool → Halves u → Option (Halves u)
  unfolding isneg min_int neg
  with_sign n i =
      if isneg u i && not (is_equal (compare u i (min_int u)))
      then none
      else some (if n then neg u i else i)

  unfoldable pub signed : Bool → List ℕ → Option (Halves u)
  unfolding with_sign
  signed n s' = elim (Text.of_string u s') [ none ↦ none | some i ↦ with_sign n i ]

  -- `none` is the exception Failure, or Invalid_argument for the empty string.
  unfoldable pub of_string : List ℕ → Option (Halves u)
  unfolding signed
  of_string [] = none
  of_string (c ∷ s') = if c == 45 then signed true s' else signed false (c ∷ s')

  -- The fuel is that of the digits' loop.
  unfoldable pub to_string : ℕ → Halves u → Option (List ℕ)
  unfolding isneg neg
  to_string fuel i =
      if isneg u i
      then elim (Text.to_string u fuel (neg u i)) [ none ↦ none | some s ↦ some (45 ∷ s) ]
      else Text.to_string u fuel i
