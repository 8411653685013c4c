-- ===== src/Integer256/Uint256/Text.antt =====
-- src/lang/base/Integer256.ml: `of_string` and `to_string` of Uint256. A string is the list of its
-- characters' codes; 48 is that of the character 0.
pub mod RoundTrip
use scilla.Base.{
  ℕ, zero, suc, Bool, true, false, ◌&&◌, Option, none, some, List, [], ◌∷◌, ◌++◌, ltb, ◌==◌,
  if◌then◌else◌, is_equal, get_elem?,
}
use scilla.Integer256.{Uint128, Halves}
use scilla.Integer256.Uint256.{zero_256, add, mul, divrem, compare}

-- The characters of the digits.
abbrev pub digit_chars : List ℕ
digit_chars = 48 ∷ 49 ∷ 50 ∷ 51 ∷ 52 ∷ 53 ∷ 54 ∷ 55 ∷ 56 ∷ 57 ∷ []

module _ (u : Uint128) where
  abbrev pub ten : Halves u
  ten = record { high = u.zero; low = u.of_string (49 ∷ 48 ∷ []) }

  -- One character behind the number that `m` is ten times of; `none` is the exception Failure.
  unfoldable pub read_char : Halves u → ℕ → Option (Halves u)
  read_char m c =
      if c == 48
      then some m
      else if ltb 48 c && ltb c 58
      then some (add u m (record { high = u.zero; low = u.of_string (c ∷ []) }))
      else none

  -- The fold over the characters.
  unfoldable pub read_chars : Halves u → List ℕ → Option (Halves u)
  unfolding read_char
  read_chars i [] = some i
  read_chars i (c ∷ cs) = elim (read_char (mul u i ten) c) [
    | none ↦ none
    | some j ↦ read_chars j cs
  ]

  unfoldable pub of_string : List ℕ → Option (Halves u)
  of_string s = read_chars (zero_256 u) s

  -- The loop `app`, on fuel; `none` is an exception, or the end of the fuel.
  unfoldable pub append_digits : ℕ → Halves u → List ℕ → Option (List ℕ)
  append_digits zero i s = none
  append_digits (suc n) i s =
      let rest = append_digits n in
      if is_equal (compare u i (zero_256 u)) then some s else elim (divrem u i ten) [
        | none ↦ none
        | some (q, r) ↦ elim (rest q s) [
          | none ↦ none
          | some s' ↦ elim (get_elem? digit_chars (u.to_int r.low)) [
            | none ↦ none
            | some c ↦ some (s' ++ (c ∷ []))
          ]
        ]
      ]

  unfoldable pub to_string : ℕ → Halves u → Option (List ℕ)
  to_string fuel ui =
      if is_equal (compare u ui (zero_256 u)) then some (48 ∷ []) else append_digits fuel ui []
