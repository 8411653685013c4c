-- ===== src/Integer256/Int256/Text/RoundTrip.antt =====
-- What `to_string` of Int256 writes, `of_string` reads back.
use native.Mathlib.Decide.{dec_lt}
use mathlib.Core.Path.{subst}
use scilla.Base.{
  ℕ, ◌^◌, ◌<◌, ◌≤◌, ◌≡◌, refl, sym, ap, ◌∙◌, Bool, true, false, not, ◌&&◌, Option, none, some, List,
  [], ◌∷◌, ◌==◌, is_equal, arith, lt→ltb, le→ltb, if◌then◌else◌, Bool-cases, ==_iff, inl, inr,
}
use scilla.Integer256.{Uint128, Halves}
use scilla.Integer256.Documented.{IsUint128, whole, whole-lt}
use scilla.Integer256.Uint256.{compare, zero_256}
use scilla.Integer256.Uint256.Sums.{compare-whole, whole-zero_256}
use scilla.Integer256.Uint256.Text
use scilla.Integer256.Uint256.Text.RoundTrip.{of_string-to_string, zero_test}
use scilla.Integer256.Int256.{isneg, neg, min_int}
use scilla.Integer256.Int256.Signs.{isneg-whole, neg-whole, min_int-whole}
use scilla.Integer256.Int256.Text.{with_sign, signed, of_string, to_string}

module _ {u : Uint128} (h : IsUint128 u) where
  -- A number that is at most 2^255 passes the check of the sign.
  in_range :
      (i : Halves u)
      → whole h i ≤ 2 ^ 255
      → (isneg u i && not (is_equal (compare u i (min_int u)))) ≡ false
  in_range i le =
      rw (isneg-whole h i, compare-whole h i (min_int u), min_int-whole h) (ground arith)

  signed-read :
      (n : Bool) (s : List ℕ) (i : Halves u)
      → Text.of_string u s ≡ some i
      → whole h i ≤ 2 ^ 255
      → signed u n s ≡ some (if n then neg u i else i)
  unfolding signed with_sign
  signed-read n s i e le =
      ap
        (λ (o : Option (Halves u)). elim o as (λ _. Option (Halves u)) [
          | none ↦ none
          | some i ↦ with_sign u n i
        ])
        e
      ∙ rw (in_range i le) refl

  no_sign : (s : List ℕ) (i : Halves u) → Text.of_string u (45 ∷ s) ≡ some i → ⊥
  unfolding Text.of_string Text.read_chars Text.read_char
  no_sign s i e = cc

  not_empty :
      (i j : Halves u)
      → Text.to_string u 257 i ≡ some []
      → Text.of_string u [] ≡ some j
      → whole h j ≡ whole h i
      → ⊥
  unfolding Text.to_string Text.of_string Text.read_chars
  not_empty i j written read value =
      let zero_j : zero_256 u ≡ j = cc in
      let none_left : whole h i ≡ 0 =
        sym value ∙ sym (ap (λ (x : Halves u). whole h x) zero_j) ∙ whole-zero_256 h in
      let test : (whole h i == 0) ≡ true = rw none_left refl in
      let digit : Text.to_string u 257 i ≡ some (48 ∷ []) = rw (zero_test h i, test) refl in cc

  unsigned_read :
      (s : List ℕ) (i j : Halves u)
      → Text.to_string u 257 i ≡ some s
      → Text.of_string u s ≡ some j
      → whole h j ≡ whole h i
      → whole h i < 2 ^ 255
      → of_string u s ≡ some j
  unfolding of_string
  unsigned_read [] i j written read value lt =
      let bad : ⊥ = not_empty i j written read value in elim bad [ ]
  unsigned_read (c ∷ s) i j written read value lt = elim (Bool-cases (c == 45)) [
    | inl minus ↦
        let bad : ⊥ =
          no_sign s j
            (subst (λ d. Text.of_string u (d ∷ s) ≡ some j) ((==_iff c 45).0 minus) read) in
        elim bad [ ]
    | inr digit ↦ rw digit (signed-read false (c ∷ s) j read (omega arith))
  ]

  -- What `to_string` writes of an integer, `of_string` reads back as the same integer; the 257 rounds of its
  -- loop are enough.
  pub of_string-to_string_int :
      (i : Halves u)
      → (s : List ℕ) × (j : Halves u) × (to_string u 257 i ≡ some s)
        × (of_string u s ≡ some j)
        × (whole h j ≡ whole h i)
  unfolding to_string of_string
  of_string-to_string_int i = elim (dec_lt (whole h i) (2 ^ 255)) [
    | yes below ↦
        let (s, j, written, read, value) = of_string-to_string h i in
        let positive : isneg u i ≡ false =
          isneg-whole h i ∙ ap not (lt→ltb (whole h i) (2 ^ 255) below) in
        (s, j, rw positive written, unsigned_read s i j written read value below, value)
    | no above ↦
        let (s, j, written, read, value) = of_string-to_string h (neg u i) in
        let negative : isneg u i ≡ true =
          isneg-whole h i ∙ ap not (le→ltb (whole h i) (2 ^ 255) (omega arith)) in
        (
          45 ∷ s,
          neg u j,
          rw (negative, written) refl,
          signed-read true s j read (omega (arith, value, neg-whole h i, whole-lt h i)),
          neg-whole h j ∙ omega (arith, value, neg-whole h i, whole-lt h i),
        )
  ]
