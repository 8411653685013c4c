-- ===== src/Integer256/Int256/Division.antt =====
-- Division of two's complement rounds to 0.
use mathlib.Core.Option
use mathlib.Core.Path.{ap₂}
use native.Mathlib.Nat.{mod-eq_of_lt}
use scilla.Base.{
  ℕ, ◌/◌, ◌%◌, ◌≡◌, refl, sym, ap, ◌∙◌, Bool, true, false, not, Option, none, some, ◌==◌,
  if◌then◌else◌, arith, Bool-cases, inl, inr,
}
use scilla.Integer256.{Uint128, Halves}
use scilla.Integer256.Documented.{IsUint128, whole, whole-lt}
use scilla.Integer256.Uint256
use scilla.Integer256.Uint256.Division.{numbers, quotient_remainder, divrem-whole}
use scilla.Integer256.Int256.{isneg, neg, divrem, div, rem}
use scilla.Integer256.Int256.Signs.{isneg-whole, neg-whole}
use scilla.SafeArith.Integers.{
  pos, to_int, to_word, magnitude, is_neg, signed, differ, quot, remainder,
}
use scilla.SafeArith.SafeInt.Words.{neg-word}

map-if {ℓ κ} :
    {A : Type ℓ} {B : Type κ} (f : A → B) (t : Bool) (a : A)
    → Option.map f (if t then none else some a) ≡ (if t then none else some (f a))
map-if f true a = refl
map-if f false a = refl

unmapped {ℓ κ} : {A : Type ℓ} {B : Type κ} (o : Option (A × B)) → o ≡ Option.map (λ p. (p.0, p.1)) o
unmapped none = refl
unmapped (some p) = refl

double_not : (b : Bool) → not b ≡ false → b ≡ true
double_not true e = refl
double_not false e = cc

module _ {u : Uint128} (h : IsUint128 u) where
  -- What a function does to a quotient or a remainder: it keeps it, or negates it.
  abbrev Signs : (Halves u → Halves u) → Bool → Type 0
  Signs f s = (a : Halves u) → whole h (f a) ≡ to_word 255 (signed s (whole h a))

  keeps : Signs (λ a. a) false
  keeps a = sym (mod-eq_of_lt (whole-lt h a))

  negates : Signs (neg u) true
  negates a =
      let small = whole-lt h a in
      let e = neg-word 255 (whole h a) in
      let same_word = mod-eq_of_lt small in neg-whole h a ∙ sym (e ∙ ground arith)

  abbrev words : Bool → Bool → ℕ × ℕ → ℕ × ℕ
  words s t p = (to_word 255 (signed s p.0), to_word 255 (signed t p.1))

  map-Signs :
      (f g : Halves u → Halves u) (s t : Bool)
      → Signs f s
      → Signs g t
      → (o : Option (Halves u × Halves u))
      → Option.map (numbers h) (Option.map (λ p. (f p.0, g p.1)) o)
        ≡ Option.map (words s t) (Option.map (numbers h) o)
  map-Signs f g s t hf hg none = refl
  map-Signs f g s t hf hg (some p) = ap some (ap₂ (λ a b. (a, b)) (hf p.0) (hg p.1))

  abbrev quotient_remainder_int : ℕ → ℕ → Option (ℕ × ℕ)
  quotient_remainder_int m n =
      if n == 0
      then none
      else some (
        to_word 255 (quot (to_int 255 m) (to_int 255 n)),
        to_word 255 (remainder (to_int 255 m) (to_int 255 n)),
      )

  -- Division of the magnitudes, with the signs put behind.
  signed_division :
      (f g : Halves u → Halves u) (x y x' y' : Halves u)
      → Signs f (differ (is_neg (to_int 255 (whole h x))) (is_neg (to_int 255 (whole h y))))
      → Signs g (is_neg (to_int 255 (whole h x)))
      → whole h x' ≡ magnitude (to_int 255 (whole h x))
      → whole h y' ≡ magnitude (to_int 255 (whole h y))
      → Option.map (numbers h) (Option.map (λ p. (f p.0, g p.1)) (Uint256.divrem u x' y'))
        ≡ quotient_remainder_int (whole h x) (whole h y)
  signed_division f g x y x' y' hf hg ex ey =
      let s = differ (is_neg (to_int 255 (whole h x))) (is_neg (to_int 255 (whole h y))) in
      let t = is_neg (to_int 255 (whole h x)) in
      let ly = whole-lt h y in
      let zero_test : (magnitude (to_int 255 (whole h y)) == 0) ≡ (whole h y == 0) = ground arith in
      map-Signs f g s t hf hg (Uint256.divrem u x' y')
      ∙ ap (Option.map (words s t)) (divrem-whole h x' y' ∙ ap₂ quotient_remainder ex ey)
      ∙ map-if (words s t) (magnitude (to_int 255 (whole h y)) == 0) _
      ∙ ap
          (λ b.
            if b
            then none
            else some (
                words s t (
                  magnitude (to_int 255 (whole h x)) / magnitude (to_int 255 (whole h y)),
                  magnitude (to_int 255 (whole h x)) % magnitude (to_int 255 (whole h y)),
                )))
          zero_test

  positive_word : (a : Halves u) → isneg u a ≡ false → to_int 255 (whole h a) ≡ pos (whole h a)
  positive_word a e = rw (double_not _ (sym (isneg-whole h a) ∙ e)) refl

  -- The magnitude of a negative word is its negation.
  negative_word :
      (a : Halves u)
      → isneg u a ≡ true
      → (is_neg (to_int 255 (whole h a)) ≡ true)
        × (whole h (neg u a) ≡ magnitude (to_int 255 (whole h a)))
  negative_word a e =
      let la = whole-lt h a in
      let e' = sym (isneg-whole h a) ∙ e in (ground arith, neg-whole h a ∙ ground arith)

  -- `divrem` answers quotient and remainder of the integers, and raises Division_by_zero just for 0.
  pub divrem_int256-whole :
      (x y : Halves u)
      → Option.map (numbers h) (divrem u x y) ≡ quotient_remainder_int (whole h x) (whole h y)
  unfolding divrem
  divrem_int256-whole x y = elim (Bool-cases (isneg u x)) [
    | inl nx ↦
        let (sx, mx) = negative_word x nx in
        elim (Bool-cases (isneg u y)) [
          | inl ny ↦
              let (sy, my) = negative_word y ny in
              rw (nx, ny)
                (signed_division (λ a. a) (neg u) x y (neg u x) (neg u y) (rw (sx, sy) keeps)
                  (rw sx negates) mx my)
          | inr py ↦
              let ey = positive_word y py in
              rw (nx, py)
                (signed_division (neg u) (neg u) x y (neg u x) y (rw (sx, ey) negates)
                  (rw sx negates) mx (rw ey refl))
        ]
    | inr px ↦
        let ex = positive_word x px in
        elim (Bool-cases (isneg u y)) [
          | inl ny ↦
              let (sy, my) = negative_word y ny in
              rw (px, ny)
                (signed_division (neg u) (λ a. a) x y x (neg u y) (rw (ex, sy) negates)
                  (rw ex keeps) (rw ex refl) my)
          | inr py ↦
              let ey = positive_word y py in
              rw (px, py)
                (ap (Option.map (numbers h)) (unmapped (Uint256.divrem u x y))
                  ∙ signed_division (λ a. a) (λ a. a) x y x y (rw (ex, ey) keeps) (rw ex keeps)
                      (rw ex refl) (rw ey refl))
        ]
  ]

  pub div_int256-whole :
      (x y : Halves u)
      → Option.map (whole h) (div u x y) ≡ (
          if whole h y == 0
          then none
          else some (to_word 255 (quot (to_int 255 (whole h x)) (to_int 255 (whole h y)))))
  unfolding div
  div_int256-whole x y =
      Option.map-map (whole h) (λ p. p.0) (divrem u x y)
      ∙ Option.comp-map (λ p. p.0) (numbers h) (divrem u x y)
      ∙ ap (Option.map (λ p. p.0)) (divrem_int256-whole x y)
      ∙ map-if (λ p. p.0) (whole h y == 0) _

  pub rem_int256-whole :
      (x y : Halves u)
      → Option.map (whole h) (rem u x y) ≡ (
          if whole h y == 0
          then none
          else some (to_word 255 (remainder (to_int 255 (whole h x)) (to_int 255 (whole h y)))))
  unfolding rem
  rem_int256-whole x y =
      Option.map-map (whole h) (λ p. p.1) (divrem u x y)
      ∙ Option.comp-map (λ p. p.1) (numbers h) (divrem u x y)
      ∙ ap (Option.map (λ p. p.1)) (divrem_int256-whole x y)
      ∙ map-if (λ p. p.1) (whole h y == 0) _
