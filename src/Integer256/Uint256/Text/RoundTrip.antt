-- ===== src/Integer256/Uint256/Text/RoundTrip.antt =====
-- What `to_string` writes, `of_string` reads back.
use mathlib.Core.Option
use native.Mathlib.Nat.{pow-suc}
use native.Mathlib.Decide.{ℕ_discrete}
use scilla.Base.{
  ℕ, zero, suc, ◌+◌, ◌*◌, ◌/◌, ◌%◌, ◌^◌, ◌<◌, ◌≡◌, ◌≢◌, refl, sym, ap, ◌∙◌, true, false, ◌&&◌, none,
  some, List, [], ◌∷◌, ◌++◌, ltb, ◌==◌, is_equal, get_elem?, arith, map-eq-some, Option-cases, inl,
  inr,
}
use scilla.Integer256.{Uint128, Halves}
use scilla.Integer256.Documented.{IsUint128, whole, whole-lt}
use scilla.Integer256.Uint256.{zero_256, add, mul, divrem, compare}
use scilla.Integer256.Uint256.Sums.{add-whole, compare-whole, whole-zero_256}
use scilla.Integer256.Uint256.Products.{mul-whole}
use scilla.Integer256.Uint256.Division.{divrem-whole, numbers}
use scilla.Integer256.Uint256.Text.{
  digit_chars, ten, read_char, read_chars, of_string, append_digits, to_string,
}

digit_char : (d : ℕ) → d < 10 → get_elem? digit_chars d ≡ some (48 + d)
digit_char zero h = refl
digit_char (suc zero) h = refl
digit_char (suc (suc zero)) h = refl
digit_char (suc (suc (suc zero))) h = refl
digit_char (suc (suc (suc (suc zero)))) h = refl
digit_char (suc (suc (suc (suc (suc zero))))) h = refl
digit_char (suc (suc (suc (suc (suc (suc zero)))))) h = refl
digit_char (suc (suc (suc (suc (suc (suc (suc zero))))))) h = refl
digit_char (suc (suc (suc (suc (suc (suc (suc (suc zero)))))))) h = refl
digit_char (suc (suc (suc (suc (suc (suc (suc (suc (suc zero))))))))) h = refl
digit_char (suc (suc (suc (suc (suc (suc (suc (suc (suc (suc d)))))))))) h = absurd (omega arith)

module _ {u : Uint128} (h : IsUint128 u) where
  open h use {value, value-zero, value-of_string, value-of_string_ten, to_int-value}

  whole-ten : whole h (ten u) ≡ 10
  whole-ten = omega (arith, value-zero, value-of_string_ten)

  read_more :
      (i : Halves u) (cs ds : List ℕ)
      → read_chars u i (cs ++ ds)
        ≡ elim (read_chars u i cs) [ none ↦ none | some j ↦ read_chars u j ds ]
  unfolding read_chars
  read_more i [] ds = refl
  read_more i (c ∷ cs) ds = elim (Option-cases (read_char u (mul u i (ten u)) c)) [
    | inl e ↦ rw (read_chars, e) refl
    | inr (j, e) ↦ rw (read_chars, e) (read_more j cs ds)
  ]

  -- A digit behind a number.
  read_digit :
      (j : Halves u) (d : ℕ)
      → d < 10
      → whole h j * 10 + d < 2 ^ 256
      → (k : Halves u) × (read_chars u j ((48 + d) ∷ []) ≡ some k)
        × (whole h k ≡ whole h j * 10 + d)
  unfolding read_chars read_char
  read_digit j d small bound =
      let m = mul u j (ten u) in
      let c = 48 + d in
      let part : Halves u = record { high = u.zero; low = u.of_string (c ∷ []) } in
      let value_m : whole h m ≡ whole h j * 10 =
        mul-whole h j (ten u) ∙ ap (λ t. whole h j * t % 2 ^ 256) whole-ten ∙ omega arith in
      elim (ℕ_discrete d 0) [
        | yes none_left ↦
            let test : (c == 48) ≡ true = ground arith in
            (m, rw (read_chars, read_char, test) refl, omega (arith, value_m))
        | no some_left ↦
            let test : (c == 48) ≡ false = ground arith in
            let digit : (ltb 48 c && ltb c 58) ≡ true = ground arith in
            (
              add u m part,
              rw (read_chars, read_char, test, digit) refl,
              add-whole h m part ∙ omega (arith, value_m, value-zero, value-of_string d small),
            )
      ]

  pub zero_test : (i : Halves u) → is_equal (compare u i (zero_256 u)) ≡ (whole h i == 0)
  zero_test i = rw (compare-whole h i (zero_256 u), whole-zero_256 h) (ground arith)

  -- A quotient by ten, and the character of the remainder.
  digit_step :
      (i : Halves u)
      → (q : Halves u) × (r : Halves u) × (divrem u i (ten u) ≡ some (q, r))
        × (whole h q ≡ whole h i / 10)
        × (get_elem? digit_chars (u.to_int r.low) ≡ some (48 + whole h i % 10))
  digit_step i =
      let law : Option.map (numbers h) (divrem u i (ten u))
          ≡ some (whole h i / 10, whole h i % 10) =
        divrem-whole h i (ten u) ∙ rw whole-ten refl in
      let (p, e, parts) = map-eq-some (numbers h) (divrem u i (ten u)) law in
      let q = ap (λ t. t.0) parts in
      let r = ap (λ t. t.1) parts in
      let small : value p.1.low ≡ whole h i % 10 = omega arith in
      let read : u.to_int p.1.low ≡ whole h i % 10 = to_int-value p.1.low (omega arith) ∙ small in
      (p.0, p.1, e, q, ap (get_elem? digit_chars) read ∙ digit_char (whole h i % 10) (omega arith))

  abbrev AreDigits : ℕ → Halves u → List ℕ → Type 0
  AreDigits n i s =
      (append_digits u n i [] ≡ some s)
      × ((j : Halves u) × (read_chars u (zero_256 u) s ≡ some j) × (whole h j ≡ whole h i))

  no_digits : (n : ℕ) (i : Halves u) → whole h i ≡ 0 → (s : List ℕ) × AreDigits (suc n) i s
  unfolding append_digits read_chars
  no_digits n i none_left =
      let test : (whole h i == 0) ≡ true = ground arith in
      (
        [],
        (
          rw (append_digits, zero_test i, test) refl,
          (zero_256 u, refl, whole-zero_256 h ∙ sym none_left),
        ),
      )

  -- One more digit.
  more_digits :
      (n : ℕ) (i : Halves u)
      → whole h i ≢ 0
      → (q r : Halves u) → divrem u i (ten u) ≡ some (q, r)
      → get_elem? digit_chars (u.to_int r.low) ≡ some (48 + whole h i % 10)
      → (s : List ℕ) → append_digits u n q [] ≡ some s
      → (j : Halves u) → read_chars u (zero_256 u) s ≡ some j
      → whole h j ≡ whole h i / 10
      → (s' : List ℕ) × AreDigits (suc n) i s'
  unfolding append_digits
  more_digits n i some_left q r e char s written j read value_j =
      let test : (whole h i == 0) ≡ false = ground arith in
      let (k, read_k, value_k) =
        read_digit j (whole h i % 10) (omega arith) (omega (arith, whole-lt h i)) in
      (
        s ++ ((48 + whole h i % 10) ∷ []),
        (
          rw (append_digits, zero_test i, test, e, written, char) refl,
          (
            k,
            read_more (zero_256 u) s ((48 + whole h i % 10) ∷ []) ∙ rw read read_k,
            value_k ∙ omega arith,
          ),
        ),
      )

  -- The digits of a number, and what they are read back as.
  digits_read : (n : ℕ) (i : Halves u) → whole h i < 2 ^ n → (s : List ℕ) × AreDigits (suc n) i s
  digits_read zero i bound = no_digits zero i (omega arith)
  digits_read (suc n) i bound =
      let rest = digits_read n in
      elim (ℕ_discrete (whole h i) 0) [
        | yes none_left ↦ no_digits (suc n) i none_left
        | no some_left ↦
            let (q, r, e, value_q, char) = digit_step i in
            let double = pow-suc 2 n in
            let (s', (written, (j, read, value_j))) = rest q (omega arith) in
            more_digits (suc n) i some_left q r e char s' written j read (omega arith)
      ]

  -- What `to_string` writes, `of_string` reads back as the same number. Fuel for 257 rounds of the loop
  -- is enough for every number. The words of 128 bits behave as stdint documents.
  pub of_string-to_string :
      (i : Halves u)
      → (s : List ℕ) × (j : Halves u) × (to_string u 257 i ≡ some s)
        × (of_string u s ≡ some j)
        × (whole h j ≡ whole h i)
  unfolding to_string of_string
  of_string-to_string i = elim (ℕ_discrete (whole h i) 0) [
    | yes none_left ↦
        let test : (whole h i == 0) ≡ true = ground arith in
        let (j, read, value_j) =
          read_digit (zero_256 u) 0 (omega arith) (omega (arith, whole-zero_256 h)) in
        (
          48 ∷ [],
          j,
          rw (zero_test i, test) refl,
          read,
          value_j ∙ omega (arith, whole-zero_256 h, none_left),
        )
    | no some_left ↦
        let test : (whole h i == 0) ≡ false = ground arith in
        let (s, (written, (j, read, value_j))) = digits_read 256 i (whole-lt h i) in
        (s, j, rw (zero_test i, test) written, read, value_j)
  ]
