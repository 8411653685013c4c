-- ===== src/Integer256/Uint256/Octets/RoundTrip.antt =====
-- Bytes of a 256 bit integer are its digits in base 256, of either order.
use mathlib.Core.List.{reverse, reverse-cons, reverse-append, reverse-reverse}
use mathlib.Core.Path.{ap₂}
use scilla.Base.{
  zero_add, suc_add, ℕ, zero, suc, ◌+◌, ◌*◌, ◌^◌, ◌≤◌, ◌<◌, ◌≡◌, refl, sym, ap, ◌∙◌, Option, none,
  some, [], ◌∷◌, ◌++◌, length, length-append, take, drop, All, All-append, arith,
}
use scilla.Base.Bytes.{Bytes, IsByte, be, be_digits, slice, splice}
use scilla.Base.Bytes.Laws.{
  splice-splice, drop-drop, length-slice, slice-splice, length-splice, splice-IsByte,
}
use scilla.Base.Bytes.Numbers.{length-be_digits, be_digits-IsByte, be-be_digits, be_digits-be}
use scilla.Integer256.{Uint128, Halves}
use scilla.Integer256.Documented.{IsUint128, whole, whole-lt}
use scilla.Integer256.Uint256.Octets.{
  WordOctets, to_bytes_big_endian, to_bytes_little_endian, of_bytes_big_endian,
  of_bytes_little_endian,
}
use native.Mathlib.Nat.{pow-suc, mul_assoc, add-mul, mod-eq_of_lt}

pow_add : (m n : ℕ) → 256 ^ (m + n) ≡ 256 ^ m * 256 ^ n
pow_add zero n = rw (zero_add n) (omega arith)
pow_add (suc m) n = rw (suc_add m n, pow-suc 256 (m + n), pow-suc 256 m, pow_add m n) (grind arith)

be-append : (xs ys : Bytes) → be (xs ++ ys) ≡ be xs * 256 ^ length ys + be ys
unfolding be
be-append [] ys = omega arith
be-append (x ∷ xs) ys =
    rw (length-append xs ys, pow_add (length xs) (length ys), be-append xs ys)
      (omega (
        arith,
        add-mul (x * 256 ^ length xs) (be xs) (256 ^ length ys),
        mul_assoc x (256 ^ length xs) (256 ^ length ys),
      ))

pub length-reverse : (xs : Bytes) → length (reverse xs) ≡ length xs
length-reverse [] = refl
length-reverse (x ∷ xs) =
    rw (reverse-cons x xs) (length-append (reverse xs) (x ∷ []) ∙ omega (arith, length-reverse xs))

pub reverse-IsByte : (xs : Bytes) → All IsByte xs → All IsByte (reverse xs)
reverse-IsByte [] h = tt
reverse-IsByte (x ∷ xs) (b, h) =
    rw (reverse-cons x xs) (All-append IsByte (reverse xs) (x ∷ []) (reverse-IsByte xs h) (b, tt))

length-reverse_digits : (n v : ℕ) → length (reverse (be_digits n v)) ≡ n
length-reverse_digits n v = length-reverse (be_digits n v) ∙ length-be_digits n v

take-add : (m n : ℕ) (xs : Bytes) → take (m + n) xs ≡ take m xs ++ take n (drop m xs)
take-add zero n xs = ap (λ (k : ℕ). take k xs) (zero_add n)
take-add (suc m) n [] = rw (suc_add m n) (no_bytes n)
  where
    no_bytes : (k : ℕ) → [] ≡ take {A = ℕ} k []
    no_bytes zero = refl
    no_bytes (suc k) = refl
take-add (suc m) n (x ∷ xs) = rw (suc_add m n) (ap (λ (r : Bytes). x ∷ r) (take-add m n xs))

slice_halves :
    (off : ℕ) (buf : Bytes) → slice off 32 buf ≡ slice off 16 buf ++ slice (off + 16) 16 buf
slice_halves off buf =
    take-add 16 16 (drop off buf)
    ∙ ap (λ (r : Bytes). slice off 16 buf ++ take 16 r) (drop-drop off 16 buf)

-- The number of two blocks of 16 bytes.
be_halves :
    (xs ys : Bytes) (a b : ℕ)
    → length ys ≡ 16
    → a ≡ be xs
    → b ≡ be ys
    → a * 2 ^ 128 + b ≡ be (xs ++ ys)
be_halves xs ys a b size p q = sym (be-append xs ys ∙ rw (size, ← p, ← q) refl)

-- The digits of a number of two halves.
digits_halves :
    (a b : ℕ)
    → a < 2 ^ 128
    → b < 2 ^ 128
    → be_digits 32 (a * 2 ^ 128 + b) ≡ be_digits 16 a ++ be_digits 16 b
digits_halves a b ha hb =
    let bs = be_digits 16 a ++ be_digits 16 b in
    let bytes : All IsByte bs =
      All-append IsByte (be_digits 16 a) (be_digits 16 b) (be_digits-IsByte 16 a)
        (be_digits-IsByte 16 b) in
    let size : length bs ≡ 32 =
      length-append (be_digits 16 a) (be_digits 16 b)
      ∙ omega (arith, length-be_digits 16 a, length-be_digits 16 b) in
    let value : be bs ≡ a * 2 ^ 128 + b =
      be-append (be_digits 16 a) (be_digits 16 b)
      ∙ rw (length-be_digits 16 b, be-be_digits 16 a, be-be_digits 16 b) (omega arith) in
    ap₂ be_digits (sym size) (sym value) ∙ be_digits-be bs bytes

-- The documented behaviour of the conversions of stdint, for a buffer of bytes that is long enough.
pub record IsWordOctets {u : Uint128} (h : IsUint128 u) (b : WordOctets u) : Type 0 where
  pub to_bytes_big_endian-splice :
      (x : u.Word) (buf : Bytes) (off : ℕ)
      → off + 16 ≤ length buf
      → b.to_bytes_big_endian x buf off ≡ some (splice off (be_digits 16 (h.value x)) buf)
  pub to_bytes_little_endian-splice :
      (x : u.Word) (buf : Bytes) (off : ℕ)
      → off + 16 ≤ length buf
      → b.to_bytes_little_endian x buf off
        ≡ some (splice off (reverse (be_digits 16 (h.value x))) buf)
  pub of_bytes_big_endian-slice :
      (buf : Bytes) (off : ℕ)
      → All IsByte buf
      → off + 16 ≤ length buf
      → (x : u.Word) × (b.of_bytes_big_endian buf off ≡ some x)
        × (h.value x ≡ be (slice off 16 buf))
  pub of_bytes_little_endian-slice :
      (buf : Bytes) (off : ℕ)
      → All IsByte buf
      → off + 16 ≤ length buf
      → (x : u.Word) × (b.of_bytes_little_endian buf off ≡ some x)
        × (h.value x ≡ be (reverse (slice off 16 buf)))

-- A call that goes on with the result of another.
goes_on :
    {A B : Type 0} (f : A → Option B) {o : Option A} {a : A}
    → o ≡ some a
    → (elim o as (λ _. Option B) [ none ↦ none | some x ↦ f x ]) ≡ f a
goes_on {A} {B} f e =
    ap (λ (o : Option A). elim o as (λ _. Option B) [ none ↦ none | some x ↦ f x ]) e

-- Two blocks of 16 bytes, one behind the other.
two_blocks :
    (xs ys buf : Bytes) (off : ℕ)
    → length xs ≡ 16
    → length ys ≡ 16
    → off + 32 ≤ length buf
    → (off + 16 + 16 ≤ length (splice off xs buf))
      × (splice (off + 16) ys (splice off xs buf) ≡ splice off (xs ++ ys) buf)
two_blocks xs ys buf off sx sy fits = (
  omega (arith, length-splice off xs buf (omega arith)),
  ap (λ (n : ℕ). splice (off + n) ys (splice off xs buf)) (sym sx)
      ∙ splice-splice off xs ys buf (omega arith),
)

module _ {u : Uint128} (h : IsUint128 u) {b : WordOctets u} (d : IsWordOctets h b) where
  -- `to_bytes_big_endian` writes the 32 digits of the number in base 256, the highest first, and changes no
  -- other byte of a buffer that has room for them.
  pub to_bytes_big_endian-digits :
      (ui : Halves u) (buf : Bytes) (off : ℕ)
      → off + 32 ≤ length buf
      → to_bytes_big_endian b ui buf off ≡ some (splice off (be_digits 32 (whole h ui)) buf)
  unfolding to_bytes_big_endian
  to_bytes_big_endian-digits ui buf off fits =
      let hi = be_digits 16 (h.value ui.high) in
      let lo = be_digits 16 (h.value ui.low) in
      let (room, joined) =
        two_blocks hi lo buf off (length-be_digits 16 _) (length-be_digits 16 _) fits in
      goes_on (λ (buf' : Bytes). b.to_bytes_big_endian ui.low buf' (off + 16))
        (d.to_bytes_big_endian-splice ui.high buf off (omega arith))
      ∙ d.to_bytes_big_endian-splice ui.low (splice off hi buf) (off + 16) room
      ∙ ap some (
          joined
          ∙ ap (λ (ds : Bytes). splice off ds buf)
              (sym (
                digits_halves (h.value ui.high) (h.value ui.low) (h.value-lt ui.high)
                  (h.value-lt ui.low))))

  -- `to_bytes_little_endian` writes them the lowest first.
  pub to_bytes_little_endian-digits :
      (ui : Halves u) (buf : Bytes) (off : ℕ)
      → off + 32 ≤ length buf
      → to_bytes_little_endian b ui buf off
        ≡ some (splice off (reverse (be_digits 32 (whole h ui))) buf)
  unfolding to_bytes_little_endian
  to_bytes_little_endian-digits ui buf off fits =
      let hi = be_digits 16 (h.value ui.high) in
      let lo = be_digits 16 (h.value ui.low) in
      let (room, joined) =
        two_blocks (reverse lo) (reverse hi) buf off (length-reverse_digits 16 _)
          (length-reverse_digits 16 _) fits in
      goes_on (λ (buf' : Bytes). b.to_bytes_little_endian ui.high buf' (off + 16))
        (d.to_bytes_little_endian-splice ui.low buf off (omega arith))
      ∙ d.to_bytes_little_endian-splice ui.high (splice off (reverse lo) buf) (off + 16) room
      ∙ ap some (
          joined
          ∙ ap (λ (ds : Bytes). splice off ds buf)
              (sym (reverse-append hi lo)
                ∙ ap reverse (
                    sym (
                      digits_halves (h.value ui.high) (h.value ui.low) (h.value-lt ui.high)
                        (h.value-lt ui.low)))))

  -- `of_bytes_big_endian` reads the number of the 32 bytes, the highest first.
  pub of_bytes_big_endian-be :
      (buf : Bytes) (off : ℕ)
      → All IsByte buf
      → off + 32 ≤ length buf
      → (j : Halves u) × (of_bytes_big_endian b buf off ≡ some j)
        × (whole h j ≡ be (slice off 32 buf))
  unfolding of_bytes_big_endian
  of_bytes_big_endian-be buf off bytes fits =
      let (high, read_high, value_high) = d.of_bytes_big_endian-slice buf off bytes (omega arith) in
      let (low, read_low, value_low) =
        d.of_bytes_big_endian-slice buf (off + 16) bytes (omega arith) in
      (
        record { high = high; low = low },
        goes_on _ read_high
            ∙ goes_on (λ (low : u.Word). some (record { high = high; low = low })) read_low,
        be_halves (slice off 16 buf) (slice (off + 16) 16 buf) (h.value high) (h.value low)
              (length-slice (off + 16) 16 buf (omega arith)) value_high value_low
            ∙ ap be (sym (slice_halves off buf)),
      )

  -- `of_bytes_little_endian` reads it with the lowest first.
  pub of_bytes_little_endian-be :
      (buf : Bytes) (off : ℕ)
      → All IsByte buf
      → off + 32 ≤ length buf
      → (j : Halves u) × (of_bytes_little_endian b buf off ≡ some j)
        × (whole h j ≡ be (reverse (slice off 32 buf)))
  unfolding of_bytes_little_endian
  of_bytes_little_endian-be buf off bytes fits =
      let (low, read_low, value_low) = d.of_bytes_little_endian-slice buf off bytes (omega arith) in
      let (high, read_high, value_high) =
        d.of_bytes_little_endian-slice buf (off + 16) bytes (omega arith) in
      let first = slice off 16 buf in
      let second = slice (off + 16) 16 buf in
      (
        record { high = high; low = low },
        goes_on _ read_low
            ∙ goes_on (λ (high : u.Word). some (record { high = high; low = low })) read_high,
        be_halves (reverse second) (reverse first) (h.value high) (h.value low)
              (length-reverse first ∙ length-slice off 16 buf (omega arith)) value_high value_low
            ∙ ap be (sym (reverse-append first second) ∙ ap reverse (sym (slice_halves off buf))),
      )

  value_of_digits : (ui : Halves u) → be (be_digits 32 (whole h ui)) ≡ whole h ui
  value_of_digits ui = be-be_digits 32 (whole h ui) ∙ mod-eq_of_lt (whole-lt h ui)

  -- What `to_bytes_big_endian` and `to_bytes_little_endian` write into a buffer of bytes that has room for 32,
  -- `of_bytes_big_endian` and `of_bytes_little_endian` read back as the same number. The conversions of
  -- words of 128 bits behave as stdint documents.
  pub of_bytes-to_bytes :
      (ui : Halves u) (buf : Bytes) (off : ℕ)
      → All IsByte buf
      → off + 32 ≤ length buf
      → ((buf' : Bytes) × (j : Halves u) × (to_bytes_big_endian b ui buf off ≡ some buf')
          × (of_bytes_big_endian b buf' off ≡ some j)
          × (whole h j ≡ whole h ui))
        × ((buf' : Bytes) × (j : Halves u) × (to_bytes_little_endian b ui buf off ≡ some buf')
            × (of_bytes_little_endian b buf' off ≡ some j)
            × (whole h j ≡ whole h ui))
  of_bytes-to_bytes ui buf off bytes fits =
      let ds = be_digits 32 (whole h ui) in
      let size : length ds ≡ 32 = length-be_digits 32 (whole h ui) in
      let digits : All IsByte ds = be_digits-IsByte 32 (whole h ui) in
      let rsize : length (reverse ds) ≡ 32 = length-reverse ds ∙ size in
      let (j, read, value) =
        of_bytes_big_endian-be (splice off ds buf) off (splice-IsByte off ds buf digits bytes)
          (omega (arith, length-splice off ds buf (omega arith))) in
      let (i, read', value') =
        of_bytes_little_endian-be (splice off (reverse ds) buf) off
          (splice-IsByte off (reverse ds) buf (reverse-IsByte ds digits) bytes)
          (omega (arith, length-splice off (reverse ds) buf (omega arith))) in
      (
        (
          splice off ds buf,
          j,
          to_bytes_big_endian-digits ui buf off fits,
          read,
          value ∙ ap be (slice-splice off 32 ds buf size (omega arith)) ∙ value_of_digits ui,
        ),
        (
          splice off (reverse ds) buf,
          i,
          to_bytes_little_endian-digits ui buf off fits,
          read',
          value'
              ∙ ap (λ (bs : Bytes). be (reverse bs))
                  (slice-splice off 32 (reverse ds) buf rsize (omega arith))
              ∙ ap be (reverse-reverse ds)
              ∙ value_of_digits ui,
        ),
      )
