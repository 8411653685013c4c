-- ===== src/BignumSerialize/RoundTrip.antt =====
-- A number that was written can be read back.
use mathlib.Core.Path.{subst, subst₂}
use native.Mathlib.Decide.{dec_le}
use native.Mathlib.Nat.{mod-eq_of_lt, pow-le-pow_right}
use scilla.Base.{
  ◌⊎◌, inl, inr, Bool-cases, Option-cases, ℕ, ◌+◌, ◌-◌, ◌%◌, ◌^◌, ◌≤◌, ◌<◌, ◌≡◌, sym, ap, ◌∙◌,
  Option, none, some, ◌++◌, length, ltb, ltb, replicate, All, length-append, length-replicate,
  arith, lt→ltb, le→ltb, le→leb, lt→leb, done, done-injective, undefined, All-append,
}
use scilla.Base.Bytes.{
  Bytes, IsByte, u32, int_sign, be, be_digits, slice, splice, read, write, grow,
}
use scilla.Base.Bytes.Laws.{
  length-splice, slice-splice, splice-splice, write-splice, read-slice, length-grow,
  replicate-IsByte, slice-grow, slice-splice_behind,
}
use scilla.Base.Bytes.Numbers.{
  be-be_digits, be_digits-be, be_digits-IsByte, length-be_digits, be-zeros, be-lt,
}
use scilla.OpenSsl.{OpenSsl}
use scilla.OpenSsl.Documented.{Meaning, Holds, IsBignum}
use scilla.OpenSsl.Reliable.{IsReliable}
use scilla.BignumSerialize.{get_number, set_number}

-- The vector after a number was put into it.
abbrev pub stored : Bytes → ℕ → ℕ → ℕ → Bytes
stored dst offset size n = splice offset (be_digits size n) (grow (offset + size) dst)

pub stored_room :
    (dst : Bytes) (offset size n : ℕ)
    → (offset + size ≤ length (stored dst offset size n))
      × (length (stored dst offset size n) ≤ length dst + (offset + size - length dst))
stored_room dst offset size n =
    let (enough, least) = length-grow (offset + size) dst in
    let digits = length-be_digits size n in
    let same = length-splice offset (be_digits size n) (grow (offset + size) dst) (omega arith) in
    omega arith

pub slice-stored :
    (dst : Bytes) (offset size n : ℕ)
    → slice offset size (stored dst offset size n) ≡ be_digits size n
slice-stored dst offset size n =
    let (enough, least) = length-grow (offset + size) dst in
    slice-splice offset size (be_digits size n) (grow (offset + size) dst) (length-be_digits size n)
      (omega arith)

-- What stands in front of it stays.
pub slice-stored_before :
    (dst : Bytes) (o k offset size n : ℕ)
    → o + k ≤ length dst
    → o + k ≤ offset
    → slice o k (stored dst offset size n) ≡ slice o k dst
slice-stored_before dst o k offset size n inside before =
    let (enough, _) = length-grow (offset + size) dst in
    slice-splice_behind o k offset (be_digits size n) (grow (offset + size) dst) before
      (omega arith)
    ∙ slice-grow o k (offset + size) dst inside

module _ {ssl : OpenSsl} {m : Meaning ssl} (laws : IsBignum ssl m) where
  open ssl use {World, Bignum, bn_bin2bn, bn_num_bytes, bn_bn2bin}

  -- The bytes of a number behind as many zeros as fill the size.
  padded :
      (b : Bignum) (n size : ℕ)
      → Holds m b n
      → bn_num_bytes b ≤ size
      → replicate (size - bn_num_bytes b) 0 ++ bn_bn2bin b ≡ be_digits size n
  padded b n size h fits =
      let zeros = replicate {A = ℕ} (size - bn_num_bytes b) 0 in
      let all = zeros ++ bn_bn2bin b in
      let count : length all ≡ size = omega (
        arith,
        length-append zeros (bn_bn2bin b),
        length-replicate {A = ℕ} (size - bn_num_bytes b) 0,
        laws.length-bn2bin b,
      ) in
      let value : be all ≡ n = be-zeros _ (bn_bn2bin b) ∙ laws.be-bn2bin b n h in
      let bytes : All IsByte all =
        All-append IsByte zeros (bn_bn2bin b) (replicate-IsByte _) (laws.bn2bin-IsByte b) in
      sym (be_digits-be all bytes) ∙ rw (count, value)

  -- `SetNumber` writes the big-endian number of `size` bytes at `offset`, in a vector that is made long
  -- enough, if the number fits, `size` is below 2 ^ 31 and `offset` + `size` below 2 ^ 32. All other
  -- bytes stay.
  pub set_number-stored :
      (dst : Bytes) (offset size : ℕ) (b : Bignum) (n : ℕ) (w : World)
      → Holds m b n
      → n < 256 ^ size
      → offset + size < u32
      → size < int_sign
      → set_number ssl dst offset size (some b) w ≡ done (stored dst offset size n, w)
  unfolding set_number
  set_number-stored dst offset size b n w h small place int =
      let fits = laws.num_bytes b n size h small in
      let zeros = replicate {A = ℕ} (size - bn_num_bytes b) 0 in
      let dst' = grow (offset + size) dst in
      let (enough, least) = length-grow (offset + size) dst in
      let diff = length-replicate {A = ℕ} (size - bn_num_bytes b) 0 in
      let count = laws.length-bn2bin b in
      let end : (offset + size) % u32 ≡ offset + size = omega arith in
      let first = write-splice offset zeros dst' (omega arith) in
      let same = length-splice offset zeros dst' (omega arith) in
      let one_block = splice-splice offset zeros (bn_bn2bin b) dst' (omega arith) in
      let second : write (offset + (size - bn_num_bytes b)) (bn_bn2bin b) (splice offset zeros dst')
          ≡ done (splice offset (zeros ++ bn_bn2bin b) dst') =
        subst
          (λ k.
            write (offset + k) (bn_bn2bin b) (splice offset zeros dst')
            ≡ done (splice offset (zeros ++ bn_bn2bin b) dst'))
          diff
          (write-splice (offset + length zeros) (bn_bn2bin b) (splice offset zeros dst')
              (omega arith)
            ∙ ap done one_block) in
      rw (lt→ltb size int_sign int, le→leb (bn_num_bytes b) size fits, end, first, second)
        (ap (λ bs. done (splice offset bs dst', w)) (padded b n size h fits))

  -- `SetNumber` leaves the vector as it was for a number that does not fit the size.
  pub set_number_large :
      (dst : Bytes) (offset size : ℕ) (b : Bignum) (n : ℕ) (w : World)
      → Holds m b n
      → 256 ^ size ≤ n
      → set_number ssl dst offset size (some b) w ≡ done (dst, w)
  unfolding set_number
  set_number_large dst offset size b n w h large =
      let below : n < 256 ^ bn_num_bytes b =
        subst₂ (λ x k. x < 256 ^ k) (laws.be-bn2bin b n h) (laws.length-bn2bin b)
          (be-lt (bn_bn2bin b) (laws.bn2bin-IsByte b)) in
      let grows : size < bn_num_bytes b = elim (dec_le (bn_num_bytes b) size) [
        | yes le ↦
            let more : 256 ^ bn_num_bytes b ≤ 256 ^ size =
              pow-le-pow_right {n = 256} (omega arith) le in
            absurd (omega arith)
        | no nle ↦ omega arith
      ] in
      elim (Bool-cases (ltb size int_sign)) [
        | inl t ↦ rw (t, lt→leb (bn_num_bytes b) size grows)
        | inr f ↦ rw f
      ]

  -- `GetNumber` passes the `size` bytes at `offset` to BN_bin2bn, if they are all there and `size` is
  -- below 2 ^ 31.
  pub get_number-slice :
      (src : Bytes) (offset size : ℕ) (w : World)
      → offset + size ≤ length src
      → offset + size < u32
      → size < int_sign
      → get_number ssl src offset size w ≡ done (bn_bin2bn (slice offset size src) w)
  unfolding get_number
  get_number-slice src offset size w inside place int =
      let end : (offset + size) % u32 ≡ offset + size = omega arith in
      rw (
        end,
        le→ltb (length src) (offset + size) inside,
        lt→ltb size int_sign int,
        read-slice offset size src inside,
      )

  -- It returns nullptr if the stream ends before `offset` + `size`, unless that sum wraps around.
  pub get_bignum_short :
      (src : Bytes) (offset size : ℕ) (w : World)
      → length src < offset + size
      → offset + size < u32
      → get_number ssl src offset size w ≡ done (none, w)
  unfolding get_number
  get_bignum_short src offset size w short place =
      let end : (offset + size) % u32 ≡ offset + size = omega arith in
      rw (end, lt→ltb (length src) (offset + size) short)

  -- Where the sum of offset and size wraps around to a position inside the stream, the check of
  -- `GetNumber` passes and memory outside the stream is read. The stream is shorter than 2 ^ 32,
  -- and the size is below 2 ^ 31.
  pub get_bignum_wraps :
      (src : Bytes) (offset size : ℕ) (w : World)
      → u32 ≤ offset + size
      → size < int_sign
      → length src < u32
      → (offset + size) % u32 ≤ length src
      → get_number ssl src offset size w ≡ undefined
  unfolding get_number read
  get_bignum_wraps src offset size w wraps int small inside = rw (
    le→ltb (length src) ((offset + size) % u32) inside,
    lt→ltb size int_sign int,
    lt→leb (offset + size) (length src) (omega arith),
  )

  -- What `SetNumber` stored, `GetNumber` reads back: it returns either nullptr, where BN_bin2bn
  -- has failed, or a number that is equal. The number fits the size, size is below 2 ^ 31, and
  -- offset + size is below 2 ^ 32.
  pub get_bignum-set_bignum :
      (dst dst' : Bytes) (offset size : ℕ) (b : Bignum) (n : ℕ) (w w' w₁ : World)
      → Holds m b n
      → n < 256 ^ size
      → offset + size < u32
      → size < int_sign
      → set_number ssl dst offset size (some b) w ≡ done (dst', w')
      → (r : Option Bignum) × (w₂ : World) × (get_number ssl dst' offset size w₁ ≡ done (r, w₂))
        × ((r ≡ none) ⊎ ((b' : Bignum) × (r ≡ some b') × Holds m b' n))
  get_bignum-set_bignum dst dst' offset size b n w w' w₁ h small place int e =
      let same : stored dst offset size n ≡ dst' =
        ap (λ t. t.0)
          (done-injective (sym (set_number-stored dst offset size b n w h small place int) ∙ e)) in
      let (enough, _) = stored_room dst offset size n in
      let block : slice offset size dst' ≡ be_digits size n =
        subst (λ t. slice offset size t ≡ be_digits size n) same (slice-stored dst offset size n) in
      let room : offset + size ≤ length dst' = subst (λ t. offset + size ≤ length t) same enough in
      let value : be (be_digits size n) ≡ n = be-be_digits size n ∙ mod-eq_of_lt small in
      let result = bn_bin2bn (be_digits size n) w₁ in
      (
        result.0,
        result.1,
        get_number-slice dst' offset size w₁ room place int ∙ ap (λ t. done (bn_bin2bn t w₁)) block,
        elim (Option-cases result.0) [
          | inl failed ↦ inl failed
          | inr (b', r) ↦ inr (
            b',
            r,
            subst (Holds m b') value
                (laws.bin2bn (be_digits size n) b' w₁ (be_digits-IsByte size n) r),
          )
        ],
      )

  -- The number of a slice of digits, where BN_bin2bn does not fail.
  pub get_number-digits :
      (reliable : IsReliable ssl m) (src : Bytes) (offset size n : ℕ) (w : World)
      → offset + size ≤ length src
      → offset + size < u32
      → size < int_sign
      → n < 256 ^ size
      → slice offset size src ≡ be_digits size n
      → (b : Bignum) × (w₂ : World) × (get_number ssl src offset size w ≡ done (some b, w₂))
        × Holds m b n
  get_number-digits reliable src offset size n w inside place int small block =
      let (b, found) = reliable.read_some (be_digits size n) w in
      let value : be (be_digits size n) ≡ n = be-be_digits size n ∙ mod-eq_of_lt small in
      let result = bn_bin2bn (be_digits size n) w in
      (
        b,
        result.1,
        get_number-slice src offset size w inside place int
            ∙ ap (λ t. done (bn_bin2bn t w)) block
            ∙ ap (λ t. done (t, result.1)) found,
        subst (Holds m b) value
            (laws.bin2bn (be_digits size n) b w (be_digits-IsByte size n) found),
      )
