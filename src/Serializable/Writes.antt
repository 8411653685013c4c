-- ===== src/Serializable/Writes.antt =====
-- `SetNumber` writes the big-endian number, and `GetNumber` reads it back.
use native.Mathlib.Nat.{mod-eq_of_lt, add-zero}
use scilla.Base.{
  ℕ, zero, suc, ◌+◌, ◌-◌, ◌*◌, ◌/◌, ◌%◌, ◌^◌, ◌≤◌, ◌<◌, ◌≡◌, refl, sym, ap, ◌∙◌, length, set,
  take-append-drop, All, done, thrown, done-injective, [], ◌∷◌, arith, lt→ltb, le→ltb, ltb,
  if◌then◌else◌,
}
use scilla.Base.Bytes.{Bytes, IsByte, u32, u64, resize, be_digits, slice, splice, grow}
use scilla.Base.Bytes.Numbers.{be-be_digits, be_digits-IsByte, length-be_digits, pow_bits}
use scilla.Base.Bytes.Laws.{
  splice-splice, length-splice, slice-splice, length-grow, grow-IsByte, splice-IsByte,
}
use scilla.Serializable.{get_number, set_number, set_number_loop, set_at, shift_right}
use scilla.Serializable.Reads.{get_number-be}

set-splice : (v : Bytes) (i b : ℕ) → i < length v → set v i b ≡ splice i (b ∷ []) v
set-splice [] i b h = elim h [ ]
set-splice (x ∷ v) zero b h = refl
set-splice (x ∷ v) (suc i) b h =
    let next : suc i + 1 ≡ suc (i + 1) = omega arith in
    rw next (ap (◌∷◌ x) (set-splice v i b (omega arith)))

shift_right-fits : (w v s : ℕ) → s < w → shift_right w v s ≡ done (v / 2 ^ s)
unfolding shift_right
shift_right-fits w v s h = rw (lt→ltb s w h)

set_at-splice : (v : Bytes) (i b : ℕ) → i < length v → set_at v i b ≡ done (splice i (b ∷ []) v)
unfolding set_at
set_at-splice v i b h = rw (lt→ltb i (length v) h) (ap done (set-splice v i b h))

set_number_loop-splice :
    (w offset value n i rs : ℕ) (dst : Bytes)
    → offset + i + n ≤ length dst
    → length dst < u32
    → 8 * n ≤ w
    → w < u32
    → (rs + 8) % u32 ≡ 8 * n
    → rs < u32
    → set_number_loop w offset value n i rs dst ≡ done (splice (offset + i) (be_digits n value) dst)
unfolding set_number_loop be_digits
set_number_loop-splice w offset value zero i rs dst fits small wide ww hs hl =
    ap done (sym (rw (add-zero (offset + i)) (take-append-drop (offset + i) dst)))
set_number_loop-splice w offset value (suc n) i rs dst fits small wide ww hs hl =
    let b = value / 256 ^ n % 256 in
    let place : (offset + i) % u32 ≡ offset + i = omega arith in
    let shift : rs ≡ 8 * n = omega arith in
    let next : (rs + u32 - 8 + 8) % u32 ≡ 8 * n = omega arith in
    let here : offset + (i + 1) ≡ offset + i + 1 = omega arith in
    let size = length-splice (offset + i) (b ∷ []) dst (omega arith) in
    let more =
      set_number_loop-splice w offset value n (i + 1) ((rs + u32 - 8) % u32)
        (splice (offset + i) (b ∷ []) dst) (omega arith) (omega arith) (omega arith) ww
        (omega arith) (omega arith) in
    let digit : value / 2 ^ rs ≡ value / 256 ^ n = rw (shift, pow_bits n) in
    let one_block =
      splice-splice (offset + i) (b ∷ []) (be_digits n value) dst
        (omega (arith, length-be_digits n value)) in
    rw
      (
        shift_right-fits w value rs (omega arith),
        place,
        digit,
        set_at-splice dst (offset + i) b (omega arith),
        more,
        here,
      )
      (ap done one_block)

-- `SetNumber` makes the vector long enough and writes the lowest `len` bytes of the number at
-- `offset`, highest byte first, if `offset` is not behind the vector's end, the number type has
-- `len` bytes at least, and everything stays below 2 ^ 32. All other bytes stay.
pub set_number-splice :
    (w : ℕ) (dst : Bytes) (offset value len : ℕ)
    → offset ≤ length dst
    → length dst + len < u32
    → 8 * len ≤ w
    → w < u32
    → set_number w dst offset value len
      ≡ done (splice offset (be_digits len value) (grow (offset + len) dst))
unfolding set_number
set_number-splice w dst offset value len inside small wide ww =
    let available : (length dst + u64 - offset) % u64 % u32 ≡ length dst - offset = omega arith in
    let total : length dst + len - (length dst - offset) ≡ offset + len = omega arith in
    let (enough, least) = length-grow (offset + len) dst in
    let grown : (if ltb (length dst - offset) len then resize (offset + len) dst else dst)
        ≡ grow (offset + len) dst =
      ground arith in
    let more =
      set_number_loop-splice w offset value len 0 _ (grow (offset + len) dst) (omega arith)
        (omega arith) wide ww (omega arith) (omega arith) in
    rw (available, total, grown) (more ∙ rw (add-zero offset))

-- What `SetNumber` wrote, `GetNumber` reads back, if the number has at most `len` bytes and its
-- type has as many, `offset` is not behind the end of the vector, and the vector stays shorter
-- than 2 ^ 32.
pub get_number-set_number :
    (w : ℕ) (dst : Bytes) (offset value len : ℕ) {dst' : Bytes}
    → offset ≤ length dst
    → length dst + len < u32
    → 8 * len ≤ w
    → w < u32
    → value < 256 ^ len
    → All IsByte dst
    → set_number w dst offset value len ≡ done dst'
    → get_number w dst' offset len ≡ done value
get_number-set_number w dst offset value len {dst'} inside small wide ww fits bytes e =
    let (enough, least) = length-grow (offset + len) dst in
    let out = splice offset (be_digits len value) (grow (offset + len) dst) in
    let digits = length-be_digits len value in
    let same : out ≡ dst' =
      done-injective (sym (set_number-splice w dst offset value len inside small wide ww) ∙ e) in
    let size = length-splice offset (be_digits len value) (grow (offset + len) dst) (omega arith) in
    let out_bytes =
      splice-IsByte offset (be_digits len value) (grow (offset + len) dst)
        (be_digits-IsByte len value) (grow-IsByte (offset + len) dst bytes) in
    let block : slice offset len out ≡ be_digits len value =
      slice-splice offset len (be_digits len value) (grow (offset + len) dst) digits
        (omega arith) in
    rw (← same) (
      get_number-be w out offset len (omega arith) (omega arith) wide ww out_bytes
      ∙ ap done (rw block (be-be_digits len value ∙ mod-eq_of_lt fits)))

-- If `offset` is behind the vector's end, `SetNumber` does not resize but throws, for every number
-- and every positive `len` that the number type holds, as long as `offset` is at most 2 ^ 32 - `len`
-- bytes behind the end.
pub set_number_beyond :
    (w : ℕ) (dst : Bytes) (offset value len : ℕ)
    → length dst < offset
    → offset < u32
    → 0 < len
    → offset - length dst + len ≤ u32
    → 8 * len ≤ w
    → w < u32
    → set_number w dst offset value len ≡ thrown
unfolding set_number set_number_loop set_at
set_number_beyond w dst offset value zero behind ho positive far wide ww = elim positive [ ]
set_number_beyond w dst offset value (suc n) behind ho positive far wide ww =
    let available : (length dst + u64 - offset) % u64 % u32 ≡ length dst + u32 - offset =
      omega arith in
    let place : (offset + 0) % u32 ≡ offset = omega arith in
    let shift : (suc n + u32 - 1) % u32 * 8 % u32 < w = omega arith in
    rw (
      available,
      le→ltb (length dst + u32 - offset) (suc n) (omega arith),
      shift_right-fits w value _ shift,
      place,
      le→ltb offset (length dst) (omega arith),
      set_at,
    )
