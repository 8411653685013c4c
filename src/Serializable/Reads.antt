-- ===== src/Serializable/Reads.antt =====
-- `GetNumber` reads the big-endian number.
use native.Mathlib.Nat.{pow-suc, mul-le-mul, le_refl, mod-eq_of_lt, pow-le-pow_right, add-zero}
use mathlib.Core.Path.{subst}
use scilla.Base.{
  ℕ, zero, suc, ◌+◌, ◌-◌, ◌*◌, ◌%◌, ◌^◌, ◌≤◌, ◌<◌, ◌≡◌, ap, ◌∙◌, length, take, drop, All, All-drop,
  done, arith, lt→ltb, le→leb, lt→leb,
}
use scilla.Base.Bytes.{Bytes, IsByte, u32, be, slice}
use scilla.Base.Bytes.Numbers.{pow_bits, pow_256}
use scilla.Base.Bytes.Laws.{length-slice, drop_step}
use scilla.Serializable.{get_number, get_number_loop, shift_left}

-- A shift that loses no bit.
shift_left-fits : (w v s : ℕ) → s < w → v * 2 ^ s < 2 ^ w → shift_left w v s ≡ done (v * 2 ^ s)
unfolding shift_left
shift_left-fits w v s h fits = rw (lt→ltb s w h, mod-eq_of_lt fits)

get_number_loop-be :
    (w : ℕ) (src : Bytes) (offset n i ls result : ℕ)
    → offset + i + n ≤ length src
    → length src < u32
    → 8 * n ≤ w
    → w < u32
    → All IsByte src
    → (ls + 8) % u32 ≡ 8 * n
    → ls < u32
    → result + 256 ^ n ≤ 2 ^ w
    → get_number_loop w src offset n i ls result ≡ done (result + be (slice (offset + i) n src))
unfolding get_number_loop be
get_number_loop-be w src offset zero i ls result fits small wide ww bytes hs hl room =
    ap done (omega arith)
get_number_loop-be w src offset (suc n) i ls result fits small wide ww bytes hs hl room =
    let (b, found, split) = drop_step (offset + i) src (omega arith) in
    let place : (offset + i) % u32 ≡ offset + i = omega arith in
    let shift : ls ≡ 8 * n = omega arith in
    let next : (ls + u32 - 8 + 8) % u32 ≡ 8 * n = omega arith in
    let count : length (take n (drop (suc (offset + i)) src)) ≡ n =
      length-slice (suc (offset + i)) n src (omega arith) in
    let (byte, _) = subst (All IsByte) split (All-drop IsByte (offset + i) src bytes) in
    let power : 256 ^ suc n ≡ 256 ^ n * 256 = pow-suc 256 n in
    let top : b * 256 ^ n ≤ 255 * 256 ^ n =
      mul-le-mul {n₁ = b} {n₂ = 255} (omega arith) (le_refl _) in
    let positive = pow_256 n in
    let part : b * 2 ^ ls ≡ b * 256 ^ n = rw (shift, pow_bits n) in
    let no_wrap : (result + b * 256 ^ n) % 2 ^ w ≡ result + b * 256 ^ n =
      mod-eq_of_lt (omega arith) in
    let here : offset + (i + 1) ≡ suc (offset + i) = omega arith in
    let more =
      get_number_loop-be w src offset n (i + 1) ((ls + u32 - 8) % u32) (result + b * 256 ^ n)
        (omega arith) small (omega arith) ww bytes (omega arith) (omega arith) (omega arith) in
    rw
      (
        place,
        found,
        shift_left-fits w b ls (omega arith) (omega arith),
        part,
        no_wrap,
        more,
        split,
        count,
        here,
      )
      (ap done (omega arith))

-- `GetNumber` returns the big-endian number that the `len` bytes at `offset` are, if they are all
-- there, the number type is wide enough for them, and the stream is shorter than 2 ^ 32.
pub get_number-be :
    (w : ℕ) (src : Bytes) (offset len : ℕ)
    → offset + len ≤ length src
    → length src < u32
    → 8 * len ≤ w
    → w < u32
    → All IsByte src
    → get_number w src offset len ≡ done (be (slice offset len src))
unfolding get_number
get_number-be w src offset len fits small wide ww bytes =
    let place : (offset + len) % u32 ≡ offset + len = omega arith in
    let room : 256 ^ len ≤ 2 ^ w =
      rw (← pow_bits len) (pow-le-pow_right {n = 2} (omega arith) wide) in
    rw (place, le→leb (offset + len) (length src) fits)
      (get_number_loop-be w src offset len 0 _ 0 (omega arith) small wide ww bytes (omega arith)
          (omega arith) (omega arith)
        ∙ rw (add-zero offset) (ap done (omega arith)))

-- `GetNumber` returns 0 if the stream ends before `offset + len` and that sum does not wrap
-- around.
pub get_number_short :
    (w : ℕ) (src : Bytes) (offset len : ℕ)
    → length src < offset + len
    → offset + len < u32
    → get_number w src offset len ≡ done 0
unfolding get_number
get_number_short w src offset len short small =
    let place : (offset + len) % u32 ≡ offset + len = omega arith in
    rw (place, lt→leb (offset + len) (length src) short)
