-- ===== src/DataConversion/Integers.antt =====
-- `IntegerToBytes` gives the big-endian bytes of a number.
use mathlib.Core.List.{append-nil}
use scilla.Base.{
  ℕ, zero, suc, ◌+◌, ◌-◌, ◌*◌, ◌/◌, ◌%◌, ◌^◌, ◌≤◌, ◌≡◌, refl, sym, ap, ◌∙◌, ◌∷◌, ◌++◌, replicate,
  set, done, arith, lt→ltb,
}
use scilla.Base.Bytes.{Bytes, be_digits}
use scilla.Base.Bytes.Numbers.{pow_bits}
use scilla.DataConversion.{integer_to_bytes, integer_to_bytes_loop}

-- The last of the leading zeros.
set-replicate :
    (n b : ℕ) (bs : Bytes) → set (replicate (suc n) 0 ++ bs) n b ≡ replicate n 0 ++ (b ∷ bs)
set-replicate zero b bs = refl
set-replicate (suc n) b bs = ap (◌∷◌ 0) (set-replicate n b bs)

integer_to_bytes_loop-be_digits :
    (w size value n i : ℕ)
    → i + n ≡ size
    → 8 * size ≤ w
    → integer_to_bytes_loop w size value n i (replicate n 0 ++ be_digits i value)
      ≡ done (be_digits size value)
unfolding integer_to_bytes_loop be_digits
integer_to_bytes_loop-be_digits w size value zero i split wide =
    let all : i ≡ size = omega arith in ap (λ k. done (be_digits k value)) all
integer_to_bytes_loop-be_digits w size value (suc n) i split wide =
    let place : size - i - 1 ≡ n = omega arith in
    let next : i + 1 ≡ suc i = omega arith in
    let swap : i * 8 ≡ 8 * i = omega arith in
    rw
      (
        lt→ltb (i * 8) w (omega arith),
        swap,
        pow_bits i,
        place,
        next,
        set-replicate n (value / 256 ^ i % 256) (be_digits i value),
      )
      (integer_to_bytes_loop-be_digits w size value n (suc i) (omega arith) wide)

-- `IntegerToBytes` gives the lowest `size` bytes of the number, highest byte first, if the number
-- type has as many bits.
pub integer_to_bytes-be_digits :
    (w size value : ℕ) → 8 * size ≤ w → integer_to_bytes w size value ≡ done (be_digits size value)
unfolding integer_to_bytes be_digits
integer_to_bytes-be_digits w size value wide =
    ap (integer_to_bytes_loop w size value size 0) (sym (append-nil (replicate size 0)))
    ∙ integer_to_bytes_loop-be_digits w size value size 0 (omega arith) wide
