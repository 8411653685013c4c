-- ===== src/DataConversion/Arrays.antt =====
-- Hexadecimal text and arrays of bytes.
use native.Mathlib.Decide.{dec_le}
use native.Mathlib.Nat.{le_refl, zero-add}
use scilla.Base.{
  ℕ, zero, suc, ◌-◌, ◌≡◌, min, refl, ap, ◌∙◌, true, [], ◌∷◌, ◌++◌, length, take, drop, take_all,
  replicate, All, thrown, arith, length-take,
}
use scilla.Base.Bytes.{Bytes, IsByte, at}
use scilla.DataConversion.{
  Hex, IsHex, hex_str_to_uint8_vec, hex_str_to_std_array, copy_prefix, uint8_vec_to_hex_str,
  char_arr_to_16_bits,
}

drop-replicate : (k n : ℕ) → drop k (replicate {A = ℕ} n 0) ≡ replicate (n - k) 0
drop-replicate zero n = let all : n ≡ n - 0 = omega arith in ap (λ k. replicate {A = ℕ} k 0) all
drop-replicate (suc k) zero =
    let none_left : 0 ≡ 0 - suc k = omega arith in ap (λ n. replicate {A = ℕ} n 0) none_left
drop-replicate (suc k) (suc n) =
    let one : n - k ≡ suc n - suc k = omega arith in
    drop-replicate k n ∙ ap (λ i. replicate {A = ℕ} i 0) one

-- An array of `size` bytes holds the front of the vector, then zeros.
copy_prefix_lem :
    (size : ℕ) (v : Bytes) → copy_prefix size v ≡ take size v ++ replicate (size - length v) 0
unfolding copy_prefix
copy_prefix_lem size v = elim (dec_le (length v) size) [
  | yes short ↦
      let cut : min (length v) size ≡ length v = omega arith in
      rw (cut, take_all (length v) v (le_refl _), zero-add (length v), take_all size v short)
        (ap (λ t. v ++ t) (drop-replicate (length v) size))
  | no long ↦
      let cut : min (length v) size ≡ size = omega arith in
      let count : length (take size v) ≡ size = omega (arith, length-take size v) in
      let none_left : size - length v ≡ size - size = omega arith in
      rw (cut, count, zero-add size, none_left)
        (ap (λ t. take size v ++ t) (drop-replicate size size))
]

-- The hexadecimal text of a vector, converted to an array of `size` bytes, gives the vector's
-- front, with zeros behind it where the vector is shorter than the array.
pub hex_str_to_std_array-hex :
    {h : Hex} (laws : IsHex h) (size : ℕ) (v : Bytes)
    → All IsByte v
    → hex_str_to_std_array h size (uint8_vec_to_hex_str h v).0
      ≡ (take size v ++ replicate (size - length v) 0, true)
unfolding hex_str_to_std_array hex_str_to_uint8_vec uint8_vec_to_hex_str
hex_str_to_std_array-hex laws size v bytes =
    rw (laws.unhex-hex v bytes) (ap (λ t. (t, true)) (copy_prefix_lem size v))

-- An array of one byte makes `charArrTo16Bits` throw.
pub char_arr_to_16_bits_single : (b : ℕ) → char_arr_to_16_bits (b ∷ []) ≡ thrown
unfolding char_arr_to_16_bits at
char_arr_to_16_bits_single b = refl
