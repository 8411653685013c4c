-- ===== src/DataConversion/Runs.antt =====
-- The conversions at concrete inputs, with a conversion of two characters for a byte.
use scilla.Base.{
  suc, ◌+◌, ◌*◌, ◌/◌, ◌%◌, ◌≡◌, refl, ap, true, false, Bool, [], ◌∷◌, length, All, done, arith,
}
use scilla.Base.Bytes.{Bytes, IsByte, at, read}
use scilla.DataConversion.{
  Hex, IsHex, hex_str_to_uint8_vec, hex_str_to_std_array, uint8_vec_range_to_hex_str,
  char_arr_to_16_bits, pack, unpack_a, unpack_b, hex_digit, std_hex, integer_to_hex_string,
  integer_to_bytes, integer_to_bytes_loop,
}

abbrev pairs : Bytes → Bytes
pairs [] = []
pairs (b ∷ bs) = b / 16 ∷ b % 16 ∷ pairs bs

abbrev joined : Bytes → Bytes × Bool
joined [] = ([], true)
joined (x ∷ []) = ([], false)
joined (x ∷ y ∷ t) = let rest = joined t in (((x * 16 + y) % 256) ∷ rest.0, rest.1)

-- A text that is its digits' values instead of their characters.
abbrev digits : Hex
digits = record { hex = pairs; unhex = joined }

joined-pairs : (v : Bytes) → All IsByte v → joined (pairs v) ≡ (v, true)
joined-pairs [] h = refl
joined-pairs (b ∷ v) (hb, hv) =
    let byte : (b / 16 * 16 + b % 16) % 256 ≡ b = omega arith in rw (byte, joined-pairs v hv)

length-pairs : (v : Bytes) → length (pairs v) ≡ 2 * length v
length-pairs [] = omega arith
length-pairs (b ∷ v) = omega (arith, length-pairs v)

length-joined : (t v : Bytes) → joined t ≡ (v, true) → length t ≡ 2 * length v
length-joined [] v e = omega (arith, ap (λ p. length p.0) e)
length-joined (x ∷ []) v e = cc (ap (λ p. p.1) e)
length-joined (x ∷ y ∷ t) v e =
    let rest : joined t ≡ ((joined t).0, true) = ap (λ b. ((joined t).0, b)) (ap (λ p. p.1) e) in
    let count : suc (length (joined t).0) ≡ length v = ap (λ p. length p.0) e in
    omega (arith, length-joined t (joined t).0 rest)

joined-IsByte : (t : Bytes) → All IsByte (joined t).0
joined-IsByte [] = tt
joined-IsByte (x ∷ []) = tt
joined-IsByte (x ∷ y ∷ t) = (omega arith, joined-IsByte t)

digits-IsHex : IsHex digits
digits-IsHex = record {
  length-hex = λ v h. length-pairs v;
  unhex-hex = joined-pairs;
  length-unhex = length-joined;
  unhex-IsByte = joined-IsByte;
}

vec_run : hex_str_to_uint8_vec digits (1 ∷ 2 ∷ 3 ∷ []) ≡ (18 ∷ [], false)
unfolding hex_str_to_uint8_vec
vec_run = refl

array_run : hex_str_to_std_array digits 3 (1 ∷ 2 ∷ []) ≡ (18 ∷ 0 ∷ 0 ∷ [], true)
unfolding hex_str_to_std_array hex_str_to_uint8_vec
array_run = refl

range_run : uint8_vec_range_to_hex_str digits (18 ∷ 19 ∷ []) 1 1 ≡ done (1 ∷ 3 ∷ [], true)
unfolding uint8_vec_range_to_hex_str read
range_run = refl

char_arr_run : char_arr_to_16_bits (9 ∷ 1 ∷ 2 ∷ []) ≡ done 258
unfolding char_arr_to_16_bits at
char_arr_run = refl

pack_high_run : unpack_a (pack 7 258) ≡ 7
unfolding pack unpack_a
pack_high_run = refl

pack_low_run : unpack_b (pack 7 258) ≡ 258
unfolding pack unpack_b
pack_low_run = refl

hex_string_run : integer_to_hex_string 2 254 ≡ b'0' ∷ b'0' ∷ b'f' ∷ b'e' ∷ []
unfolding integer_to_hex_string std_hex hex_digit
hex_string_run = refl

bytes_run : integer_to_bytes 32 2 258 ≡ done (1 ∷ 2 ∷ [])
unfolding integer_to_bytes integer_to_bytes_loop
bytes_run = refl
