-- ===== src/DataConversion.antt =====
-- src/cpp/DataConversion.cpp and src/cpp/DataConversion.h. A std::string is the list of its characters'
-- codes.
pub mod Arrays
pub mod Integers
mod Runs
use Prim.Native.Nat.{bit_and, bit_or}
use scilla.Base.{
  ℕ, zero, suc, ◌+◌, ◌-◌, ◌*◌, ◌/◌, ◌%◌, ◌^◌, ◌≡◌, min, Bool, true, false, not, List, [], ◌∷◌, ◌++◌,
  length, take, replicate, All, leb, ltb, ◌==◌, if◌then◌else◌, Outcome, done, undefined, bind, set,
  Run, pure, ◌>>=◌,
}
use scilla.Base.Bytes.{Bytes, IsByte, u16, u32, at, slice, splice, read}

-- boost::algorithm::hex and unhex, which the repository does not hold. `unhex` gives the bytes that
-- it has put out and whether it then ended without an exception.
pub record Hex : Type 0 where
  pub hex : Bytes → Bytes
  pub unhex : Bytes → Bytes × Bool

-- Their documented behaviour: `hex` writes two characters for a byte, `unhex` reads what `hex` wrote,
-- and where `unhex` throws nothing, the text had two characters for each byte.
pub record IsHex (h : Hex) : Type 0 where
  pub length-hex : (v : Bytes) → All IsByte v → length (h.hex v) ≡ 2 * length v
  pub unhex-hex : (v : Bytes) → All IsByte v → h.unhex (h.hex v) ≡ (v, true)
  pub length-unhex : (t v : Bytes) → h.unhex t ≡ (v, true) → length t ≡ 2 * length v
  pub unhex-IsByte : (t : Bytes) → All IsByte (h.unhex t).0

-- What `out` holds after the call, and the answer.
pub hex_str_to_uint8_vec : Hex → Bytes → Bytes × Bool
hex_str_to_uint8_vec h hex_input = h.unhex hex_input

pub copy_prefix : ℕ → Bytes → Bytes
copy_prefix size v = splice 0 (take (min (length v) size) v) (replicate size 0)

-- `HexStrToStdArray` has size 32 and `HexStrToStdArray64` has size 64.
pub hex_str_to_std_array : Hex → ℕ → Bytes → Bytes × Bool
unfolding copy_prefix
hex_str_to_std_array h size hex_input =
    let (v, converted) = hex_str_to_uint8_vec h hex_input in
    if converted then (copy_prefix size v, true) else (replicate size 0, false)

-- The text and the answer; `hex` does not throw on bytes. `charArrToHexStr` is the same on an array.
pub uint8_vec_to_hex_str : Hex → Bytes → Bytes × Bool
uint8_vec_to_hex_str h hex_vec = (h.hex hex_vec, true)

-- A range that is not inside the vector is undefined behaviour.
pub uint8_vec_range_to_hex_str : Hex → Bytes → ℕ → ℕ → Outcome (Bytes × Bool)
uint8_vec_range_to_hex_str h hex_vec offset len =
    bind (read offset len hex_vec) λ part. done (h.hex part, true)

-- `serialize` is the object's method, called on an empty vector at offset 0.
unfoldable pub serializable_to_hex_str :
    {W : Type 0} → Hex → (Bytes → ℕ → Run W (Bytes × ℕ)) → Run W (Bytes × Bool)
serializable_to_hex_str h serialize = do (tmp, _) ← serialize [] 0; pure (h.hex tmp, true)

-- `lsb - 1` is an unsigned difference.
pub char_arr_to_16_bits : Bytes → Outcome ℕ
char_arr_to_16_bits hex_arr =
    if length hex_arr == 0
    then done 0
    else let lsb = (length hex_arr - 1) % u32 in
      bind (at hex_arr ((lsb + u32 - 1) % u32))
        λ high. bind (at hex_arr lsb) λ low. done (bit_or (high * 256) low % u16)

pub pack : ℕ → ℕ → ℕ
pack a b = (a * 2 ^ 16 % u32 + b) % u32

pub unpack_a : ℕ → ℕ
unpack_a x = x / 2 ^ 16 % u16

pub unpack_b : ℕ → ℕ
unpack_b x = bit_and x 0xffff % u16

-- The characters that `std::hex` prints: lower case, no leading zeros. A number below 16 ^ fuel needs
-- `fuel` digits at most.
pub hex_digit : ℕ → ℕ
hex_digit d = if ltb d 10 then b'0' + d else b'a' + (d - 10)

pub std_hex : ℕ → ℕ → Bytes
unfolding hex_digit
std_hex zero v = []
std_hex (suc fuel) v =
    let rest = std_hex fuel (v / 16) in
    if ltb v 16 then hex_digit v ∷ [] else rest ++ (hex_digit (v % 16) ∷ [])

-- An unsigned type of 16, 32 or 64 bits, whose numbers have 16 hexadecimal digits at most.
pub integer_to_hex_string : ℕ → ℕ → Bytes
integer_to_hex_string size value =
    let shown = if ltb 1 size then value else value % u32 in
    let str_result = std_hex 16 shown in
    let result_size = size * 2 in
    if ltb (length str_result) result_size
    then replicate (result_size - length str_result) b'0' ++ str_result
    else str_result

-- The rounds that are left, and `i`. A shift by the width `w` of the (promoted) number type or more is
-- undefined.
pub integer_to_bytes_loop : ℕ → ℕ → ℕ → ℕ → ℕ → Bytes → Outcome Bytes
integer_to_bytes_loop w size value zero i result = done result
integer_to_bytes_loop w size value (suc n) i result =
    let result' = set result (size - i - 1) (value / 2 ^ (i * 8) % 256) in
    let rest = integer_to_bytes_loop w size value n (i + 1) result' in
    if ltb (i * 8) w then rest else undefined

pub integer_to_bytes : ℕ → ℕ → ℕ → Outcome Bytes
integer_to_bytes w size value = integer_to_bytes_loop w size value size 0 (replicate size 0)
