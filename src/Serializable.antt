-- ===== src/Serializable.antt =====
-- src/cpp/Serializable.h: the templates `GetNumber` and `SetNumber` of `Serializable` (and of
-- `SerializableDataBlock`, which repeats them), for an unsigned number type of `w` bits, `w` at
-- least 32. Offsets and lengths are `unsigned int`, and the sums of two wrap around.
pub mod Reads
pub mod Writes
mod Runs
use scilla.Base.{
  ℕ, zero, suc, ◌+◌, ◌-◌, ◌*◌, ◌/◌, ◌%◌, ◌^◌, length, set, done, thrown, undefined, Outcome, bind,
  ltb, leb, if◌then◌else◌,
}
use scilla.Base.Bytes.{Bytes, u32, u64, at, resize}

-- `v << s` and `v >> s` at a `w` bit number. A shift by the width or more is undefined.
pub shift_left : ℕ → ℕ → ℕ → Outcome ℕ
shift_left w v s = if ltb s w then done (v * 2 ^ s % 2 ^ w) else undefined

pub shift_right : ℕ → ℕ → ℕ → Outcome ℕ
shift_right w v s = if ltb s w then done (v / 2 ^ s) else undefined

-- `v.at(i) = b`
pub set_at : Bytes → ℕ → ℕ → Outcome Bytes
set_at v i b = if ltb i (length v) then done (set v i b) else thrown

-- The rounds that are left, `i`, `left_shift` and `result`.
pub get_number_loop : ℕ → Bytes → ℕ → ℕ → ℕ → ℕ → ℕ → Outcome ℕ
get_number_loop w src offset zero i left_shift result = done result
get_number_loop w src offset (suc n) i left_shift result = bind (at src ((offset + i) % u32)) λ tmp.
    bind (shift_left w tmp left_shift) λ part.
      get_number_loop w src offset n (i + 1) ((left_shift + u32 - 8) % u32)
        ((result + part) % 2 ^ w)

pub get_number : ℕ → Bytes → ℕ → ℕ → Outcome ℕ
get_number w src offset len =
    if leb ((offset + len) % u32) (length src)
    then get_number_loop w src offset len 0 ((len + u32 - 1) % u32 * 8 % u32) 0
    else done 0

pub set_number_loop : ℕ → ℕ → ℕ → ℕ → ℕ → ℕ → Bytes → Outcome Bytes
set_number_loop w offset value zero i right_shift dst = done dst
set_number_loop w offset value (suc n) i right_shift dst =
    bind (shift_right w value right_shift) λ part.
      bind (set_at dst ((offset + i) % u32) (part % 256))
        λ dst'. set_number_loop w offset value n (i + 1) ((right_shift + u32 - 8) % u32) dst'

-- `length_available` is the difference of two sizes, cut to 32 bits.
pub set_number : ℕ → Bytes → ℕ → ℕ → ℕ → Outcome Bytes
set_number w dst offset value len =
    let length_available = (length dst + u64 - offset) % u64 % u32 in
    let dst' =
      if ltb length_available len then resize (length dst + len - length_available) dst else dst in
    set_number_loop w offset value len 0 ((len + u32 - 1) % u32 * 8 % u32) dst'

-- The two templates of `SerializableDataBlock`, whose bodies are the same.
abbrev pub block_get_number : ℕ → Bytes → ℕ → ℕ → Outcome ℕ
block_get_number = get_number

abbrev pub block_set_number : ℕ → Bytes → ℕ → ℕ → ℕ → Outcome Bytes
block_set_number = set_number
