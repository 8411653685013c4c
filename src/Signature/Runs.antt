-- ===== src/Signature/Runs.antt =====
-- The theorems on signatures at concrete inputs, with the stand-in for OpenSSL.
use scilla.Base.{ℕ, ◌≡◌, refl, true, false, some, [], ◌∷◌, ◌++◌, replicate, done, arith}
use scilla.Base.Bytes.{Bytes, resize, read, write, be, be_digits}
use scilla.OpenSsl.Toy.{toy, toy_meaning, byte_count}
use scilla.OpenSsl.Toy.Meets.{toy_holds, toy-Documented, toy-IsReliable}
use scilla.OpenSsl.Documented.{Holds}
use scilla.BignumSerialize.{get_number, set_number}
use scilla.DataConversion.{Hex, serializable_to_hex_str}
use scilla.Signature.{
  Signature, new, serialize, deserialize, from_stream, copy, assign, equals, to_string,
}
use scilla.Signature.RoundTrip.{deserialize-serialize_signature}

abbrev signature : Signature toy
signature = record { m_r = some 258; m_s = some 3 }

abbrev fresh : Signature toy
fresh = record { m_r = some 0; m_s = some 0 }

abbrev written : Bytes
written = replicate 30 0 ++ (1 ∷ 2 ∷ replicate 31 0 ++ (3 ∷ []))

abbrev lenient : Hex
lenient = record { hex = λ v. v; unhex = λ t. (t, true) }

new_run : new toy 4 ≡ done (fresh, 4)
unfolding new
new_run = refl

serialize_run : serialize toy signature [] 0 4 ≡ done ((written, 64), 4)
unfolding serialize set_number resize write byte_count be_digits
serialize_run = refl

from_stream_run : from_stream toy written 0 4 ≡ done (signature, 4)
unfolding from_stream deserialize get_number read be
from_stream_run = refl

copy_run : copy toy signature 4 ≡ done (signature, 4)
unfolding copy
copy_run = refl

assign_run : assign toy fresh signature 4 ≡ done (signature, 4)
unfolding assign
assign_run = refl

equals_run : equals toy fresh signature 4 ≡ done (false, 4)
unfolding equals
equals_run = refl

to_string_run : to_string toy lenient signature 4 ≡ done (b'0' ∷ b'x' ∷ written, 4)
unfolding to_string serializable_to_hex_str serialize set_number resize write byte_count be_digits
to_string_run = refl

deserialize-serialize_signature_example :
    (r : ℕ) × (s : ℕ) × (w : ℕ) × (deserialize toy fresh written 0 6
      ≡ done ((true, record { m_r = some r; m_s = some s }), w))
    × Holds toy_meaning r 258
    × Holds toy_meaning s 3
deserialize-serialize_signature_example =
    deserialize-serialize_signature toy-Documented.bignum toy-IsReliable 258 3 0 0 258 3 [] written
      0 64 4 4 6 (toy_holds 258) (toy_holds 3) (omega arith) (omega arith) (omega arith)
      serialize_run
