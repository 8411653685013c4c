-- ===== src/PubKey/Runs.antt =====
-- The theorems on public keys at concrete inputs, with the stand-in for OpenSSL.
use scilla.Base.{ℕ, Bool, ◌≡◌, ◌↔◌, refl, true, some, [], ◌∷◌, replicate, done, thrown, arith, ltb}
use scilla.Base.Bytes.{Bytes, resize, read, write, be, be_digits}
use scilla.OpenSsl.Toy.{
  Element, once, twice, neutral, encode, decode, product, times, plus, toy, byte_count,
}
use scilla.OpenSsl.Toy.Meets.{toy-Documented, toy-IsReliable}
use scilla.BignumSerialize
use scilla.EcPointSerialize.{get_number, set_number, to_point, store}
use scilla.Curve.{Curve}
use scilla.DataConversion.{Hex, serializable_to_hex_str}
use scilla.PubKey.{
  PubKey, new, from_priv_key, from_stream, serialize, deserialize, copy, assign, less, greater,
  equals, to_string, get_pub_key_from_string, compare_pre_checks,
}
use scilla.PubKey.RoundTrip.{deserialize-serialize_pub_key}
use scilla.PubKey.Order.{less-encode, equals_iff}

abbrev toy_curve : Curve toy
toy_curve = record { m_group = some tt; m_order = some 3 }

abbrev key : PubKey toy
key = record { m_P = some twice }

abbrev other_key : PubKey toy
other_key = record { m_P = some once }

abbrev written : Bytes
written = 3 ∷ replicate 32 1

abbrev lenient : Hex
lenient = record { hex = λ v. v; unhex = λ t. (t, true) }

serialize_run : serialize toy toy_curve key [] 0 4 ≡ done ((written, 33), 4)
unfolding serialize set_number store BignumSerialize.set_number resize write byte_count be_digits
    encode be
serialize_run = refl

from_stream_run : from_stream toy toy_curve written 0 4 ≡ done (key, 4)
unfolding from_stream deserialize get_number to_point BignumSerialize.get_number read be encode
    decode
from_stream_run = refl

from_priv_key_run : from_priv_key toy toy_curve (record { m_d = some 2 }) 4 ≡ done (key, 4)
unfolding from_priv_key product times plus
from_priv_key_run = refl

new_run : new toy toy_curve 4 ≡ done (record { m_P = some neutral }, 4)
unfolding new
new_run = refl

copy_run : copy toy toy_curve key 4 ≡ done (key, 4)
unfolding copy
copy_run = refl

assign_run : assign toy toy_curve other_key key 4 ≡ done (key, 4)
unfolding assign
assign_run = refl

greater_run : greater toy toy_curve key other_key 4 ≡ done (true, 4)
unfolding greater less compare_pre_checks encode be
greater_run = refl

to_string_run : to_string toy toy_curve lenient key 4 ≡ done (b'0' ∷ b'x' ∷ written, 4)
unfolding to_string serializable_to_hex_str serialize set_number store BignumSerialize.set_number
    resize write byte_count be_digits encode be
to_string_run = refl

string_run : get_pub_key_from_string toy toy_curve lenient written 4 ≡ thrown
unfolding get_pub_key_from_string
string_run = refl

deserialize-serialize_pub_key_example :
    (p : Element) × (w : ℕ) × (deserialize toy toy_curve other_key written 0 6
      ≡ done ((true, record { m_P = some p }), w))
    × (p ≡ twice)
deserialize-serialize_pub_key_example =
    deserialize-serialize_pub_key toy-Documented.bignum toy-Documented.curve toy-IsReliable tt
      (some 3) twice once [] written 0 33 4 4 6 (λ e. cc) (omega arith) serialize_run

less-encode_example :
    (w : ℕ) × (less toy toy_curve other_key key 4
      ≡ done (ltb (be (encode once)) (be (encode twice)), w))
less-encode_example =
    less-encode toy-Documented.bignum toy-Documented.curve toy-IsReliable tt (some 3) once twice 4

equals_iff_example :
    (answer : Bool) × (w : ℕ) × (equals toy toy_curve key key 4 ≡ done (answer, w))
    × ((answer ≡ true) ↔ (twice ≡ twice))
equals_iff_example =
    equals_iff toy-Documented.bignum toy-Documented.curve toy-IsReliable tt (some 3) twice twice 4
