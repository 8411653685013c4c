-- ===== src/PrivKey/Runs.antt =====
-- The theorems on private keys at concrete inputs, with the stand-in for OpenSSL.
use scilla.Base.{ℕ, ◌≡◌, refl, true, false, some, [], ◌∷◌, ◌++◌, replicate, done, thrown, arith}
use scilla.Base.Bytes.{Bytes, resize, read, write, be, be_digits}
use scilla.OpenSsl.Toy.{toy, toy_meaning, byte_count}
use scilla.OpenSsl.Toy.Meets.{toy_holds, toy-Documented, toy-IsReliable}
use scilla.OpenSsl.Documented.{Holds}
use scilla.BignumSerialize.{get_number, set_number}
use scilla.Curve.{Curve}
use scilla.DataConversion.{Hex}
use scilla.PrivKey.{
  PrivKey, generate, new, serialize, deserialize, from_stream, copy, assign, equals,
  get_priv_key_from_string,
}
use scilla.PrivKey.RoundTrip.{deserialize-serialize_priv_key}

abbrev written : Bytes
written = replicate 30 0 ++ (1 ∷ 2 ∷ [])

abbrev key : PrivKey toy
key = record { m_d = some 258 }

abbrev other_key : PrivKey toy
other_key = record { m_d = some 7 }

abbrev toy_curve : Curve toy
toy_curve = record { m_group = some tt; m_order = some 3 }

-- A conversion that accepts every text.
abbrev lenient : Hex
lenient = record { hex = λ v. v; unhex = λ t. (t, true) }

serialize_run : serialize toy key [] 0 4 ≡ done ((written, 32), 4)
unfolding serialize set_number resize write byte_count be_digits
serialize_run = refl

from_stream_run : from_stream toy written 0 4 ≡ done (key, 4)
unfolding from_stream deserialize get_number read be
from_stream_run = refl

copy_run : copy toy key 4 ≡ done (key, 4)
unfolding copy
copy_run = refl

assign_run : assign toy other_key key 4 ≡ done (key, 4)
unfolding assign
assign_run = refl

equals_run : equals toy other_key key 4 ≡ done (false, 4)
unfolding equals
equals_run = refl

string_run : get_priv_key_from_string toy lenient written 4 ≡ thrown
unfolding get_priv_key_from_string
string_run = refl

new_run : new toy 2 toy_curve 3 ≡ done (record { m_d = some 1 }, 5)
unfolding new generate
new_run = refl

-- The first number is 0, the second is 1.
generate_run : generate toy 2 3 9 3 ≡ done (1, 5)
unfolding generate
generate_run = refl

deserialize-serialize_priv_key_example :
    (d : ℕ) × (w : ℕ) × (deserialize toy (record { m_d = some 7 }) written 0 6
      ≡ done ((true, record { m_d = some d }), w))
    × Holds toy_meaning d 258
deserialize-serialize_priv_key_example =
    deserialize-serialize_priv_key toy-Documented.bignum toy-IsReliable 258 7 258 [] written 0 32 4
      4 6 (toy_holds 258) (omega arith) (omega arith) serialize_run
