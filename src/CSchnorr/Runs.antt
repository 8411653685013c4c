-- ===== src/CSchnorr/Runs.antt =====
-- The C functions at concrete inputs, with the stand-in for OpenSSL.
use scilla.Base.{◌≤◌, ◌≡◌, refl, some, [], ◌∷◌, ◌++◌, replicate, length, drop, done, aborted}
use scilla.Base.Bytes.{resize, read, write, be, be_digits}
use scilla.OpenSsl.{bn_nnmod_null}
use scilla.OpenSsl.Toy.{encode, decode, is_neutral, product, times, plus, total, toy, byte_count}
use scilla.BignumSerialize
use scilla.EcPointSerialize
use scilla.Curve.{Curve}
use scilla.PrivKey
use scilla.PubKey
use scilla.Sha2.{reset, new, update, update_range, finalize}
use scilla.Signature
use scilla.Schnorr.{transcript, gen_key_pair}
use scilla.Schnorr.Sign.{sign, sign_range, sign_loop, sign_round, sign_nonce, sign_response}
use scilla.Schnorr.Verify.{verify, verify_range, out_of_range}
use scilla.CSchnorr.{RawBytes, sign_z, verify_z, gen_key_pair_z}
use scilla.CSchnorr.Errors.{verify_z_lengths, sign_z_inside}

abbrev toy_curve : Curve toy
toy_curve = record { m_group = some tt; m_order = some 3 }

abbrev public_bytes : RawBytes
public_bytes = record { raw = 2 ∷ replicate 32 1; len = 33 }

abbrev private_bytes : RawBytes
private_bytes = record { raw = replicate 31 0 ++ (1 ∷ []); len = 32 }

abbrev message : RawBytes
message = record { raw = 3 ∷ []; len = 1 }

abbrev signature : RawBytes
signature = record { raw = replicate 31 0 ++ (2 ∷ replicate 31 0 ++ (2 ∷ [])); len = 64 }

abbrev room : RawBytes
room = record { raw = replicate 70 9; len = 64 }

abbrev filled : RawBytes
filled = record { raw = replicate 31 0 ++ (2 ∷ replicate 31 0 ++ (2 ∷ replicate 6 9)); len = 64 }

sign_run : sign_z toy toy_curve 2 private_bytes public_bytes message room 1 ≡ done (filled, 2)
unfolding bn_nnmod_null sign_z sign sign_range sign_loop sign_round sign_nonce sign_response
    transcript reset new update update_range finalize read write resize be be_digits encode decode
    total product times plus byte_count PrivKey.from_stream PrivKey.deserialize PubKey.from_stream
    PubKey.deserialize Signature.new Signature.serialize BignumSerialize.get_number
    BignumSerialize.set_number EcPointSerialize.get_number EcPointSerialize.to_point
sign_run = refl

verify_run : verify_z toy toy_curve public_bytes message signature 7 ≡ done (1, 7)
unfolding bn_nnmod_null verify_z verify verify_range out_of_range transcript reset new update
    update_range finalize read be be_digits encode decode total product times plus is_neutral
    PubKey.from_stream PubKey.deserialize Signature.from_stream Signature.deserialize
    BignumSerialize.get_number EcPointSerialize.get_number EcPointSerialize.to_point
verify_run = refl

-- Buffers that are too short abort.
gen_key_pair_run : gen_key_pair_z toy toy_curve 5 message message 1 ≡ aborted
unfolding gen_key_pair_z gen_key_pair PrivKey.copy PubKey.copy PrivKey.new PrivKey.generate
    PubKey.from_priv_key PrivKey.serialize PubKey.serialize BignumSerialize.set_number
    EcPointSerialize.set_number EcPointSerialize.store resize write be be_digits encode byte_count
    product times plus
gen_key_pair_run = refl

-- The signature of an empty message is refused by `Sign`, and 64 zeros are given to the caller.
sign_empty_run :
    sign_z toy toy_curve 2 private_bytes public_bytes (record { raw = []; len = 0 }) room 1
    ≡ done (record { raw = replicate 64 0 ++ replicate 6 9; len = 64 }, 1)
unfolding sign_z sign sign_range read write resize be be_digits encode decode byte_count
    PrivKey.from_stream PrivKey.deserialize PubKey.from_stream PubKey.deserialize Signature.new
    Signature.serialize BignumSerialize.get_number BignumSerialize.set_number
    EcPointSerialize.get_number EcPointSerialize.to_point
sign_empty_run = refl

verify_z_lengths_example :
    (public_bytes.len ≡ 33)
    × (signature.len ≡ 64)
    × (33 ≤ length public_bytes.raw)
    × (64 ≤ length signature.raw)
    × (1 ≤ 1)
verify_z_lengths_example =
    verify_z_lengths toy toy_curve public_bytes message signature 7 7 1 verify_run

sign_z_inside_example :
    (private_bytes.len ≡ 32)
    × (public_bytes.len ≡ 33)
    × (filled.len ≡ room.len)
    × (length filled.raw ≡ length room.raw)
    × (drop 64 filled.raw ≡ drop 64 room.raw)
sign_z_inside_example =
    sign_z_inside toy toy_curve 2 private_bytes public_bytes message room filled 1 2 sign_run
