-- ===== src/Schnorr/Runs.antt =====
-- Concrete runs with the stand-in for OpenSSL, and the theorems at concrete inputs.
use scilla.Base.{
  ℕ, ◌<◌, ◌≡◌, ◌⊎◌, undefined, refl, ◌↔◌, Bool, true, false, some, [], ◌∷◌, done, arith,
}
use scilla.Base.Bytes.{Bytes, be, be_digits, read}
use scilla.OpenSsl.{bn_nnmod_null}
use scilla.OpenSsl.Toy.{
  Element, once, plus, times, encode, is_neutral, product, total, toy, toy_meaning,
}
use scilla.OpenSsl.Toy.Meets.{toy_holds, toy-Documented, toy-IsReliable}
use scilla.Curve.{Curve}
use scilla.Sha2.{reset, new, update, update_range, finalize}
use scilla.PrivKey
use scilla.PrivKey.{PrivKey}
use scilla.PubKey.{PubKey}
use scilla.Signature.{Signature}
use scilla.OpenSsl.Documented.{Holds}
use scilla.PrivKey.Fresh.{zero_drawn, found}
use scilla.PubKey
use scilla.Schnorr.{transcript, gen_key_pair}
use scilla.Schnorr.Valid.{IsValid, reduces, commitment}
use scilla.Schnorr.Sign.{sign_range, sign_loop, sign_round, sign_response, sign_nonce}
use scilla.Schnorr.Sign.Response.{IsSigned}
use scilla.Schnorr.Sign.Sound.{sign_range-IsSigned}
use scilla.Schnorr.Sign.Total.{sign_range_returns}
use scilla.Schnorr.Keys.{gen_key_pair_returns}
use scilla.Schnorr.Verify.{verify_range, out_of_range}
use scilla.Schnorr.Verify.Sound.{verify_range-IsValid}
use scilla.Schnorr.Verify.Decides.{verify_range_decides}
use scilla.Schnorr.RoundTrip.{verify-sign}

abbrev curve : Curve toy
curve = record { m_group = some tt; m_order = some 3 }

abbrev private_key : PrivKey toy
private_key = record { m_d = some 1 }

abbrev public_key : PubKey toy
public_key = record { m_P = some once }

abbrev fresh : Signature toy
fresh = record { m_r = some 0; m_s = some 0 }

abbrev signature : Signature toy
signature = record { m_r = some 2; m_s = some 2 }

abbrev message : Bytes
message = 8 ∷ 3 ∷ []

-- The nonce is 1, then r = 2 and s = 2.
sign_run :
    sign_range toy curve 2 message 1 1 private_key public_key fresh 1 ≡ done ((true, signature), 2)
unfolding bn_nnmod_null sign_range sign_loop sign_round sign_nonce sign_response transcript reset
    new update update_range finalize read be be_digits encode total product times plus
sign_run = refl

verify_run : verify_range toy curve message 1 1 signature public_key 7 ≡ done (true, 7)
unfolding bn_nnmod_null verify_range out_of_range transcript reset new update update_range finalize
    read be be_digits encode total product times plus is_neutral
verify_run = refl

other_message : verify_range toy curve message 0 1 signature public_key 7 ≡ done (false, 7)
unfolding bn_nnmod_null verify_range out_of_range transcript reset new update update_range finalize
    read be be_digits encode total product times plus is_neutral
other_message = refl

verify_range-IsValid_example : IsValid toy_meaning 2 2 once (3 ∷ [])
verify_range-IsValid_example =
    verify_range-IsValid toy-Documented tt 3 2 2 once (toy_holds 3) message 1 1 7 7 verify_run

sign_range-IsSigned_example :
    (r : ℕ) × (s : ℕ) × (signature ≡ record { m_r = some r; m_s = some s })
    × IsSigned toy-Documented tt 3 1 1 once (toy_holds 3) (toy_holds 1) (3 ∷ []) r s
unfolding times plus
sign_range-IsSigned_example =
    sign_range-IsSigned toy-Documented tt 3 1 1 once (toy_holds 3) (toy_holds 1) refl message 1 1 2
      0 0 1 2 signature sign_run

verify_range_decides_example :
    ((b : Bool) × (w : ℕ) × (verify_range toy curve message 1 1
          (record { m_r = some 1; m_s = some 2 })
          public_key
          5
        ≡ done (b, w))
      × ((b ≡ true) ↔ IsValid toy_meaning 1 2 once (3 ∷ [])))
    ⊎ ((reduces toy_meaning (commitment toy_meaning 1 2 once) once (3 ∷ []) ≡ false)
        × (verify_range toy curve message 1 1 (record { m_r = some 1; m_s = some 2 }) public_key 5
            ≡ undefined))
verify_range_decides_example =
    verify_range_decides toy-Documented toy-IsReliable tt 3 1 2 once 1 2 (toy_holds 3) (toy_holds 1)
      (toy_holds 2) message 1 1 5 (omega arith) (omega arith) (omega arith) (λ e. cc)

verify-sign_example :
    (w : ℕ) × (verify_range toy curve message 1 1 signature public_key 7 ≡ done (true, w))
unfolding times plus
verify-sign_example =
    verify-sign toy-Documented toy-IsReliable tt 3 1 1 once 2 message 1 1 0 0 1 2 7 signature
      (toy_holds 3) (toy_holds 1) (omega arith) (omega arith) refl (omega arith) (omega arith)
      (omega arith) sign_run

sign_range_returns_example :
    ((out : Signature toy) × (w : ℕ) × (sign_range toy curve 1 message 1 1 private_key public_key
          fresh 1
        ≡ done ((true, out), w)))
    ⊎ ((reduces toy_meaning (times 1 once) once (3 ∷ []) ≡ false)
        × (sign_range toy curve 1 message 1 1 private_key public_key fresh 1 ≡ undefined))
unfolding times plus encode be be_digits total
sign_range_returns_example =
    sign_range_returns toy-Documented toy-IsReliable tt 3 1 1 once (toy_holds 3) (toy_holds 1)
      message 1 1 0 0 0 0 1 1 refl refl (toy_holds 1) (omega arith) (omega arith) (omega arith)
      (omega arith) (λ e. cc) (omega arith) (omega arith) (omega arith)

-- The first number is 0, the second is 1.
gen_key_pair_run : gen_key_pair toy curve 2 3 ≡ done ((private_key, public_key), 5)
unfolding gen_key_pair PrivKey.new PrivKey.generate PrivKey.copy PubKey.from_priv_key PubKey.copy
    product times plus
gen_key_pair_run = refl

gen_key_pair_returns_example :
    (d : ℕ) × (k : ℕ) × (p : Element) × (w : ℕ) × (gen_key_pair toy curve 4 3
      ≡ done ((record { m_d = some d }, record { m_P = some p }), w))
    × Holds toy_meaning d k
    × (0 < k)
    × (k < 3)
    × (p ≡ times k once)
gen_key_pair_returns_example =
    gen_key_pair_returns toy-Documented toy-IsReliable tt 3 (toy_holds 3) 2 4 0 3 (λ b v. refl) refl
      (zero_drawn (found refl)) (omega arith)
