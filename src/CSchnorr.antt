-- ===== src/CSchnorr.antt =====
-- src/cpp/c_schnorr.cpp and src/cpp/c_schnorr.h: the functions that OCaml calls. An exception cannot
-- pass to OCaml, so errors end in abort().
pub mod Errors
mod Runs
use scilla.Base.{
  ℕ, not, Bool, true, false, ◌&&◌, length, ◌==◌, if◌then◌else◌, [], aborted, Run, pure, lift, ◌>>=◌,
}
use scilla.Base.Bytes.{Bytes, read, write}
use scilla.OpenSsl.{OpenSsl}
use scilla.Curve.{Curve}
use scilla.PrivKey
use scilla.PubKey
use scilla.Signature
use scilla.Schnorr
use scilla.Schnorr.Sign
use scilla.Schnorr.Verify

abbrev pub privkey_len : ℕ
privkey_len = 32

abbrev pub pubkey_len : ℕ
pubkey_len = 33

abbrev pub signature_len : ℕ
signature_len = 64

-- A buffer of the caller, and the length that it is said to have, which is not negative.
pub record RawBytes : Type 0 where
  pub raw : Bytes
  pub len : ℕ

-- `memcpy` into and out of a buffer.
abbrev pub copy_out : {W : Type 0} → RawBytes → Bytes → Run W RawBytes
copy_out buffer bytes = do
  raw' ← lift (write 0 bytes buffer.raw)
  pure (record buffer { raw = raw' })

abbrev pub copy_in : {W : Type 0} → RawBytes → Run W Bytes
copy_in buffer = lift (read 0 buffer.len buffer.raw)

module _ (ssl : OpenSsl) (curve : Curve ssl) where
  open ssl use {World}

  -- The two buffers after the call. A failed assertion aborts.
  pub gen_key_pair_z : ℕ → RawBytes → RawBytes → Run World (RawBytes × RawBytes)
  gen_key_pair_z fuel priv_key pub_key = do
    (first, second) ← Schnorr.gen_key_pair ssl curve fuel
    (priv_k, priv_k_size) ← PrivKey.serialize ssl first [] 0
    (pub_k, pub_k_size) ← PubKey.serialize ssl curve second [] 0
    if not ((priv_k_size == length priv_k) && (pub_k_size == length pub_k))
        then lift aborted
        else if not (priv_key.len == priv_k_size)
        then lift aborted
        else if not (pub_key.len == pub_k_size)
        then lift aborted
        else do
          priv_key' ← copy_out priv_key priv_k
          pub_key' ← copy_out pub_key pub_k
          pure (priv_key', pub_key')

  -- The buffer of the signature after the call. The answer of `Sign` is not looked at.
  pub sign_z : ℕ → RawBytes → RawBytes → RawBytes → RawBytes → Run World RawBytes
  sign_z fuel priv_key pub_key message signature =
      if not (priv_key.len == privkey_len)
      then lift aborted
      else if not (pub_key.len == pubkey_len)
      then lift aborted
      else do
        priv_k ← copy_in priv_key
        pub_k ← copy_in pub_key
        m ← copy_in message
        key_priv ← PrivKey.from_stream ssl priv_k 0
        key_pub ← PubKey.from_stream ssl curve pub_k 0
        sig ← Signature.new ssl
        (_, sig') ← Sign.sign ssl curve fuel m key_priv key_pub sig
        (s, _) ← Signature.serialize ssl sig' [] 0
        if not (length s == signature.len) then lift aborted else copy_out signature s

  -- 1 if the signature is accepted, and 0 if not.
  pub verify_z : RawBytes → RawBytes → RawBytes → Run World ℕ
  verify_z pub_key message signature =
      if not (pub_key.len == pubkey_len)
      then lift aborted
      else if not (signature.len == signature_len)
      then lift aborted
      else do
        pub_k ← copy_in pub_key
        m ← copy_in message
        s ← copy_in signature
        key_pub ← PubKey.from_stream ssl curve pub_k 0
        sig ← Signature.from_stream ssl s 0
        accepted ← Verify.verify ssl curve m sig key_pub
        pure (if accepted then 1 else 0)
