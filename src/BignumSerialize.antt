-- ===== src/BignumSerialize.antt =====
-- src/cpp/BIGNUMSerialize.cpp, with the sizes of src/cpp/Schnorr.h. Locks are left out: each function
-- is one step.
pub mod RoundTrip
mod Runs
use scilla.Base.{
  ℕ, ◌+◌, ◌-◌, ◌%◌, Option, none, some, length, replicate, ltb, leb, ◌&&◌, if◌then◌else◌, Run, pure,
  lift, call, ◌>>=◌,
}
use scilla.Base.Bytes.{Bytes, u32, int_sign, resize, read, write}
use scilla.OpenSsl.{OpenSsl, deref}

abbrev pub priv_key_size : ℕ
priv_key_size = 32

abbrev pub pub_key_size : ℕ
pub_key_size = 33

abbrev pub signature_challenge_size : ℕ
signature_challenge_size = 32

abbrev pub signature_response_size : ℕ
signature_response_size = 32

module _ (ssl : OpenSsl) where
  open ssl use {World, Bignum, bn_bin2bn, bn_bin2bn_negative, bn_num_bytes, bn_bn2bin}

  -- `none` is nullptr. The sum of offset and size is an `unsigned int`, and the size is passed as an
  -- `int`, the length of BN_bin2bn.
  unfoldable pub get_number : Bytes → ℕ → ℕ → Run World (Option Bignum)
  get_number src offset size =
      if ltb (length src) ((offset + size) % u32)
      then pure none
      else if ltb size int_sign
      then (do bytes ← lift (read offset size src); call (bn_bin2bn bytes))
      else call bn_bin2bn_negative

  -- The destination after the call. A number that is too large for the size, as an
  -- `int`, is only logged.
  unfoldable pub set_number : Bytes → ℕ → ℕ → Option Bignum → Run World Bytes
  set_number dst offset size value = do
    bn ← deref value
    let actual_bn_size = bn_num_bytes bn
    let size_diff = size - actual_bn_size
    if ltb size int_sign && leb actual_bn_size size
        then (do
          let end = (offset + size) % u32
          let dst' = if ltb (length dst) end then resize end dst else dst
          padded ← lift (write offset (replicate size_diff 0) dst')
          lift (write (offset + size_diff) (bn_bn2bin bn) padded))
        else pure dst
