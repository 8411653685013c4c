-- ===== src/Schnorr/Verify.antt =====
-- src/cpp/Schnorr.cpp: `Schnorr::Verify`.
pub mod Sound
pub mod Complete
pub mod Decides
use scilla.Base.{
  is_equal, is_less, ℕ, ◌+◌, ◌%◌, Bool, true, false, not, ◌||◌, Option, none, some, length,
  replicate, ltb, ◌==◌, if◌then◌else◌, Run, pure, call, ◌>>=◌,
}
use scilla.Base.Bytes.{Bytes, u32}
use scilla.OpenSsl.{OpenSsl, deref, bn_nnmod_null}
use scilla.Curve.{Curve}
use scilla.Sha2
use scilla.Sha2.{Sha2, hash_variant_256}
use scilla.PubKey.{PubKey}
use scilla.Signature.{Signature}
use scilla.Schnorr.{pubkey_compressed_size_bytes, transcript}

module _ (ssl : OpenSsl) (curve : Curve ssl) where
  open ssl use {
    World, Bignum, Point, bn_new, bn_ctx_new, bn_bin2bn_into, bn_cmp, bn_is_zero, bn_is_negative,
    ec_point_new, ec_point_mul, ec_point_is_at_infinity,
  }

  -- Whether a number is outside of 1, ..., order - 1.
  unfoldable pub out_of_range : Bignum → Bignum → Bool
  out_of_range order b = bn_is_zero b || bn_is_negative b || not (is_less (bn_cmp b order))

  -- Steps 4 and 5 of `Verify`, from the digest on. BN_nnmod is handed NULL for its BN_CTX.
  unfoldable pub verify_challenge : Bignum → Bignum → Bignum → Option (Sha2 ssl) → Run World Bool
  verify_challenge order r challenge none = pure false
  verify_challenge order r challenge (some sha2) = do
    (built, c₁) ← call (bn_bin2bn_into sha2.output challenge)
    if not built then pure false else do
      (reduced, c₂) ← bn_nnmod_null ssl c₁ c₁ order
      pure (if not reduced then false else is_equal (bn_cmp c₂ r))

  -- Steps 1 to 3, with the local objects allocated.
  unfoldable pub verify_with :
      Bignum → Point → Bytes → ℕ → ℕ → Signature ssl → PubKey ssl → Run World Bool
  unfolding out_of_range verify_challenge
  verify_with challenge q message offset size toverify pubkey = do
    r ← deref toverify.m_r
    order ← deref curve.m_order
    if out_of_range order r then pure false else do
      s ← deref toverify.m_s
      if out_of_range order s then pure false else do
        group ← deref curve.m_group
        p ← deref pubkey.m_P
        (multiplied, q') ← call (ec_point_mul group q s (some (p, r)))
        if not multiplied
            then pure false
            else if ec_point_is_at_infinity group q'
            then pure false
            else do
              hashed ←
                  transcript ssl curve (Sha2.new ssl hash_variant_256)
                    (replicate pubkey_compressed_size_bytes 0) group q' pubkey message offset size
              verify_challenge order r challenge hashed

  unfoldable pub verify_start :
      Bytes
      → ℕ
      → ℕ
      → Signature ssl
      → PubKey ssl
      → Option Bignum
      → Option Point
      → Option (Unit {0})
      → Run World Bool
  unfolding verify_with
  verify_start message offset size toverify pubkey (some challenge) (some q) (some _) =
      verify_with challenge q message offset size toverify pubkey
  verify_start message offset size toverify pubkey _ _ _ = pure false

  unfoldable pub verify_allocate : Bytes → ℕ → ℕ → Signature ssl → PubKey ssl → Run World Bool
  unfolding verify_start
  verify_allocate message offset size toverify pubkey = do
    challenge ← call bn_new
    group ← deref curve.m_group
    q ← call (ec_point_new group)
    ctx ← call bn_ctx_new
    verify_start message offset size toverify pubkey challenge q ctx

  -- `Verify` on a part of the message.
  unfoldable pub verify_range : Bytes → ℕ → ℕ → Signature ssl → PubKey ssl → Run World Bool
  unfolding verify_allocate
  verify_range message offset size toverify pubkey =
      let main = verify_allocate message offset size toverify pubkey in
      if length message == 0
      then pure false
      else if ltb (length message) ((offset + size) % u32)
      then pure false
      else main

  unfoldable pub verify : Bytes → Signature ssl → PubKey ssl → Run World Bool
  verify message toverify pubkey = verify_range message 0 (length message % u32) toverify pubkey
