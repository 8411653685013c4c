-- ===== src/Schnorr/Sign.antt =====
-- src/cpp/Schnorr.cpp: `Schnorr::Sign`.
pub mod Response
pub mod Sound
pub mod Total
use scilla.Base.{
  ℕ, zero, suc, ◌+◌, ◌%◌, Bool, true, false, not, ◌||◌, Option, none, some, length, replicate, ltb,
  ◌==◌, if◌then◌else◌, stuck, Run, pure, lift, call, ◌>>=◌,
}
use scilla.Base.Bytes.{Bytes, u32}
use scilla.OpenSsl.{OpenSsl, deref, bn_nnmod_null}
use scilla.Curve.{Curve}
use scilla.Sha2
use scilla.Sha2.{Sha2, hash_variant_256}
use scilla.PrivKey.{PrivKey}
use scilla.PubKey.{PubKey}
use scilla.Signature.{Signature}
use scilla.Schnorr.{pubkey_compressed_size_bytes, transcript}

module _ (ssl : OpenSsl) (curve : Curve ssl) where
  open ssl use {
    World, Bignum, Point, bn_new, bn_ctx_new, bn_bin2bn_into, bn_is_zero, bn_generate_dsa_nonce,
    bn_mod_mul, bn_mod_sub, ec_point_new, ec_point_mul,
  }

  -- Step 1 of `Sign`: the inner loop. `none` is a failure of the generator.
  unfoldable pub sign_nonce : ℕ → Bignum → Bignum → Bytes → Bignum → Run World (Option Bignum)
  sign_nonce zero order d message k = lift stuck
  sign_nonce (suc fuel) order d message k = do
    (drawn, k') ← call (bn_generate_dsa_nonce k order d message)
    let again = sign_nonce fuel order d message k'
    if not drawn then pure none else if bn_is_zero k' then again else pure (some k')

  -- Building the challenge r from the digest, and s = k - r * kpriv; BN_nnmod is handed NULL for its
  -- BN_CTX. The answer says whether every call succeeded; the numbers are written also where one did
  -- not.
  unfoldable pub sign_response :
      Bignum → Bignum → Bignum → Bytes → Bignum → Bignum → Run World (Bool × Bignum × Bignum)
  sign_response order d k digest r s = do
    (built, r₁) ← call (bn_bin2bn_into digest r)
    if not built then pure (false, r₁, s) else do
      (reduced, r₂) ← bn_nnmod_null ssl r₁ r₁ order
      if not reduced then pure (false, r₂, s) else do
        (multiplied, s₁) ← call (bn_mod_mul s r₂ d order)
        if not multiplied
            then pure (false, r₂, s₁)
            else do (subtracted, s₂) ← call (bn_mod_sub s₁ k s₁ order); pure (subtracted, r₂, s₂)

  -- The variables of the outer loop.
  pub record SignState : Type 0 where
    pub k : Bignum
    pub q : Point
    pub buf : Bytes
    pub sha2 : Sha2 ssl
    pub result : Signature ssl

  -- How a round ends: by `return false`, or at the loop's test with `res`.
  pub data Round : Type 0 where
    failed : Signature ssl → Round
    tested : Bool → SignState → Round

  -- The end of a round, from the digest on.
  unfoldable pub sign_finish :
      Bignum → Bignum → Sha2 ssl → Bignum → Point → Signature ssl → Run World Round
  sign_finish order d sha2 k q result = do
    r ← deref result.m_r
    s ← deref result.m_s
    (done_all, r', s') ← sign_response order d k sha2.output r s
    let result' : Signature ssl = record { m_r = some r'; m_s = some s' }
    pure (
        if not done_all
        then failed result'
        else tested (bn_is_zero r' || bn_is_zero s') (record {
          k = k;
          q = q;
          buf = replicate pubkey_compressed_size_bytes 0;
          sha2 = Sha2.reset ssl sha2;
          result = result';
        }))

  -- A round once it has its nonce.
  unfoldable pub sign_commit :
      Bignum → Bignum → PubKey ssl → Bytes → ℕ → ℕ → SignState → Bignum → Run World Round
  sign_commit order d pubkey message offset size state k = do
    group ← deref curve.m_group
    (multiplied, q) ← call (ec_point_mul group state.q k none)
    if not multiplied then pure (failed state.result) else do
      hashed ← transcript ssl curve state.sha2 state.buf group q pubkey message offset size
      elim hashed [
        | none ↦ pure (failed state.result)
        | some sha2 ↦ sign_finish order d sha2 k q state.result
      ]

  -- One round of the outer loop of `Sign`.
  unfoldable pub sign_round :
      ℕ → PrivKey ssl → PubKey ssl → Bytes → ℕ → ℕ → SignState → Run World Round
  unfolding sign_finish sign_commit
  sign_round fuel privkey pubkey message offset size state = do
    order ← deref curve.m_order
    d ← deref privkey.m_d
    nonce ← sign_nonce fuel order d message state.k
    elim nonce [
      | none ↦ pure (failed state.result)
      | some k ↦ sign_commit order d pubkey message offset size state k
    ]

  unfoldable pub sign_loop :
      ℕ
      → ℕ
      → PrivKey ssl
      → PubKey ssl
      → Bytes
      → ℕ
      → ℕ
      → SignState
      → Run World (Bool × Signature ssl)
  sign_loop zero nonces privkey pubkey message offset size state = lift stuck
  sign_loop (suc fuel) nonces privkey pubkey message offset size state = do
    round ← sign_round nonces privkey pubkey message offset size state
    elim round [
      | failed result ↦ pure (false, result)
      | tested res next ↦
          let again = sign_loop fuel nonces privkey pubkey message offset size next in
          if res then again else pure (true, next.result)
    ]

  -- The allocations in front of the loop; where one failed, `Sign` returns false.
  unfoldable pub sign_start :
      ℕ
      → PrivKey ssl
      → PubKey ssl
      → Bytes
      → ℕ
      → ℕ
      → Signature ssl
      → Option Bignum
      → Option Point
      → Option (Unit {0})
      → Run World (Bool × Signature ssl)
  sign_start fuel privkey pubkey message offset size result (some k) (some q) (some _) =
      sign_loop fuel fuel privkey pubkey message offset size (record {
        k = k;
        q = q;
        buf = replicate pubkey_compressed_size_bytes 0;
        sha2 = Sha2.new ssl hash_variant_256;
        result = result;
      })
  sign_start fuel privkey pubkey message offset size result _ _ _ = pure (false, result)

  unfoldable pub sign_allocate :
      ℕ
      → Bytes
      → ℕ
      → ℕ
      → PrivKey ssl
      → PubKey ssl
      → Signature ssl
      → Run World (Bool × Signature ssl)
  unfolding sign_start
  sign_allocate fuel message offset size privkey pubkey result = do
    k ← call bn_new
    group ← deref curve.m_group
    q ← call (ec_point_new group)
    ctx ← call bn_ctx_new
    sign_start fuel privkey pubkey message offset size result k q ctx

  -- `Sign` on a part of the message: the answer, and the signature after the call.
  unfoldable pub sign_range :
      ℕ
      → Bytes
      → ℕ
      → ℕ
      → PrivKey ssl
      → PubKey ssl
      → Signature ssl
      → Run World (Bool × Signature ssl)
  unfolding sign_allocate
  sign_range fuel message offset size privkey pubkey result =
      let main = sign_allocate fuel message offset size privkey pubkey result in
      if length message == 0
      then pure (false, result)
      else if ltb (length message) ((offset + size) % u32)
      then pure (false, result)
      else main

  unfoldable pub sign :
      ℕ → Bytes → PrivKey ssl → PubKey ssl → Signature ssl → Run World (Bool × Signature ssl)
  sign fuel message privkey pubkey result =
      sign_range fuel message 0 (length message % u32) privkey pubkey result
