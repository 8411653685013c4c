-- ===== src/Signature.antt =====
-- src/cpp/Signature.cpp
pub mod RoundTrip
mod Runs
use scilla.Base.{
  is_equal, ℕ, ◌+◌, ◌%◌, Bool, true, false, not, ◌&&◌, Option, none, some, [], ◌∷◌, if◌then◌else◌,
  Run, pure, call, ◌>>=◌,
}
use scilla.Base.Bytes.{Bytes, u32}
use scilla.OpenSsl.{OpenSsl, deref}
use scilla.BignumSerialize
use scilla.BignumSerialize.{signature_challenge_size, signature_response_size}
use scilla.DataConversion.{Hex, serializable_to_hex_str}

-- The challenge and the response, each NULL if its allocation failed.
pub record Signature (ssl : OpenSsl) : Type 0 where
  pub m_r : Option ssl.Bignum
  pub m_s : Option ssl.Bignum

module _ (ssl : OpenSsl) where
  open ssl use {World, Bignum, bn_new, bn_copy, bn_cmp}

  unfoldable pub new : Run World (Signature ssl)
  new = do r ← call bn_new; s ← call bn_new; pure (record { m_r = r; m_s = s })

  -- Both sizes are added to the vector; the second offset is an `unsigned int`.
  unfoldable pub serialize : Signature ssl → Bytes → ℕ → Run World (Bytes × ℕ)
  serialize sig dst offset = do
    dst' ← BignumSerialize.set_number ssl dst offset signature_challenge_size sig.m_r
    dst'' ←
        BignumSerialize.set_number ssl dst' ((offset + signature_challenge_size) % u32)
          signature_response_size sig.m_s
    pure (dst'', signature_challenge_size + signature_response_size)

  copy_results : Signature ssl → Option Bignum → Option Bignum → Run World (Bool × Signature ssl)
  copy_results sig (some result_r) (some result_s) = do
    r ← deref sig.m_r
    (copied_r, r') ← call (bn_copy r result_r)
    if not copied_r then pure (false, record { m_r = some r'; m_s = sig.m_s }) else do
      s ← deref sig.m_s
      (copied_s, s') ← call (bn_copy s result_s)
      pure (copied_s, record { m_r = some r'; m_s = some s' })
  copy_results sig (some result_r) none = pure (false, sig)
  copy_results sig none result_s = pure (false, sig)

  -- `true` stands for the answer 0, `false` for -1.
  unfoldable pub deserialize : Signature ssl → Bytes → ℕ → Run World (Bool × Signature ssl)
  unfolding copy_results
  deserialize sig src offset = do
    result_r ← BignumSerialize.get_number ssl src offset signature_challenge_size
    result_s ←
        BignumSerialize.get_number ssl src ((offset + signature_challenge_size) % u32)
          signature_response_size
    copy_results sig result_r result_s

  from_new : Bytes → ℕ → Option Bignum → Option Bignum → Run World (Signature ssl)
  from_new src offset (some r) (some s) = do
    (_, sig) ← deserialize (record { m_r = some r; m_s = some s }) src offset
    pure sig
  from_new src offset r s = pure (record { m_r = r; m_s = s })

  -- The constructor from a byte stream, where a failure is only logged.
  unfoldable pub from_stream : Bytes → ℕ → Run World (Signature ssl)
  unfolding from_new
  from_stream src offset = do r ← call bn_new; s ← call bn_new; from_new src offset r s

  copy_new : Signature ssl → Option Bignum → Option Bignum → Run World (Signature ssl)
  copy_new src (some r) (some s) = do
    src_r ← deref src.m_r
    (copied, r') ← call (bn_copy r src_r)
    if not copied then pure (record { m_r = some r'; m_s = some s }) else do
      src_s ← deref src.m_s
      (_, s') ← call (bn_copy s src_s)
      pure (record { m_r = some r'; m_s = some s' })
  copy_new src r s = pure (record { m_r = r; m_s = s })

  pub copy : Signature ssl → Run World (Signature ssl)
  unfolding copy_new
  copy src = do r ← call bn_new; s ← call bn_new; copy_new src r s

  -- operator=
  pub assign : Signature ssl → Signature ssl → Run World (Signature ssl)
  assign sig src = do
    r ← deref sig.m_r
    src_r ← deref src.m_r
    (_, r') ← call (bn_copy r src_r)
    s ← deref sig.m_s
    src_s ← deref src.m_s
    (_, s') ← call (bn_copy s src_s)
    pure (record { m_r = some r'; m_s = some s' })

  -- operator==, whose second test is made only if the first holds.
  pub equals : Signature ssl → Signature ssl → Run World Bool
  equals sig r = do
    a ← deref sig.m_r
    b ← deref r.m_r
    if is_equal (bn_cmp a b)
        then (do c ← deref sig.m_s; d ← deref r.m_s; pure (is_equal (bn_cmp c d)))
        else pure false

  -- operator std::string, and operator<< of a stream.
  pub to_string : Hex → Signature ssl → Run World Bytes
  to_string hex sig = do
    (output, converted) ← serializable_to_hex_str hex (serialize sig)
    pure (if not converted then [] else b'0' ∷ b'x' ∷ output)
