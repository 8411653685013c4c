-- ===== src/PrivKey.antt =====
-- src/cpp/PrivKey.cpp
pub mod RoundTrip
pub mod Fresh
mod Runs
use scilla.Base.{
  is_equal, ℕ, zero, suc, Bool, true, false, not, Option, none, some, length, ◌==◌, if◌then◌else◌,
  Outcome, thrown, stuck, Run, pure, lift, call, ◌>>=◌, ◌+◌,
}
use scilla.Base.Bytes.{Bytes}
use scilla.OpenSsl.{OpenSsl, deref}
use scilla.Curve.{Curve}
use scilla.BignumSerialize
use scilla.BignumSerialize.{priv_key_size}
use scilla.DataConversion.{Hex, hex_str_to_uint8_vec}

-- The scalar, which is NULL if its allocation failed.
pub record PrivKey (ssl : OpenSsl) : Type 0 where
  pub m_d : Option ssl.Bignum

module _ (ssl : OpenSsl) where
  open ssl use {World, Bignum, bn_new, bn_copy, bn_cmp, bn_is_zero, bn_rand_range}

  -- The loop of the default constructor, on fuel: it goes on while the scalar is 0, and a failure of
  -- the generator ends it.
  unfoldable pub generate : ℕ → Bignum → Bignum → Run World Bignum
  generate zero order d = lift stuck
  generate (suc fuel) order d = do
    (drawn, d') ← call (bn_rand_range d order)
    let again = generate fuel order d'
    if not drawn then pure d' else if bn_is_zero d' then again else pure d'

  generate_new : ℕ → Curve ssl → Option Bignum → Run World (PrivKey ssl)
  generate_new fuel curve none = pure (record { m_d = none })
  generate_new fuel curve (some d) = do
    order ← deref curve.m_order
    d' ← generate fuel order d
    pure (record { m_d = some d' })

  unfoldable pub new : ℕ → Curve ssl → Run World (PrivKey ssl)
  unfolding generate_new
  new fuel curve = do d ← call bn_new; generate_new fuel curve d

  -- The vector after the call, and the size that is returned.
  unfoldable pub serialize : PrivKey ssl → Bytes → ℕ → Run World (Bytes × ℕ)
  serialize key dst offset = do
    dst' ← BignumSerialize.set_number ssl dst offset priv_key_size key.m_d
    pure (dst', priv_key_size)

  copy_result : PrivKey ssl → Option Bignum → Run World (Bool × PrivKey ssl)
  copy_result key none = pure (false, key)
  copy_result key (some result) = do
    d ← deref key.m_d
    (copied, d') ← call (bn_copy d result)
    pure (copied, record { m_d = some d' })

  -- `true` stands for the answer 0, `false` for -1.
  unfoldable pub deserialize : PrivKey ssl → Bytes → ℕ → Run World (Bool × PrivKey ssl)
  unfolding copy_result
  deserialize key src offset = do
    result ← BignumSerialize.get_number ssl src offset priv_key_size
    copy_result key result

  from_new : Bytes → ℕ → Option Bignum → Run World (PrivKey ssl)
  from_new src offset none = pure (record { m_d = none })
  from_new src offset (some d) = do
    (_, key) ← deserialize (record { m_d = some d }) src offset
    pure key

  -- The constructor from a byte stream, where a failure is only logged.
  unfoldable pub from_stream : Bytes → ℕ → Run World (PrivKey ssl)
  unfolding from_new
  from_stream src offset = do d ← call bn_new; from_new src offset d

  -- operator=
  pub assign : PrivKey ssl → PrivKey ssl → Run World (PrivKey ssl)
  assign key src = do
    d ← deref key.m_d
    s ← deref src.m_d
    (_, d') ← call (bn_copy d s)
    pure (record { m_d = some d' })

  copy_new : PrivKey ssl → Option Bignum → Run World (PrivKey ssl)
  copy_new src none = pure (record { m_d = none })
  copy_new src (some d) = do
    s ← deref src.m_d
    (_, d') ← call (bn_copy d s)
    pure (record { m_d = some d' })

  unfoldable pub copy : PrivKey ssl → Run World (PrivKey ssl)
  unfolding copy_new
  copy src = do d ← call bn_new; copy_new src d

  -- operator==
  pub equals : PrivKey ssl → PrivKey ssl → Run World Bool
  equals key r = do a ← deref key.m_d; b ← deref r.m_d; pure (is_equal (bn_cmp a b))

  -- `thrown` is std::invalid_argument.
  pub get_priv_key_from_string : Hex → Bytes → Run World (PrivKey ssl)
  get_priv_key_from_string hex key =
      let (key_v, converted) = hex_str_to_uint8_vec hex key in
      if not (length key == 64)
      then lift thrown
      else if not converted
      then lift thrown
      else from_stream key_v 0
