-- ===== src/PubKey.antt =====
-- src/cpp/PubKey.cpp
pub mod RoundTrip
pub mod Order
mod Runs
use scilla.Base.{
  is_equal, is_less, ℕ, suc, Bool, true, false, not, ◌||◌, Option, none, some, [], ◌∷◌, ◌++◌,
  length, ◌==◌, if◌then◌else◌, Outcome, thrown, Run, pure, lift, call, ◌>>=◌, ◌+◌,
}
use scilla.Base.Bytes.{Bytes}
use scilla.OpenSsl.{OpenSsl, deref}
use scilla.Curve.{Curve}
use scilla.EcPointSerialize
use scilla.BignumSerialize.{pub_key_size}
use scilla.DataConversion.{Hex, hex_str_to_uint8_vec, serializable_to_hex_str}
use scilla.PrivKey.{PrivKey}

-- The point, which is NULL if its allocation failed.
pub record PubKey (ssl : OpenSsl) : Type 0 where
  pub m_P : Option ssl.Point

module _ (ssl : OpenSsl) (curve : Curve ssl) where
  open ssl use {
    World, Bignum, Point, bn_cmp, bn_is_zero, bn_ctx_new, ec_point_new, ec_point_copy, ec_point_mul,
    ec_point_point2bn,
  }

  new_point : Run World (Option Point)
  new_point = do group ← deref curve.m_group; call (ec_point_new group)

  pub new : Run World (PubKey ssl)
  unfolding new_point
  new = do point ← new_point; pure (record { m_P = point })

  derive : PrivKey ssl → Option Point → Run World (PubKey ssl)
  derive privkey none = pure (record { m_P = none })
  derive privkey (some p) = do
    d ← deref privkey.m_d
    if bn_is_zero d then pure (record { m_P = some p }) else do
      order ← deref curve.m_order
      if not (is_less (bn_cmp d order)) then pure (record { m_P = some p }) else do
        group ← deref curve.m_group
        (_, p') ← call (ec_point_mul group p d none)
        pure (record { m_P = some p' })

  -- The constructor from a private key, where a failure is only logged.
  unfoldable pub from_priv_key : PrivKey ssl → Run World (PubKey ssl)
  unfolding new_point derive
  from_priv_key privkey = do point ← new_point; derive privkey point

  copy_result : PubKey ssl → Option Point → Run World (Bool × PubKey ssl)
  copy_result key none = pure (false, key)
  copy_result key (some result) = do
    p ← deref key.m_P
    (copied, p') ← call (ec_point_copy p result)
    pure (copied, record { m_P = some p' })

  -- `true` stands for the answer 0, `false` for -1.
  unfoldable pub deserialize : PubKey ssl → Bytes → ℕ → Run World (Bool × PubKey ssl)
  unfolding copy_result
  deserialize key src offset = do
    result ← EcPointSerialize.get_number ssl curve src offset pub_key_size
    copy_result key result

  from_new : Bytes → ℕ → Option Point → Run World (PubKey ssl)
  from_new src offset none = pure (record { m_P = none })
  from_new src offset (some p) = do
    (_, key) ← deserialize (record { m_P = some p }) src offset
    pure key

  -- The constructor from a byte stream, where a failure is only logged.
  unfoldable pub from_stream : Bytes → ℕ → Run World (PubKey ssl)
  unfolding new_point from_new
  from_stream src offset = do point ← new_point; from_new src offset point

  copy_new : PubKey ssl → Option Point → Run World (PubKey ssl)
  copy_new src none = pure (record { m_P = none })
  copy_new src (some p) = do
    s ← deref src.m_P
    (_, p') ← call (ec_point_copy p s)
    pure (record { m_P = some p' })

  unfoldable pub copy : PubKey ssl → Run World (PubKey ssl)
  unfolding new_point copy_new
  copy src = do point ← new_point; copy_new src point

  -- The vector after the call, and the size that is returned.
  unfoldable pub serialize : PubKey ssl → Bytes → ℕ → Run World (Bytes × ℕ)
  serialize key dst offset = do
    dst' ← EcPointSerialize.set_number ssl curve dst offset pub_key_size key.m_P
    pure (dst', pub_key_size)

  -- operator std::string, and operator<< of a stream. `0x` and the digits.
  pub to_string : Hex → PubKey ssl → Run World Bytes
  to_string hex key = do
    (output, converted) ← serializable_to_hex_str hex (serialize key)
    pure (if not converted then [] else b'0' ∷ b'x' ∷ output)

  -- `thrown` is std::invalid_argument.
  pub get_pub_key_from_string : Hex → Bytes → Run World (PubKey ssl)
  get_pub_key_from_string hex key =
      let (key_v, converted) = hex_str_to_uint8_vec hex key in
      if not (length key == 66)
      then lift thrown
      else if not converted
      then lift thrown
      else from_stream key_v 0

  -- operator=
  pub assign : PubKey ssl → PubKey ssl → Run World (PubKey ssl)
  assign key src = do
    p ← deref key.m_P
    s ← deref src.m_P
    (_, p') ← call (ec_point_copy p s)
    pure (record { m_P = some p' })

  both : Option Bignum → Option Bignum → Option (Bignum × Bignum)
  both (some l) (some r) = some (l, r)
  both (some l) none = none
  both none r = none

  -- The numbers of the two points; `none` is the answer `false`.
  pub compare_pre_checks : PubKey ssl → PubKey ssl → Run World (Option (Bignum × Bignum))
  unfolding both
  compare_pre_checks key r = do
    ctx ← call bn_ctx_new
    elim ctx [
      | none ↦ pure none
      | some _ ↦ do
        group ← deref curve.m_group
        p ← deref key.m_P
        lhs ← call (ec_point_point2bn group p)
        q ← deref r.m_P
        rhs ← call (ec_point_point2bn group q)
        pure (both lhs rhs)
    ]

  -- operator<
  pub less : PubKey ssl → PubKey ssl → Run World Bool
  less key r = do
    checked ← compare_pre_checks key r
    pure (elim checked [ none ↦ false | some (l, r) ↦ is_less (bn_cmp l r) ])

  -- operator>
  pub greater : PubKey ssl → PubKey ssl → Run World Bool
  greater key r = less r key

  -- operator==
  pub equals : PubKey ssl → PubKey ssl → Run World Bool
  equals key r = do
    checked ← compare_pre_checks key r
    pure (elim checked [ none ↦ false | some (l, r) ↦ is_equal (bn_cmp l r) ])
