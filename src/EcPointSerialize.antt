-- ===== src/EcPointSerialize.antt =====
-- src/cpp/ECPOINTSerialize.cpp
pub mod RoundTrip
use scilla.Base.{ℕ, Option, none, some, Run, pure, call, ◌>>=◌}
use scilla.Base.Bytes.{Bytes}
use scilla.OpenSsl.{OpenSsl, deref}
use scilla.Curve.{Curve}
use scilla.BignumSerialize

module _ (ssl : OpenSsl) where
  open ssl use {World, Bignum, Point, bn_ctx_new, ec_point_point2bn, ec_point_bn2point}

  unfoldable pub to_point : Curve ssl → Option Bignum → Run World (Option Point)
  to_point curve none = pure none
  to_point curve (some bnvalue) = do
    ctx ← call bn_ctx_new
    elim ctx [
      | none ↦ pure none
      | some _ ↦ do group ← deref curve.m_group; call (ec_point_bn2point group bnvalue)
    ]

  unfoldable pub get_number : Curve ssl → Bytes → ℕ → ℕ → Run World (Option Point)
  unfolding to_point
  get_number curve src offset size = do
    bnvalue ← BignumSerialize.get_number ssl src offset size
    to_point curve bnvalue

  unfoldable pub store : Bytes → ℕ → ℕ → Option Bignum → Run World Bytes
  store dst offset size none = pure dst
  store dst offset size (some bnvalue) =
      BignumSerialize.set_number ssl dst offset size (some bnvalue)

  unfoldable pub set_number : Curve ssl → Bytes → ℕ → ℕ → Option Point → Run World Bytes
  unfolding store
  set_number curve dst offset size value = do
    ctx ← call bn_ctx_new
    elim ctx [
      | none ↦ pure dst
      | some _ ↦ do
        group ← deref curve.m_group
        point ← deref value
        bnvalue ← call (ec_point_point2bn group point)
        store dst offset size bnvalue
    ]
