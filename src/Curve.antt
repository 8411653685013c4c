-- ===== src/Curve.antt =====
-- `struct Curve` of src/cpp/Schnorr.h and its constructor in src/cpp/Schnorr.cpp. The singleton of
-- `Schnorr::GetInstance` holds one such value, which the other functions take as an argument.
mod Runs
use scilla.Base.{Option, none, some, Run, pure, call, ◌>>=◌}
use scilla.OpenSsl.{OpenSsl}

-- The two pointers, which are NULL if an allocation failed.
pub record Curve (ssl : OpenSsl) : Type 0 where
  pub m_group : Option ssl.Group
  pub m_order : Option ssl.Bignum

module _ (ssl : OpenSsl) where
  open ssl use {World, Group, Bignum, bn_new, ec_group_new_by_curve_name, ec_group_get_order}

  fetch_order : Option Group → Option Bignum → Run World (Curve ssl)
  fetch_order none order = pure (record { m_group = none; m_order = order })
  fetch_order group none = pure (record { m_group = group; m_order = none })
  fetch_order (some g) (some o) = do
    (fetched, o') ← call (ec_group_get_order g o)
    pure (record { m_group = some g; m_order = some o' })

  -- A failure is only logged, and the curve stays without its group or its order.
  pub new : Run World (Curve ssl)
  unfolding fetch_order
  new = do group ← call ec_group_new_by_curve_name; order ← call bn_new; fetch_order group order
