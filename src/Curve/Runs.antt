-- ===== src/Curve/Runs.antt =====
-- The curve's constructor, with the stand-in for OpenSSL.
use scilla.Base.{◌≡◌, refl, some, done}
use scilla.OpenSsl.Toy.{toy}
use scilla.Curve.{new}

new_run : new toy 4 ≡ done (record { m_group = some tt; m_order = some 3 }, 4)
unfolding new
new_run = refl
