-- ===== src/EcPointSerialize/RoundTrip.antt =====
-- A point that was written can be read back.
use scilla.Base.{ℕ, ◌+◌, ◌≤◌, ◌<◌, ◌≡◌, ◌≢◌, Option, some, length, arith, done}
use scilla.Base.Bytes.{Bytes, u32, slice, be, be_digits}
use scilla.OpenSsl.{OpenSsl}
use scilla.OpenSsl.Documented.{Meaning, IsBignum, IsCurve}
use scilla.OpenSsl.Reliable.{IsReliable}
use scilla.Curve.{Curve}
use scilla.BignumSerialize.RoundTrip.{stored, set_number-stored, get_number-digits}
use scilla.EcPointSerialize.{get_number, set_number, store, to_point}

module _ {ssl : OpenSsl} {m : Meaning ssl} (bignum : IsBignum ssl m) (laws : IsCurve ssl m)
    (reliable : IsReliable ssl m) (g : ssl.Group) (order : Option ssl.Bignum) where
  open ssl use {World, Bignum, Point}

  abbrev with_group : Curve ssl
  with_group = record { m_group = some g; m_order = order }

  -- `SetNumber` writes the octets of the point, as a number of 33 bytes.
  pub set_point-stored :
      (p : Point) (dst : Bytes) (offset : ℕ) (w : World)
      → offset + 33 < u32
      → (w' : World) × (set_number ssl with_group dst offset 33 (some p) w
          ≡ done (stored dst offset 33 (be (m.encode (m.element p))), w'))
  unfolding set_number store
  set_point-stored p dst offset w place =
      let x = ssl.bn_ctx_new w in
      let (b, encoded) = reliable.encoded g p x.1 in
      let holds = laws.point2bn g p b x.1 encoded in
      let y = ssl.ec_point_point2bn g p x.1 in
      (
        y.1,
        rw (
          reliable.ctx_some w,
          encoded,
          set_number-stored bignum dst offset 33 b _ y.1 holds (laws.encode_fits (m.element p))
              place (omega arith),
        ),
      )

  -- `GetNumber` reads such a number back as a point that is the same element of the group, if it is
  -- not the point at infinity.
  pub get_point-digits :
      (p : Point) (src : Bytes) (offset : ℕ) (w : World)
      → offset + 33 ≤ length src
      → offset + 33 < u32
      → slice offset 33 src ≡ be_digits 33 (be (m.encode (m.element p)))
      → m.element p ≢ m.infinity
      → (p' : Point) × (w' : World) × (get_number ssl with_group src offset 33 w
          ≡ done (some p', w'))
        × (m.element p' ≡ m.element p)
  unfolding get_number to_point
  get_point-digits p src offset w inside place block finite =
      let number = be (m.encode (m.element p)) in
      let (b, w₁, found, holds) =
        get_number-digits bignum reliable src offset 33 number w inside place (omega arith)
          (laws.encode_fits (m.element p)) block in
      let x = ssl.bn_ctx_new w₁ in
      let (p', decoded) = reliable.decoded g b (m.element p) x.1 holds finite in
      let y = ssl.ec_point_bn2point g b x.1 in
      (
        p',
        y.1,
        rw (found, reliable.ctx_some w₁, decoded),
        laws.encode-injective _ _
            (laws.bn2point g b number p' x.1 holds (laws.encode_fits (m.element p)) decoded),
      )
