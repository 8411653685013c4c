-- ===== src/PubKey/RoundTrip.antt =====
-- A public key that was written can be read back.
use mathlib.Core.Path.{subst}
use scilla.Base.{
  ℕ, ◌+◌, ◌≤◌, ◌<◌, ◌≡◌, ◌≢◌, sym, ap, ◌∙◌, Option, some, true, length, done, done-injective,
}
use scilla.Base.Bytes.{Bytes, u32, slice, be, be_digits}
use scilla.OpenSsl.{OpenSsl}
use scilla.OpenSsl.Documented.{Meaning, IsBignum, IsCurve}
use scilla.OpenSsl.Reliable.{IsReliable}
use scilla.BignumSerialize.RoundTrip.{stored, stored_room, slice-stored}
use scilla.EcPointSerialize.RoundTrip.{set_point-stored, get_point-digits}
use scilla.PubKey.{serialize, deserialize, copy_result}

module _ {ssl : OpenSsl} {m : Meaning ssl} (bignum : IsBignum ssl m) (laws : IsCurve ssl m)
    (reliable : IsReliable ssl m) (g : ssl.Group) (order : Option ssl.Bignum) where
  open ssl use {World, Point}

  -- A key that was serialized into any vector, at any offset, is deserialized there into a key of
  -- the same element of the group, whatever key object takes it, if no call of OpenSSL fails,
  -- the key is not the point at infinity and offset + 33 is below 2 ^ 32.
  pub deserialize-serialize_pub_key :
      (p old : Point) (dst dst' : Bytes) (offset size : ℕ) (w w' w₁ : World)
      → m.element p ≢ m.infinity
      → offset + 33 < u32
      → serialize ssl
          (record { m_group = some g; m_order = order })
          (record { m_P = some p })
          dst
          offset
          w
        ≡ done ((dst', size), w')
      → (p' : Point) × (w₂ : World) × (deserialize ssl
            (record { m_group = some g; m_order = order })
            (record { m_P = some old })
            dst'
            offset
            w₁
          ≡ done ((true, record { m_P = some p' }), w₂))
        × (m.element p' ≡ m.element p)
  unfolding serialize deserialize copy_result
  deserialize-serialize_pub_key p old dst dst' offset size w w' w₁ finite place e =
      let number = be (m.encode (m.element p)) in
      let (w₀, written) = set_point-stored bignum laws reliable g order p dst offset w place in
      let first : serialize ssl (record { m_group = some g; m_order = order })
            (record { m_P = some p }) dst offset w
          ≡ done ((stored dst offset 33 number, 33), w₀) =
        rw written in
      let same : stored dst offset 33 number ≡ dst' =
        ap (λ t. t.0.0) (done-injective (sym first ∙ e)) in
      let (enough, _) = stored_room dst offset 33 number in
      let room = subst (λ t. offset + 33 ≤ length t) same enough in
      let block =
        subst (λ t. slice offset 33 t ≡ be_digits 33 number) same
          (slice-stored dst offset 33 number) in
      let (b, w₂, found, equal) =
        get_point-digits bignum laws reliable g order p dst' offset w₁ room place block finite in
      let copied = reliable.point_copied old b w₂ in
      let copy = ssl.ec_point_copy old b w₂ in
      (copy.0.1, copy.1, rw (found, copied), laws.point_copy old b w₂ copied ∙ equal)
