-- ===== src/Schnorr/RoundTrip.antt =====
-- Signing and verifying together.
use mathlib.Core.Path.{subst}
use mathlib.Core.Bool.{false≢true}
use scilla.Base.{◌+◌, ◌≤◌, ◌<◌, ◌≡◌, ◌≢◌, sym, ◌∙◌, ℕ, true, some, length, done, inl, inr}
use scilla.Base.Bytes.{Bytes, u32}
use scilla.OpenSsl.{OpenSsl}
use scilla.OpenSsl.Documented.{Meaning, Holds, Documented}
use scilla.OpenSsl.Reliable.{IsReliable}
use scilla.Signature.{Signature}
use scilla.Schnorr.Sign.{sign_range}
use scilla.Schnorr.Sign.Sound.{sign_range-IsSigned}
use scilla.Schnorr.Verify.{verify_range}
use scilla.Schnorr.Verify.Complete.{verify_range-Accepts}

module _ {ssl : OpenSsl} {m : Meaning ssl} (laws : Documented ssl m) (reliable : IsReliable ssl m)
    (g : ssl.Group) (o d : ssl.Bignum) (dn : ℕ) (p : ssl.Point) where
  -- A signature for which `Sign` answers true is accepted by `Verify`, from any later state of
  -- OpenSSL, if no call of OpenSSL fails. The curve has its order, the private key d lies in 1,
  -- ..., order - 1 and the public key is dG; the range lies in the message, which is shorter than
  -- 2 ^ 32 and not empty.
  pub verify-sign :
      (fuel : ℕ) (message : Bytes) (offset size : ℕ) (r s : ssl.Bignum) (w w' w₁ : ssl.World)
      (out : Signature ssl)
      → Holds m o m.order
      → Holds m d dn
      → 0 < dn
      → dn < m.order
      → m.element p ≡ m.times dn m.generator
      → 0 < length message
      → length message < u32
      → offset + size ≤ length message
      → sign_range ssl
          (record { m_group = some g; m_order = some o })
          fuel
          message
          offset
          size
          (record { m_d = some d })
          (record { m_P = some p })
          (record { m_r = some r; m_s = some s })
          w
        ≡ done ((true, out), w')
      → (w₂ : ssl.World) × (verify_range ssl
            (record { m_group = some g; m_order = some o })
            message
            offset
            size
            out
            (record { m_P = some p })
            w₁
          ≡ done (true, w₂))
  verify-sign fuel message offset size r s w w' w₁ out ho hd pos lt paired some_byte small inside
        e =
      let (r', s', same, (rn, sn, hr, hs, valid, survives)) =
        sign_range-IsSigned laws g o d dn p ho hd paired message offset size fuel r s w w' out e in
      let finite : m.element p ≢ m.infinity =
        λ h. laws.cyclic.times-ne-infinity dn pos lt (sym paired ∙ h) in
      let accepts =
        verify_range-Accepts laws reliable g o r' s' p rn sn ho hr hs message offset size w₁
          some_byte small inside finite valid in
      elim accepts [
        | inl (_, w₂, accepted) ↦ (
          w₂,
          subst
              (λ t.
                verify_range ssl (record { m_group = some g; m_order = some o }) message offset size
                  t (record { m_P = some p }) w₁
                ≡ done (true, w₂))
              (sym same) accepted,
        )
        | inr (crashes, _) ↦ absurd (false≢true (sym crashes ∙ survives))
      ]
