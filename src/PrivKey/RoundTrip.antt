-- ===== src/PrivKey/RoundTrip.antt =====
-- A private key that was written can be read back.
use mathlib.Core.Path.{subst}
use scilla.Base.{
  ℕ, ◌+◌, ◌^◌, ◌≤◌, ◌<◌, ◌≡◌, sym, ap, ◌∙◌, some, true, false, length, arith, done, done-injective,
}
use scilla.Base.Bytes.{Bytes, u32, slice, be_digits}
use scilla.OpenSsl.{OpenSsl}
use scilla.OpenSsl.Documented.{Meaning, Holds, IsBignum}
use scilla.OpenSsl.Reliable.{IsReliable}
use scilla.BignumSerialize.RoundTrip.{
  stored, stored_room, slice-stored, set_number-stored, get_number-digits, get_bignum_short,
}
use scilla.PrivKey.{PrivKey, serialize, deserialize, copy_result}

module _ {ssl : OpenSsl} {m : Meaning ssl} (laws : IsBignum ssl m) where
  open ssl use {World, Bignum}

  -- `Serialize` writes the 32 byte number of the scalar.
  pub serialize-stored :
      (d : Bignum) (n : ℕ) (dst : Bytes) (offset : ℕ) (w : World)
      → Holds m d n
      → n < 256 ^ 32
      → offset + 32 < u32
      → serialize ssl (record { m_d = some d }) dst offset w
        ≡ done ((stored dst offset 32 n, 32), w)
  unfolding serialize
  serialize-stored d n dst offset w h small place =
      rw (set_number-stored laws dst offset 32 d n w h small place (omega arith))

  -- A key that was serialized into any vector, at any offset, is deserialized there into an equal
  -- key, whatever key object takes it, if no call of OpenSSL fails. The scalar has 32 bytes at
  -- most, and offset + 32 is below 2 ^ 32.
  pub deserialize-serialize_priv_key :
      (reliable : IsReliable ssl m) (d old : Bignum) (n : ℕ) (dst dst' : Bytes) (offset size : ℕ)
      (w w' w₁ : World)
      → Holds m d n
      → n < 256 ^ 32
      → offset + 32 < u32
      → serialize ssl (record { m_d = some d }) dst offset w ≡ done ((dst', size), w')
      → (d' : Bignum) × (w₂ : World) × (deserialize ssl (record { m_d = some old }) dst' offset w₁
          ≡ done ((true, record { m_d = some d' }), w₂))
        × Holds m d' n
  unfolding deserialize copy_result
  deserialize-serialize_priv_key reliable d old n dst dst' offset size w w' w₁ h small place e =
      let same : stored dst offset 32 n ≡ dst' =
        ap (λ t. t.0.0)
          (done-injective (sym (serialize-stored d n dst offset w h small place) ∙ e)) in
      let (enough, _) = stored_room dst offset 32 n in
      let room = subst (λ t. offset + 32 ≤ length t) same enough in
      let block =
        subst (λ t. slice offset 32 t ≡ be_digits 32 n) same (slice-stored dst offset 32 n) in
      let (b, w₂, found, holds) =
        get_number-digits laws reliable dst' offset 32 n w₁ room place (omega arith) small block in
      let copied = reliable.copied old b w₂ in
      let copy = ssl.bn_copy old b w₂ in
      (copy.0.1, copy.1, rw (found, copied), laws.copy old b n w₂ holds copied)

  -- A stream that ends before offset + 32 is refused, and the key stays as it was, if that sum is
  -- below 2 ^ 32.
  pub deserialize_short :
      (key : PrivKey ssl) (src : Bytes) (offset : ℕ) (w : World)
      → length src < offset + 32
      → offset + 32 < u32
      → deserialize ssl key src offset w ≡ done ((false, key), w)
  unfolding deserialize copy_result
  deserialize_short key src offset w short place =
      rw (get_bignum_short laws src offset 32 w short place)
