-- ===== src/Signature/RoundTrip.antt =====
-- A signature that was written can be read back.
use mathlib.Core.Path.{subst}
use scilla.Base.{
  ℕ, ◌+◌, ◌%◌, ◌^◌, ◌≤◌, ◌<◌, ◌≡◌, sym, ap, ◌∙◌, some, true, length, arith, done, done-injective,
}
use scilla.Base.Bytes.{Bytes, u32, slice, be_digits}
use scilla.OpenSsl.{OpenSsl}
use scilla.OpenSsl.Documented.{Meaning, Holds, IsBignum}
use scilla.OpenSsl.Reliable.{IsReliable}
use scilla.BignumSerialize.RoundTrip.{
  stored, stored_room, slice-stored, slice-stored_before, set_number-stored, get_number-digits,
}
use scilla.Signature.{serialize, deserialize, copy_results}

module _ {ssl : OpenSsl} {m : Meaning ssl} (laws : IsBignum ssl m) where
  open ssl use {World, Bignum}

  -- The vector after both numbers were put into it.
  abbrev both_stored : Bytes → ℕ → ℕ → ℕ → Bytes
  both_stored dst offset rn sn = stored (stored dst offset 32 rn) (offset + 32) 32 sn

  -- `Serialize` writes the 32 byte numbers of r and s, one behind the other.
  pub serialize-both_stored :
      (r s : Bignum) (rn sn : ℕ) (dst : Bytes) (offset : ℕ) (w : World)
      → Holds m r rn
      → Holds m s sn
      → rn < 256 ^ 32
      → sn < 256 ^ 32
      → offset + 64 < u32
      → serialize ssl (record { m_r = some r; m_s = some s }) dst offset w
        ≡ done ((both_stored dst offset rn sn, 64), w)
  unfolding serialize
  serialize-both_stored r s rn sn dst offset w hr hs r_small s_small place =
      let next : (offset + 32) % u32 ≡ offset + 32 = omega arith in
      rw (
        set_number-stored laws dst offset 32 r rn w hr r_small (omega arith) (omega arith),
        next,
        set_number-stored laws (stored dst offset 32 rn) (offset + 32) 32 s sn w hs s_small
            (omega arith) (omega arith),
      )

  -- A signature that was serialized into any vector, at any offset, is deserialized there into an
  -- equal one, whatever signature object takes it, if no call of OpenSSL fails. The two numbers
  -- have 32 bytes at most, and offset + 64 is below 2 ^ 32.
  pub deserialize-serialize_signature :
      (reliable : IsReliable ssl m) (r s old_r old_s : Bignum) (rn sn : ℕ) (dst dst' : Bytes)
      (offset size : ℕ) (w w' w₁ : World)
      → Holds m r rn
      → Holds m s sn
      → rn < 256 ^ 32
      → sn < 256 ^ 32
      → offset + 64 < u32
      → serialize ssl (record { m_r = some r; m_s = some s }) dst offset w ≡ done ((dst', size), w')
      → (r' : Bignum) × (s' : Bignum) × (w₂ : World) × (deserialize ssl
            (record { m_r = some old_r; m_s = some old_s })
            dst'
            offset
            w₁
          ≡ done ((true, record { m_r = some r'; m_s = some s' }), w₂))
        × Holds m r' rn
        × Holds m s' sn
  unfolding deserialize copy_results
  deserialize-serialize_signature reliable r s old_r old_s rn sn dst dst' offset size w w' w₁ hr hs
        r_small s_small place e =
      let both = both_stored dst offset rn sn in
      let same : both ≡ dst' =
        ap (λ t. t.0.0)
          (done-injective
            (sym (serialize-both_stored r s rn sn dst offset w hr hs r_small s_small place) ∙ e)) in
      let (enough, _) = stored_room dst offset 32 rn in
      let (enough', _) = stored_room (stored dst offset 32 rn) (offset + 32) 32 sn in
      let room : offset + 32 + 32 ≤ length dst' =
        subst (λ t. offset + 32 + 32 ≤ length t) same enough' in
      let first : slice offset 32 dst' ≡ be_digits 32 rn =
        subst (λ t. slice offset 32 t ≡ be_digits 32 rn) same
          (slice-stored_before (stored dst offset 32 rn) offset 32 (offset + 32) 32 sn enough
              (omega arith)
            ∙ slice-stored dst offset 32 rn) in
      let second : slice (offset + 32) 32 dst' ≡ be_digits 32 sn =
        subst (λ t. slice (offset + 32) 32 t ≡ be_digits 32 sn) same
          (slice-stored (stored dst offset 32 rn) (offset + 32) 32 sn) in
      let (br, wr, found_r, holds_r) =
        get_number-digits laws reliable dst' offset 32 rn w₁ (omega arith) (omega arith)
          (omega arith) r_small first in
      let (bs, ws, found_s, holds_s) =
        get_number-digits laws reliable dst' (offset + 32) 32 sn wr room (omega arith) (omega arith)
          s_small second in
      let next : (offset + 32) % u32 ≡ offset + 32 = omega arith in
      let copy_r = ssl.bn_copy old_r br ws in
      let copy_s = ssl.bn_copy old_s bs copy_r.1 in
      let copied_r = reliable.copied old_r br ws in
      let copied_s = reliable.copied old_s bs copy_r.1 in
      (
        copy_r.0.1,
        copy_s.0.1,
        copy_s.1,
        rw (found_r, next, found_s, copied_r, copied_s),
        laws.copy old_r br rn ws holds_r copied_r,
        laws.copy old_s bs sn copy_r.1 holds_s copied_s,
      )
