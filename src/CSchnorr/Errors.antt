-- ===== src/CSchnorr/Errors.antt =====
-- What the C functions check, and what they write.
use native.Mathlib.Nat.{zero-add}
use scilla.Base.{
  ℕ, ◌+◌, [], drop-append, ◌≤◌, ◌≡◌, ◌∙◌, ap, sym, refl, Bool, true, false, not, length, drop, ◌==◌,
  ==_iff, if◌then◌else◌, aborted, done, bind-eq-done, lift-eq-done, done-injective, Run, lift,
  arith,
}
use scilla.Base.Bytes.{Bytes, read, write, splice}
use scilla.Base.Bytes.Laws.{read-eq-slice, length-splice}
use scilla.OpenSsl.{OpenSsl}
use scilla.Curve.{Curve}
use scilla.CSchnorr.{RawBytes, copy_out, sign_z, verify_z}
use scilla.Schnorr.Sign
use scilla.Schnorr.Verify
use scilla.PrivKey
use scilla.PubKey
use scilla.Signature

-- A test whose failure aborts.
asserted :
    {W A : Type 0} (b : Bool) (x : Run W A) (w : W) (a : A × W)
    → (if not b then lift aborted else x) w ≡ done a
    → (b ≡ true) × (x w ≡ done a)
asserted true x w a e = (refl, e)
asserted false x w a e = cc

length_test : (a b : ℕ) → (a == b) ≡ true → a ≡ b
length_test a b e = (==_iff a b).0 e

write-eq-splice :
    (bs v v' : Bytes) → write 0 bs v ≡ done v' → (v' ≡ splice 0 bs v) × (0 + length bs ≤ length v)
unfolding write
write-eq-splice bs v v' e = ground arith

-- The end of `sign_Z` writes inside the caller's buffer.
copied_out :
    {W : Type 0} (s : Bytes) (buffer out : RawBytes) (w w' : W)
    → (if not (length s == buffer.len) then lift aborted else copy_out buffer s) w ≡ done (out, w')
    → (out.len ≡ buffer.len)
      × (length out.raw ≡ length buffer.raw)
      × (drop buffer.len out.raw ≡ drop buffer.len buffer.raw)
copied_out s buffer out w w' e =
    let (t, e₁) = asserted (length s == buffer.len) (copy_out buffer s) w (out, w') e in
    let (raw', v, e₂) = lift-eq-done (write 0 s buffer.raw) _ w (out, w') e₁ in
    let (spliced, room) = write-eq-splice s buffer.raw raw' v in
    let same : record buffer { raw = raw' } ≡ out = ap (λ t. t.0) (done-injective e₂) in
    let count = length_test (length s) buffer.len t in
    let kept : length raw' ≡ length buffer.raw =
      ap length spliced ∙ length-splice 0 s buffer.raw room in
    let behind : drop buffer.len raw' ≡ drop buffer.len buffer.raw =
      ap (drop buffer.len) spliced
      ∙ drop-append buffer.len s (drop (0 + length s) buffer.raw) count
      ∙ ap (λ n. drop n buffer.raw) (zero-add (length s) ∙ count) in
    (
      ap (λ t. t.len) (sym same),
      ap (λ t. length t.raw) (sym same) ∙ kept,
      ap (λ t. drop buffer.len t.raw) (sym same) ∙ behind,
    )

module _ (ssl : OpenSsl) (curve : Curve ssl) where
  open ssl use {World}

  -- `verify_Z` returns only if the two lengths are those of a public key and of a signature and the
  -- two buffers are as long as they are said to be. It then returns 0 or 1.
  pub verify_z_lengths :
      (pub_key message signature : RawBytes) (w w' : World) (n : ℕ)
      → verify_z ssl curve pub_key message signature w ≡ done (n, w')
      → (pub_key.len ≡ 33)
        × (signature.len ≡ 64)
        × (33 ≤ length pub_key.raw)
        × (64 ≤ length signature.raw)
        × (n ≤ 1)
  unfolding verify_z
  verify_z_lengths pub_key message signature w w' n e =
      let (t₁, e₁) = asserted (pub_key.len == 33) _ w (n, w') e in
      let (t₂, e₂) = asserted (signature.len == 64) _ w (n, w') e₁ in
      let (pub_k, p, e₃) = lift-eq-done (read 0 pub_key.len pub_key.raw) _ w (n, w') e₂ in
      let (m, q, e₄) = lift-eq-done (read 0 message.len message.raw) _ w (n, w') e₃ in
      let (s, r, e₅) = lift-eq-done (read 0 signature.len signature.raw) _ w (n, w') e₄ in
      let ((key, w₁), f₁, e₆) = bind-eq-done (PubKey.from_stream ssl curve pub_k 0 w) _ e₅ in
      let ((sig, w₂), f₂, e₇) = bind-eq-done (Signature.from_stream ssl s 0 w₁) _ e₆ in
      let ((accepted, w₃), f₃, e₈) = bind-eq-done (Verify.verify ssl curve m sig key w₂) _ e₇ in
      let answer : (if accepted then 1 else 0) ≡ n = ap (λ t. t.0) (done-injective e₈) in
      let (_, inside) = read-eq-slice 0 pub_key.len pub_key.raw pub_k p in
      let (_, inside') = read-eq-slice 0 signature.len signature.raw s r in
      let one = length_test _ _ t₁ in
      let two = length_test _ _ t₂ in (one, two, omega arith, omega arith, ground arith)

  -- `sign_Z` returns only if the two lengths are those of the keys, and it then writes inside the
  -- caller's buffer: the buffer keeps its size, and the bytes behind the length that it is said to
  -- have stay.
  pub sign_z_inside :
      (fuel : ℕ) (priv_key pub_key message signature out : RawBytes) (w w' : World)
      → sign_z ssl curve fuel priv_key pub_key message signature w ≡ done (out, w')
      → (priv_key.len ≡ 32)
        × (pub_key.len ≡ 33)
        × (out.len ≡ signature.len)
        × (length out.raw ≡ length signature.raw)
        × (drop signature.len out.raw ≡ drop signature.len signature.raw)
  unfolding sign_z
  sign_z_inside fuel priv_key pub_key message signature out w w' e =
      let (t₁, e₁) = asserted (priv_key.len == 32) _ w (out, w') e in
      let (t₂, e₂) = asserted (pub_key.len == 33) _ w (out, w') e₁ in
      let (priv_k, p, e₃) = lift-eq-done (read 0 priv_key.len priv_key.raw) _ w (out, w') e₂ in
      let (pub_k, q, e₄) = lift-eq-done (read 0 pub_key.len pub_key.raw) _ w (out, w') e₃ in
      let (m, r, e₅) = lift-eq-done (read 0 message.len message.raw) _ w (out, w') e₄ in
      let ((key, w₁), f₁, e₆) = bind-eq-done (PrivKey.from_stream ssl priv_k 0 w) _ e₅ in
      let ((key', w₂), f₂, e₇) = bind-eq-done (PubKey.from_stream ssl curve pub_k 0 w₁) _ e₆ in
      let ((sig, w₃), f₃, e₈) = bind-eq-done (Signature.new ssl w₂) _ e₇ in
      let ((signed, w₄), f₄, e₉) = bind-eq-done (Sign.sign ssl curve fuel m key key' sig w₃) _ e₈ in
      let ((s, w₅), f₅, e₁₀) = bind-eq-done (Signature.serialize ssl signed.1 [] 0 w₄) _ e₉ in
      let (kept, size, behind) = copied_out s.0 signature out w₅ w' e₁₀ in
      (length_test _ _ t₁, length_test _ _ t₂, kept, size, behind)
