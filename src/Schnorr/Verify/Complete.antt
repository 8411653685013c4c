-- ===== src/Schnorr/Verify/Complete.antt =====
-- `Verify` accepts every signature by the specification, if no call of OpenSSL fails.
use mathlib.Core.Path.{subst}
use Prim.Native.Nat.{compare}
use scilla.Base.{
  is_equal, ℕ, ◌+◌, ◌%◌, ◌≤◌, ◌<◌, ◌≡◌, ◌≢◌, refl, sym, ap, ◌∙◌, Bool, true, false, some, length,
  replicate, length-replicate, All, arith, ◌==◌, done, undefined, Outcome, ◌⊎◌, inl, inr,
  Bool-cases, le→ltb,
}
use scilla.Base.Bytes.{Bytes, IsByte, be, slice, u32}
use scilla.OpenSsl.{OpenSsl}
use scilla.OpenSsl.Documented.{Meaning, Holds, Documented}
use scilla.OpenSsl.Reliable.{IsReliable}
use scilla.OpenSsl.NullContext.{nnmod_null_returns, nnmod_null_crashes}
use scilla.Curve.{Curve}
use scilla.Sha2
use scilla.Sha2.{Sha2}
use scilla.Sha2.Digests.{new-Has}
use scilla.PubKey.{PubKey}
use scilla.Signature.{Signature}
use scilla.Schnorr.Transcript.{transcript-digest, transcript_total}
use scilla.Schnorr.Valid.{challenge, reduces, commitment, IsValid}
use scilla.Schnorr.Verify.{
  out_of_range, verify_challenge, verify_with, verify_start, verify_allocate, verify_range,
}

-- A run that answers true, or is undefined where BN_nnmod does not return.
abbrev pub Accepts : {W : Type 0} → Bool → Outcome (Bool × W) → Type 0
Accepts {W} reduced x =
    ((reduced ≡ true) × (w' : W) × (x ≡ done (true, w'))) ⊎ ((reduced ≡ false) × (x ≡ undefined))

module _ {ssl : OpenSsl} {m : Meaning ssl} (laws : Documented ssl m) (reliable : IsReliable ssl m)
    (g : ssl.Group) (o r s : ssl.Bignum) (p : ssl.Point) (rn sn : ℕ) (ho : Holds m o m.order)
    (hr : Holds m r rn) (hs : Holds m s sn) where
  open ssl use {World, Bignum, Group, Point, ec_point_mul}
  open laws use {cyclic, bignum, curve, null_context}

  abbrev allocated : Curve ssl
  allocated = record { m_group = some g; m_order = some o }

  abbrev candidate : Signature ssl
  candidate = record { m_r = some r; m_s = some s }

  abbrev key : PubKey ssl
  key = record { m_P = some p }

  -- Whether BN_nnmod returns from the reduction of the challenge's hash.
  abbrev pub reduced_in : Bytes → ℕ → ℕ → Bool
  reduced_in message offset size =
      reduces m (commitment m rn sn (m.element p)) (m.element p) (slice offset size message)

  range_passed :
      (b : Bignum) (n : ℕ)
      → Holds m b n
      → 0 < n
      → n < m.order
      → out_of_range ssl allocated o b ≡ false
  unfolding out_of_range
  range_passed b n hb pos lt =
      rw (bignum.is_zero b n hb, hb.not_negative, bignum.cmp b o n m.order hb ho) (ground arith)

  not_true : (b : Bool) → b ≢ true → b ≡ false
  not_true true h = absurd (h refl)
  not_true false h = refl

  challenge_passed :
      (ch : Bignum) (sha2 : Sha2 ssl) (w : World) (bytes : Bytes)
      → sha2.output ≡ m.digest bytes
      → be (m.digest bytes) % m.order ≡ rn
      → Accepts
          (m.survives (be (m.digest bytes)) m.order)
          (verify_challenge ssl allocated o r ch (some sha2) w)
  unfolding verify_challenge
  challenge_passed ch sha2 w bytes output agrees =
      let digest_IsByte = subst (All IsByte) (sym output) (curve.digest-IsByte bytes) in
      let a = ssl.bn_bin2bn_into sha2.output ch w in
      let built = reliable.built sha2.output ch w in
      let h₁ = bignum.bin2bn_into sha2.output ch w digest_IsByte built in
      let reduced = reliable.reduced a.0.1 a.0.1 o m.order a.1 ho cyclic.order_pos in
      let h₂ = bignum.nnmod a.0.1 a.0.1 o _ m.order a.1 h₁ ho cyclic.order_pos reduced in
      let number : be sha2.output % m.order ≡ rn = ap (λ t. be t % m.order) output ∙ agrees in
      let equal : is_equal (compare (be sha2.output % m.order) rn) ≡ true = ground arith in
      let c = ssl.bn_nnmod a.0.1 a.0.1 o a.1 in
      let digest_number = ap be output in
      elim (Bool-cases (m.survives (be (m.digest bytes)) m.order)) [
        | inl t ↦
            let returns =
              nnmod_null_returns null_context a.0.1 a.0.1 o (be sha2.output) m.order h₁ ho a.1
                (ap (λ n. m.survives n m.order) digest_number ∙ t) in
            inl (t, c.1, rw (built, returns, reduced, bignum.cmp c.0.1 r _ rn h₂ hr, equal))
        | inr f ↦
            let crashes =
              nnmod_null_crashes null_context a.0.1 a.0.1 o (be sha2.output) m.order h₁ ho a.1
                (ap (λ n. m.survives n m.order) digest_number ∙ f) in
            inr (f, rw (built, crashes))
      ]

  verify_with_total :
      (ch : Bignum) (q : Point) (message : Bytes) (offset size : ℕ) (w : World)
      → offset + size ≤ length message
      → m.element p ≢ m.infinity
      → IsValid m rn sn (m.element p) (slice offset size message)
      → Accepts
          (reduced_in message offset size)
          (verify_with ssl allocated ch q message offset size candidate key w)
  unfolding verify_with
  verify_with_total ch q message offset size w inside finite v =
      let product = ec_point_mul g q s (some (p, r)) w in
      let multiplied = reliable.multiplied g q s (some (p, r)) w in
      let point = curve.mul_add g q p s r sn rn w hs hr multiplied in
      let q_finite : m.element product.0.1 ≢ m.infinity = λ h. v.finite (sym point ∙ h) in
      let not_at : ssl.ec_point_is_at_infinity g product.0.1 ≡ false =
        not_true _ (λ h. q_finite ((curve.at_infinity g product.0.1).0 h)) in
      let (out, w₁, transcribed) =
        transcript_total curve allocated reliable (Sha2.new ssl Sha2.hash_variant_256)
          (replicate 33 0) g product.0.1 p message offset size product.1 q_finite finite inside in
      let (output, _) =
        transcript-digest curve allocated _ (replicate 33 0) g product.0.1 p message offset size
          product.1 w₁ out (new-Has curve) (length-replicate {A = ℕ} 33 0) transcribed in
      let bytes = slice offset size message in
      let accepted =
        challenge_passed ch out w₁ _ output
          (ap (λ t. challenge m t (m.element p) bytes) point ∙ v.agrees) in
      let moved =
        subst
          (λ t.
            Accepts (reduces m t (m.element p) bytes)
              (verify_challenge ssl allocated o r ch (some out) w₁))
          point accepted in
      rw
        (
          range_passed r rn hr v.r_pos v.r_lt,
          range_passed s sn hs v.s_pos v.s_lt,
          multiplied,
          not_at,
          transcribed,
        )
        moved

  -- If no call of OpenSSL fails, `Verify` answers true for a signature that meets the specification,
  -- or is undefined, just where BN_nnmod does not return from the reduction of its hash: on a message that is not empty and shorter than 2 ^ 32, a range inside it, a key that is not the
  -- point at infinity, and numbers r and s that are not negative.
  pub verify_range-Accepts :
      (message : Bytes) (offset size : ℕ) (w : World)
      → 0 < length message
      → length message < u32
      → offset + size ≤ length message
      → m.element p ≢ m.infinity
      → IsValid m rn sn (m.element p) (slice offset size message)
      → Accepts
          (reduced_in message offset size)
          (verify_range ssl allocated message offset size candidate key w)
  unfolding verify_range verify_allocate verify_start
  verify_range-Accepts message offset size w nonempty small inside finite v =
      let some_byte : (length message == 0) ≡ false = ground arith in
      let place : (offset + size) % u32 ≡ offset + size = omega arith in
      let c = ssl.bn_new w in
      let q = ssl.ec_point_new g c.1 in
      let x = ssl.bn_ctx_new q.1 in
      let (ch, some_ch) = reliable.new_some w in
      let (point, some_point) = reliable.point_some g c.1 in
      rw
        (
          some_byte,
          place,
          le→ltb (length message) (offset + size) inside,
          some_ch,
          some_point,
          reliable.ctx_some q.1,
        )
        (verify_with_total ch point message offset size x.1 inside finite v)
