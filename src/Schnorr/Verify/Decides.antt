-- ===== src/Schnorr/Verify/Decides.antt =====
-- `Verify` decides whether a signature meets the specification, if no call of OpenSSL fails, wherever
-- BN_nnmod returns without a BN_CTX.
use scilla.Base.{
  ℕ, ◌+◌, ◌%◌, ◌≤◌, ◌<◌, ◌≡◌, ◌≢◌, ◌↔◌, refl, sym, ap, ◌∙◌, Bool, true, false, some, length,
  replicate, arith, ◌==◌, done, done-injective, le→ltb, is_equal, Bool-cases, inl, inr, Outcome,
  undefined, ◌⊎◌, All, length-replicate,
}
use mathlib.Core.Path.{subst}
use mathlib.Core.Bool.{false≢true}
use scilla.Base.Bytes.{Bytes, IsByte, be, slice, u32}
use scilla.OpenSsl.{OpenSsl}
use scilla.OpenSsl.Documented.{Meaning, Holds, Documented}
use scilla.OpenSsl.Reliable.{IsReliable}
use scilla.OpenSsl.NullContext.{nnmod_null_returns, nnmod_null_crashes}
use scilla.Curve.{Curve}
use scilla.Sha2
use scilla.Sha2.{Sha2}
use scilla.Sha2.Digests.{new-Has}
use scilla.PubKey.{PubKey}
use scilla.Signature.{Signature}
use scilla.Schnorr.Transcript.{transcript_total, transcript-digest}
use scilla.Schnorr.Valid.{IsValid, reduces, commitment}
use scilla.Schnorr.Verify.{
  out_of_range, verify_challenge, verify_with, verify_start, verify_allocate, verify_range,
}
use scilla.Schnorr.Verify.Sound.{verify_range-IsValid}
use scilla.Schnorr.Verify.Complete.{verify_range-Accepts}

-- A run that ends with an answer, or is undefined where BN_nnmod does not return.
abbrev Answers : {W : Type 0} → Bool → Outcome (Bool × W) → Type 0
Answers {W} reduced x =
    ((b : Bool) × (w' : W) × (x ≡ done (b, w'))) ⊎ ((reduced ≡ false) × (x ≡ undefined))

ends_once :
    {W : Type 0} {b : Bool} {w : W}
    → ◌≡◌ {A = Outcome (Bool × W)} (done (b, w)) undefined
    → b ≡ true
ends_once e = cc

module _ {ssl : OpenSsl} {m : Meaning ssl} (laws : Documented ssl m) (reliable : IsReliable ssl m)
    (g : ssl.Group) (o r s : ssl.Bignum) (p : ssl.Point) (rn sn : ℕ) (ho : Holds m o m.order)
    (hr : Holds m r rn) (hs : Holds m s sn) where
  open ssl use {World, Bignum, Group, Point, ec_point_mul}
  open laws use {cyclic, bignum, curve, null_context}

  abbrev allocated : Curve ssl
  allocated = record { m_group = some g; m_order = some o }

  abbrev candidate : Signature ssl
  candidate = record { m_r = some r; m_s = some s }

  abbrev key : PubKey ssl
  key = record { m_P = some p }

  abbrev reduced_in : Bytes → ℕ → ℕ → Bool
  reduced_in message offset size =
      reduces m (commitment m rn sn (m.element p)) (m.element p) (slice offset size message)

  challenge-Answers :
      (ch : Bignum) (sha2 : Sha2 ssl) (w : World) (bytes : Bytes)
      → sha2.output ≡ m.digest bytes
      → Answers
          (m.survives (be (m.digest bytes)) m.order)
          (verify_challenge ssl allocated o r ch (some sha2) w)
  unfolding verify_challenge
  challenge-Answers ch sha2 w bytes output =
      let digest_IsByte = subst (All IsByte) (sym output) (curve.digest-IsByte bytes) in
      let a = ssl.bn_bin2bn_into sha2.output ch w in
      let built = reliable.built sha2.output ch w in
      let h₁ = bignum.bin2bn_into sha2.output ch w digest_IsByte built in
      let number = ap (λ t. m.survives (be t) m.order) output in
      let reduced = reliable.reduced a.0.1 a.0.1 o m.order a.1 ho cyclic.order_pos in
      let c = ssl.bn_nnmod a.0.1 a.0.1 o a.1 in
      elim (Bool-cases (m.survives (be (m.digest bytes)) m.order)) [
        | inl t ↦
            let returns =
              nnmod_null_returns null_context a.0.1 a.0.1 o _ m.order h₁ ho a.1 (number ∙ t) in
            inl (is_equal (ssl.bn_cmp c.0.1 r), c.1, rw (built, returns, reduced) refl)
        | inr f ↦
            let crashes =
              nnmod_null_crashes null_context a.0.1 a.0.1 o _ m.order h₁ ho a.1 (number ∙ f) in
            inr (f, rw (built, crashes))
      ]

  verify_with-Answers :
      (ch : Bignum) (q : Point) (message : Bytes) (offset size : ℕ) (w : World)
      → offset + size ≤ length message
      → m.element p ≢ m.infinity
      → Answers
          (reduced_in message offset size)
          (verify_with ssl allocated ch q message offset size candidate key w)
  unfolding verify_with
  verify_with-Answers ch q message offset size w inside finite =
      let product = ec_point_mul g q s (some (p, r)) w in
      let multiplied = reliable.multiplied g q s (some (p, r)) w in
      elim (Bool-cases (out_of_range ssl allocated o r)) [
        | inl out_r ↦ inl (false, w, rw out_r refl)
        | inr in_r ↦ elim (Bool-cases (out_of_range ssl allocated o s)) [
          | inl out_s ↦ inl (false, w, rw (in_r, out_s) refl)
          | inr in_s ↦ elim (Bool-cases (ssl.ec_point_is_at_infinity g product.0.1)) [
            | inl at ↦ inl (false, product.1, rw (in_r, in_s, multiplied, at) refl)
            | inr not_at ↦
                let q_finite : m.element product.0.1 ≢ m.infinity =
                  λ h. false≢true (sym not_at ∙ (curve.at_infinity g product.0.1).1 h) in
                let (out, w₁, transcribed) =
                  transcript_total curve allocated reliable (Sha2.new ssl Sha2.hash_variant_256)
                    (replicate 33 0) g product.0.1 p message offset size product.1 q_finite finite
                    inside in
                let (output, _) =
                  transcript-digest curve allocated _ (replicate 33 0) g product.0.1 p message
                    offset size product.1 w₁ out (new-Has curve) (length-replicate {A = ℕ} 33 0)
                    transcribed in
                let point = curve.mul_add g q p s r sn rn w hs hr multiplied in
                let answered =
                  subst
                    (λ t.
                      Answers (reduces m t (m.element p) (slice offset size message))
                        (verify_challenge ssl allocated o r ch (some out) w₁))
                    point (challenge-Answers ch out w₁ _ output) in
                rw (in_r, in_s, multiplied, not_at, transcribed) answered
          ]
        ]
      ]

  verify_range-Answers :
      (message : Bytes) (offset size : ℕ) (w : World)
      → 0 < length message
      → length message < u32
      → offset + size ≤ length message
      → m.element p ≢ m.infinity
      → Answers
          (reduced_in message offset size)
          (verify_range ssl allocated message offset size candidate key w)
  unfolding verify_range verify_allocate verify_start
  verify_range-Answers message offset size w nonempty small inside finite =
      let some_byte : (length message == 0) ≡ false = ground arith in
      let place : (offset + size) % u32 ≡ offset + size = omega arith in
      let c = ssl.bn_new w in
      let q = ssl.ec_point_new g c.1 in
      let x = ssl.bn_ctx_new q.1 in
      let (ch, some_ch) = reliable.new_some w in
      let (point, some_point) = reliable.point_some g c.1 in
      rw
        (
          some_byte,
          place,
          le→ltb (length message) (offset + size) inside,
          some_ch,
          some_point,
          reliable.ctx_some q.1,
        )
        (verify_with-Answers ch point message offset size x.1 inside finite)

  -- If no call of OpenSSL fails, `Verify` returns, and its answer is true just for a signature that
  -- meets the specification; or BN_nnmod, to which it hands NULL for the BN_CTX, does not return from
  -- the reduction of the challenge's hash, and the run is undefined. The message is not empty and
  -- shorter than 2 ^ 32, the range lies in it, the key is not the point at infinity, and the numbers r
  -- and s are not negative.
  pub verify_range_decides :
      (message : Bytes) (offset size : ℕ) (w : World)
      → 0 < length message
      → length message < u32
      → offset + size ≤ length message
      → m.element p ≢ m.infinity
      → ((b : Bool) × (w' : World) × (verify_range ssl allocated message offset size candidate key w
            ≡ done (b, w'))
          × ((b ≡ true) ↔ IsValid m rn sn (m.element p) (slice offset size message)))
        ⊎ ((reduces m (commitment m rn sn (m.element p)) (m.element p) (slice offset size message)
              ≡ false)
            × (verify_range ssl allocated message offset size candidate key w ≡ undefined))
  verify_range_decides message offset size w nonempty small inside finite =
      elim (verify_range-Answers message offset size w nonempty small inside finite) [
        | inr crashes ↦ inr crashes
        | inl (b, w', e) ↦ inl (
          b,
          w',
          e,
          (
            λ yes_b.
                let checked =
                  verify_range-IsValid laws g o r s p ho message offset size w w'
                    (e ∙ ap (λ t. done (t, w')) yes_b) in
                subst (λ n. IsValid m n sn (m.element p) (slice offset size message)) hr.value
                  (subst
                    (λ n. IsValid m (m.magnitude r) n (m.element p) (slice offset size message))
                    hs.value checked),
            λ v.
                elim (verify_range-Accepts laws reliable g o r s p rn sn ho hr hs message offset
                  size w nonempty small inside finite v) [
                    | inl (_, w'', accepted) ↦ ap (λ t. t.0) (done-injective (sym e ∙ accepted))
                    | inr (_, crashed) ↦ ends_once (sym e ∙ crashed)
                  ],
          ),
        )
      ]
