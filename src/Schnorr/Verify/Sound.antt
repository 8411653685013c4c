-- ===== src/Schnorr/Verify/Sound.antt =====
-- `Verify` accepts only what meets the specification.
use mathlib.Core.Path.{subst}
use mathlib.Core.Bool.{false≢true}
use Prim.Native.Nat.{compare}
use scilla.Base.{
  is_equal, is_less, ℕ, ◌+◌, ◌%◌, ◌<◌, ◌≡◌, refl, sym, ap, ◌∙◌, not, true, false, Option, none,
  some, length, replicate, length-replicate, All, arith, ltb, ◌==◌, if◌then◌else◌, done,
  done-injective, bind-eq-done, passed, passed_over, pure,
}
use scilla.Base.Bytes.{Bytes, IsByte, be, slice, u32}
use scilla.OpenSsl.{OpenSsl}
use scilla.OpenSsl.Documented.{Meaning, Holds, Documented}
use scilla.OpenSsl.NullContext.{nnmod_null-eq-done}
use scilla.Curve.{Curve}
use scilla.Sha2
use scilla.Sha2.{Sha2}
use scilla.Sha2.Digests.{new-Has}
use scilla.PubKey.{PubKey}
use scilla.Signature.{Signature}
use scilla.Schnorr.{transcript}
use scilla.Schnorr.Transcript.{transcript-digest}
use scilla.Schnorr.Valid.{challenge, IsValid}
use scilla.Schnorr.Verify.{
  out_of_range, verify_challenge, verify_with, verify_start, verify_allocate, verify_range,
}

module _ {ssl : OpenSsl} {m : Meaning ssl} (laws : Documented ssl m) where
  open ssl use {World, Bignum, Group, Point, ec_point_mul}
  open laws use {cyclic, bignum, curve, null_context}

  -- The test of step 1.
  pub in_range :
      (c : Curve ssl) (o b : Bignum)
      → Holds m o m.order
      → out_of_range ssl c o b ≡ false
      → Holds m b (m.magnitude b) × (0 < m.magnitude b) × (m.magnitude b < m.order)
  unfolding out_of_range
  in_range c o b ho e =
      let n = m.magnitude b in
      let signless : ssl.bn_is_negative b ≡ false = ground arith in
      let holds : Holds m b n = record { not_negative = signless; value = refl } in
      let small : is_less (ssl.bn_cmp b o) ≡ true = ground arith in
      let nonzero : ssl.bn_is_zero b ≡ false = ground arith in
      let small' : is_less (compare n m.order) ≡ true =
        rw (bignum.cmp b o n m.order holds ho) at small in
      let nonzero' : (n == 0) ≡ false = rw (bignum.is_zero b n holds) at nonzero in
      (holds, ground arith, ground arith)

  -- Step 5: the rebuilt challenge is the signature's.
  challenge_agrees :
      (c : Curve ssl) (o r ch : Bignum) (n : ℕ) (sha2 : Sha2 ssl) (w w' : World) (bytes : Bytes)
      → Holds m o m.order
      → Holds m r n
      → sha2.output ≡ m.digest bytes
      → verify_challenge ssl c o r ch (some sha2) w ≡ done (true, w')
      → be (m.digest bytes) % m.order ≡ n
  unfolding verify_challenge
  challenge_agrees c o r ch n sha2 w w' bytes ho hr output e =
      let (built, e₁) = passed _ _ false true _ w' false≢true e in
      let c₁ = (ssl.bn_bin2bn_into sha2.output ch w).0.1 in
      let digest_IsByte = subst (All IsByte) (sym output) (curve.digest-IsByte bytes) in
      let h₁ = bignum.bin2bn_into sha2.output ch w digest_IsByte built in
      let w₁ = (ssl.bn_bin2bn_into sha2.output ch w).1 in
      let n₂ = ssl.bn_nnmod c₁ c₁ o w₁ in
      let (_, e₂) =
        nnmod_null-eq-done null_context c₁ c₁ o (be sha2.output) m.order h₁ ho
          (λ t. pure (if not t.0 then false else is_equal (ssl.bn_cmp t.1 r))) w₁ (true, w') e₁ in
      let answer : (if not n₂.0.0 then false else is_equal (ssl.bn_cmp n₂.0.1 r)) ≡ true =
        ap (λ p. p.0) (done-injective e₂) in
      let reduced : n₂.0.0 ≡ true = ground arith in
      let equal : is_equal (ssl.bn_cmp n₂.0.1 r) ≡ true = ground arith in
      let h₂ = bignum.nnmod c₁ c₁ o _ m.order w₁ h₁ ho cyclic.order_pos reduced in
      let equal' : is_equal (compare (be sha2.output % m.order) n) ≡ true =
        rw (bignum.cmp n₂.0.1 r _ n h₂ hr) at equal in
      rw (← output) (ground arith)

  module _ (g : Group) (o r s : Bignum) (p : Point) (ho : Holds m o m.order) where
    abbrev allocated : Curve ssl
    allocated = record { m_group = some g; m_order = some o }

    abbrev candidate : Signature ssl
    candidate = record { m_r = some r; m_s = some s }

    abbrev key : PubKey ssl
    key = record { m_P = some p }

    -- From the transcript on.
    rebuilt :
        (ch : Bignum) (q : Point) (message : Bytes) (offset size : ℕ) (w w₁ w' : World)
        (hashed : Option (Sha2 ssl))
        → transcript ssl allocated
            (Sha2.new ssl Sha2.hash_variant_256)
            (replicate 33 0)
            g
            q
            key
            message
            offset
            size
            w
          ≡ done (hashed, w₁)
        → verify_challenge ssl allocated o r ch hashed w₁ ≡ done (true, w')
        → Holds m r (m.magnitude r)
        → challenge m (m.element q) (m.element p) (slice offset size message) ≡ m.magnitude r
    rebuilt ch q message offset size w w₁ w' none t e hr = unfold verify_challenge in cc
    rebuilt ch q message offset size w w₁ w' (some sha2) t e hr =
        let (output, _) =
          transcript-digest curve allocated _ (replicate 33 0) g q p message offset size w w₁ sha2
            (new-Has curve) (length-replicate {A = ℕ} 33 0) t in
        challenge_agrees allocated o r ch _ sha2 w₁ w' _ ho hr output e

    pub verify_with-IsValid :
        (ch : Bignum) (q : Point) (message : Bytes) (offset size : ℕ) (w w' : World)
        → verify_with ssl allocated ch q message offset size candidate key w ≡ done (true, w')
        → IsValid m (m.magnitude r) (m.magnitude s) (m.element p) (slice offset size message)
    unfolding verify_with
    verify_with-IsValid ch q message offset size w w' e =
        let (r_in, e₁) = passed_over _ _ false true w w' false≢true e in
        let (s_in, e₂) = passed_over _ _ false true w w' false≢true e₁ in
        let product = ec_point_mul g q s (some (p, r)) w in
        let (multiplied, e₃) = passed _ _ false true product.1 w' false≢true e₂ in
        let (finite, e₄) = passed_over _ _ false true product.1 w' false≢true e₃ in
        let ((hashed, w₂), transcribed, e₅) = bind-eq-done _ _ e₄ in
        let (hr, r_pos, r_lt) = in_range allocated o r ho r_in in
        let (hs, s_pos, s_lt) = in_range allocated o s ho s_in in
        let point = curve.mul_add g q p s r _ _ w hs hr multiplied in
        let agrees =
          rebuilt ch product.0.1 message offset size product.1 w₂ w' hashed transcribed e₅ hr in
        record {
          r_pos = r_pos;
          r_lt = r_lt;
          s_pos = s_pos;
          s_lt = s_lt;
          finite = λ at_infinity.
              false≢true (sym finite ∙ (curve.at_infinity g product.0.1).1 (point ∙ at_infinity));
          agrees =
              subst (λ t. challenge m t (m.element p) (slice offset size message) ≡ m.magnitude r)
                point agrees;
        }

    started :
        (message : Bytes) (offset size : ℕ) (ch : Option Bignum) (q : Option Point)
        (ctx : Option (Unit {0})) (w w' : World)
        → verify_start ssl allocated message offset size candidate key ch q ctx w ≡ done (true, w')
        → (ch' : Bignum) × (q' : Point) × (verify_with ssl allocated ch' q' message offset size
              candidate key w
            ≡ done (true, w'))
    unfolding verify_start
    started message offset size (some ch) (some q) (some _) w w' e = (ch, q, e)
    started message offset size (some ch) (some q) none w w' e = cc
    started message offset size (some ch) none ctx w w' e = cc
    started message offset size none q ctx w w' e = cc

    -- What `Verify` accepts, it has checked: if the answer is true, then r and s lie in 1, ...,
    -- order - 1, sG + r * kpub is not the point at infinity, and r is the challenge of that point, the
    -- key and the part of the message. The curve, the key and the signature are allocated.
    pub verify_range-IsValid :
        (message : Bytes) (offset size : ℕ) (w w' : World)
        → verify_range ssl allocated message offset size candidate key w ≡ done (true, w')
        → IsValid m (m.magnitude r) (m.magnitude s) (m.element p) (slice offset size message)
    unfolding verify_range
    verify_range-IsValid message offset size w w' e =
        let main = verify_allocate ssl allocated message offset size candidate key in
        let beyond = ltb (length message) ((offset + size) % u32) in
        let checked = if beyond then pure false else main in
        let (_, e₁) = passed_over (length message == 0) checked false true w w' false≢true e in
        let (_, e₂) = passed_over beyond main false true w w' false≢true e₁ in
        let ch = ssl.bn_new w in
        let q = ssl.ec_point_new g ch.1 in
        let ctx = ssl.bn_ctx_new q.1 in
        let (ch', q', e₃) = started message offset size ch.0 q.0 ctx.0 ctx.1 w' e₂ in
        verify_with-IsValid ch' q' message offset size ctx.1 w' e₃
