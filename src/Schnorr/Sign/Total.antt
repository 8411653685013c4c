-- ===== src/Schnorr/Sign/Total.antt =====
-- `Sign` returns: one round is enough if it draws a good nonce, wherever BN_nnmod returns without a
-- BN_CTX.
use mathlib.Core.Path.{subst}
use scilla.Base.{
  ℕ, Bool, suc, ◌+◌, ◌-◌, ◌*◌, ◌%◌, ◌≤◌, ◌<◌, ◌≡◌, ◌≢◌, sym, ap, ◌∙◌, true, false, none, some, [],
  length, replicate, length-replicate, All, arith, ◌==◌, le→ltb, done, undefined, Outcome, ◌⊎◌, inl,
  inr, Bool-cases,
}
use scilla.Base.Bytes.{Bytes, IsByte, be, slice, u32}
use scilla.OpenSsl.{OpenSsl}
use scilla.OpenSsl.Documented.{Meaning, Holds, Documented}
use scilla.OpenSsl.Reliable.{IsReliable}
use scilla.OpenSsl.NullContext.{nnmod_null_returns, nnmod_null_crashes}
use scilla.Curve.{Curve}
use scilla.Sha2
use scilla.Sha2.{Sha2}
use scilla.Sha2.Digests.{Has, new-Has}
use scilla.PrivKey.{PrivKey}
use scilla.PubKey.{PubKey}
use scilla.Signature.{Signature}
use scilla.Schnorr.Transcript.{transcript-digest, transcript_total}
use scilla.Schnorr.Valid.{challenge, reduces}
use scilla.Schnorr.Sign.{
  sign_nonce, sign_response, sign_finish, sign_commit, sign_round, sign_loop, sign_start,
  sign_allocate, sign_range, SignState, tested, Round,
}
use scilla.Schnorr.Sign.Response.{response_numbers}

module _ {ssl : OpenSsl} {m : Meaning ssl} (laws : Documented ssl m) (reliable : IsReliable ssl m)
    (g : ssl.Group) (o d : ssl.Bignum) (dn : ℕ) (p : ssl.Point) (ho : Holds m o m.order)
    (hd : Holds m d dn) where
  open ssl use {World, Bignum, Point, bn_generate_dsa_nonce, ec_point_mul}
  open laws use {cyclic, bignum, curve, null_context}

  abbrev allocated : Curve ssl
  allocated = record { m_group = some g; m_order = some o }

  abbrev priv : PrivKey ssl
  priv = record { m_d = some d }

  abbrev key : PubKey ssl
  key = record { m_P = some p }

  -- A round that ends the loop, or is undefined where BN_nnmod does not return.
  abbrev Finishes : Bool → Outcome (Round ssl allocated × World) → Type 0
  Finishes reduced x =
      ((next : SignState ssl allocated) × (w' : World) × (x ≡ done (tested false next, w')))
      ⊎ ((reduced ≡ false) × (x ≡ undefined))

  response_total :
      (k : Bignum) (digest : Bytes) (r s : Bignum) (w : World)
      → All IsByte digest
      → ((r' : Bignum) × (s' : Bignum) × (w' : World) × (sign_response ssl allocated o d k digest r
              s w
            ≡ done ((true, r', s'), w')))
        ⊎ ((m.survives (be digest) m.order ≡ false)
            × (sign_response ssl allocated o d k digest r s w ≡ undefined))
  unfolding sign_response
  response_total k digest r s w bytes =
      let a = ssl.bn_bin2bn_into digest r w in
      let b = ssl.bn_nnmod a.0.1 a.0.1 o a.1 in
      let c = ssl.bn_mod_mul s b.0.1 d o b.1 in
      let f = ssl.bn_mod_sub c.0.1 k c.0.1 o c.1 in
      let built = reliable.built digest r w in
      let h₁ = bignum.bin2bn_into digest r w bytes built in
      elim (Bool-cases (m.survives (be digest) m.order)) [
        | inl t ↦ inl (
          b.0.1,
          f.0.1,
          f.1,
          rw (
            built,
            nnmod_null_returns null_context a.0.1 a.0.1 o (be digest) m.order h₁ ho a.1 t,
            reliable.reduced a.0.1 a.0.1 o m.order a.1 ho cyclic.order_pos,
            reliable.product_reduced s b.0.1 d o m.order b.1 ho cyclic.order_pos,
            reliable.difference_reduced c.0.1 k c.0.1 o m.order c.1 ho cyclic.order_pos,
          ),
        )
        | inr u ↦ inr (
          u,
          rw (built, nnmod_null_crashes null_context a.0.1 a.0.1 o (be digest) m.order h₁ ho a.1 u),
        )
      ]

  not_zero : (b : Bignum) (n : ℕ) → Holds m b n → 0 < n → ssl.bn_is_zero b ≡ false
  not_zero b n h pos =
      let nonzero : (n == 0) ≡ false = ground arith in bignum.is_zero b n h ∙ nonzero

  -- The second number of the signature, from the nonce and the first.
  abbrev pub response : ℕ → ℕ → ℕ
  response kn rn = (kn + m.order - rn * dn % m.order) % m.order

  finish_total :
      (sha2 : Sha2 ssl) (k : Bignum) (kn : ℕ) (q : Point) (r s : Bignum) (w : World) (bytes : Bytes)
      → Holds m k kn
      → sha2.output ≡ m.digest bytes
      → 0 < be (m.digest bytes) % m.order
      → 0 < response kn (be (m.digest bytes) % m.order)
      → Finishes
          (m.survives (be (m.digest bytes)) m.order)
          (sign_finish ssl allocated o d sha2 k q (record { m_r = some r; m_s = some s }) w)
  unfolding sign_finish
  finish_total sha2 k kn q r s w bytes hk output r_pos s_pos =
      let digest_IsByte = subst (All IsByte) (sym output) (curve.digest-IsByte bytes) in
      elim (response_total k sha2.output r s w digest_IsByte) [
        | inl (r', s', w', e) ↦
            let (hr, hs, _) =
              response_numbers laws g o d dn p ho hd k kn sha2.output r s r' s' w w' hk
                digest_IsByte e in
            let number = ap (λ t. be t % m.order) output in
            let r_nonzero = not_zero r' _ hr (subst (λ t. 0 < t) (sym number) r_pos) in
            let s_nonzero = not_zero s' _ hs (subst (λ t. 0 < response kn t) (sym number) s_pos) in
            inl (
              record {
                k = k;
                q = q;
                buf = replicate 33 0;
                sha2 = Sha2.reset ssl sha2;
                result = record { m_r = some r'; m_s = some s' };
              },
              w',
              rw (e, r_nonzero, s_nonzero),
            )
        | inr (u, crashed) ↦ inr (ap (λ t. m.survives (be t) m.order) (sym output) ∙ u, rw crashed)
      ]

  module _ (message : Bytes) (offset size : ℕ) where
    -- What the hash of the commitment kG, the public key and the message gives.
    abbrev pub first_number : ℕ → ℕ
    first_number kn = challenge m (m.times kn m.generator) (m.element p) (slice offset size message)

    commit_total :
        (k : Bignum) (kn : ℕ) (k₀ : Bignum) (q : Point) (buf : Bytes) (sha2 : Sha2 ssl)
        (r s : Bignum) (w : World)
        → Holds m k kn
        → 0 < kn
        → kn < m.order
        → 0 < first_number kn
        → 0 < response kn (first_number kn)
        → m.element p ≢ m.infinity
        → offset + size ≤ length message
        → Has m sha2 []
        → length buf ≡ 33
        → Finishes (reduces m (m.times kn m.generator) (m.element p) (slice offset size message)) (
            sign_commit ssl allocated o d key message offset size
              (record {
                k = k₀;
                q = q;
                buf = buf;
                sha2 = sha2;
                result = record { m_r = some r; m_s = some s };
              })
              k
              w)
    unfolding sign_commit
    commit_total k kn k₀ q buf sha2 r s w hk k_pos k_lt r_pos s_pos finite inside has hb =
        let product = ec_point_mul g q k none w in
        let multiplied = reliable.multiplied g q k none w in
        let point = curve.mul g q k kn w hk multiplied in
        let q_finite : m.element product.0.1 ≢ m.infinity =
          λ h. cyclic.times-ne-infinity kn k_pos k_lt (sym point ∙ h) in
        let (out, w₁, transcribed) =
          transcript_total curve allocated reliable sha2 buf g product.0.1 p message offset size
            product.1 q_finite finite inside in
        let (output, _) =
          transcript-digest curve allocated sha2 buf g product.0.1 p message offset size product.1
            w₁ out has hb transcribed in
        let moved = ap (λ t. challenge m t (m.element p) (slice offset size message)) (sym point) in
        let finished =
          finish_total out k kn product.0.1 r s w₁ _ hk output (subst (λ t. 0 < t) moved r_pos)
            (subst (λ t. 0 < response kn t) moved s_pos) in
        let at_kn =
          subst
            (λ t. Finishes (reduces m t (m.element p) (slice offset size message)) (
              sign_finish ssl allocated o d out k product.0.1
                (record { m_r = some r; m_s = some s }) w₁))
            point finished in
        rw (multiplied, transcribed) at_kn

    -- The state of OpenSSL when the loop starts, and the first number that it then draws.
    abbrev started : World → World
    started w = (ssl.bn_ctx_new (ssl.ec_point_new g (ssl.bn_new w).1).1).1

    abbrev pub first_nonce : Bignum → World → (Bool × Bignum) × World
    first_nonce k₀ w = bn_generate_dsa_nonce k₀ o d message (started w)

    -- `Sign` answers true with one round of its loops, if no call of OpenSSL fails and the first
    -- nonce k is good: k is not 0, and neither are the two numbers that it gives; or BN_nnmod, to
    -- which it hands NULL for the BN_CTX, does not return from the reduction of the hash of kG, and
    -- the run is undefined. The message is not empty and shorter than 2 ^ 32, the range lies in it,
    -- and the public key is not the point at infinity.
    pub sign_range_returns :
        (fuel : ℕ) (r s k₀ : Bignum) (kn : ℕ) (w : World)
        → (ssl.bn_new w).0 ≡ some k₀
        → (first_nonce k₀ w).0.0 ≡ true
        → Holds m (first_nonce k₀ w).0.1 kn
        → 0 < kn
        → kn < m.order
        → 0 < first_number kn
        → 0 < response kn (first_number kn)
        → m.element p ≢ m.infinity
        → 0 < length message
        → length message < u32
        → offset + size ≤ length message
        → ((out : Signature ssl) × (w' : World) × (sign_range ssl allocated
                (suc fuel)
                message
                offset
                size
                priv
                key
                (record { m_r = some r; m_s = some s })
                w
              ≡ done ((true, out), w')))
          ⊎ ((reduces m (m.times kn m.generator) (m.element p) (slice offset size message) ≡ false)
              × (sign_range ssl allocated
                    (suc fuel)
                    message
                    offset
                    size
                    priv
                    key
                    (record { m_r = some r; m_s = some s })
                    w
                  ≡ undefined))
    unfolding sign_range sign_allocate sign_start sign_loop sign_round sign_nonce
    sign_range_returns fuel r s k₀ kn w new drawn hk k_pos k_lt r_pos s_pos finite some_byte small
          inside =
        let nonempty : (length message == 0) ≡ false = ground arith in
        let place : (offset + size) % u32 ≡ offset + size = omega arith in
        let c = (ssl.bn_new w).1 in
        let (q, some_q) = reliable.point_some g c in
        let nonce = first_nonce k₀ w in
        let nonzero = not_zero nonce.0.1 kn hk k_pos in
        let committing =
          commit_total nonce.0.1 kn k₀ q (replicate 33 0) (Sha2.new ssl Sha2.hash_variant_256) r s
            nonce.1 hk k_pos k_lt r_pos s_pos finite inside (new-Has curve)
            (length-replicate {A = ℕ} 33 0) in
        let fits = le→ltb (length message) (offset + size) inside in
        let ctx = reliable.ctx_some (ssl.ec_point_new g c).1 in
        elim committing [
          | inl (next, w', committed) ↦ inl (
            next.result,
            w',
            rw (nonempty, place, fits, new, some_q, ctx, drawn, nonzero, committed),
          )
          | inr (u, crashed) ↦
              inr (u, rw (nonempty, place, fits, new, some_q, ctx, drawn, nonzero, crashed))
        ]
