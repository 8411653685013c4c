-- ===== src/Schnorr/Sign/Sound.antt =====
-- What `Sign` answers true for is a signature by the specification.
use mathlib.Core.Bool.{false≢true}
use scilla.Base.{
  ℕ, zero, suc, ◌+◌, ◌%◌, ◌<◌, ◌≡◌, ◌≢◌, refl, sym, ap, ◌∙◌, Bool, true, false, Option, none, some,
  [], length, replicate, length-replicate, ltb, ◌==◌, if◌then◌else◌, done, done-injective,
  bind-eq-done, passed, passed_over, pure, Run,
}
use scilla.Base.Bytes.{Bytes, slice, u32}
use scilla.OpenSsl.{OpenSsl}
use scilla.OpenSsl.Documented.{Meaning, Holds, Documented}
use scilla.Curve.{Curve}
use scilla.Sha2.{Sha2}
use scilla.Sha2.Digests.{Has, new-Has}
use scilla.PrivKey.{PrivKey}
use scilla.PubKey.{PubKey}
use scilla.Signature.{Signature}
use scilla.Schnorr.{transcript}
use scilla.Schnorr.Transcript.{transcript-digest}
use scilla.Schnorr.Sign.Response
use scilla.Schnorr.Sign.{
  sign_nonce, sign_finish, sign_commit, sign_round, sign_loop, sign_start, sign_allocate,
  sign_range, Round, SignState, tested, failed,
}

module _ {ssl : OpenSsl} {m : Meaning ssl} (laws : Documented ssl m) where
  open ssl use {World, Bignum, Group, Point, ec_point_mul}
  open laws use {curve}

  module _ (g : Group) (o d : Bignum) (dn : ℕ) (p : Point) (ho : Holds m o m.order)
      (hd : Holds m d dn) where
    abbrev allocated : Curve ssl
    allocated = record { m_group = some g; m_order = some o }

    abbrev priv : PrivKey ssl
    priv = record { m_d = some d }

    abbrev key : PubKey ssl
    key = record { m_P = some p }

    module _ (paired : m.element p ≡ m.times dn m.generator) where
      module _ (message : Bytes) (offset size : ℕ) where
        abbrev IsGood : Bool → SignState ssl allocated → Type 0
        IsGood res next =
            (r : Bignum) × (s : Bignum) × Response.IsReady laws g o d dn p ho hd next r s
            × (res ≡ false
                → Response.IsSigned laws g o d dn p ho hd (slice offset size message) r s)

        hashed_tested :
            (hashed : Option (Sha2 ssl)) (sha2 : Sha2 ssl) (buf : Bytes) (k : Bignum) (kn : ℕ)
            (q : Point) (r s : Bignum) (w₀ w w' : World) (res : Bool)
            (next : SignState ssl allocated)
            → Holds m k kn
            → 0 < kn
            → kn < m.order
            → m.element q ≡ m.times kn m.generator
            → Has m sha2 []
            → length buf ≡ 33
            → transcript ssl allocated sha2 buf g q key message offset size w₀ ≡ done (hashed, w)
            → (let result : Signature ssl = record { m_r = some r; m_s = some s } in
                let ending : Run World (Round ssl allocated) = elim hashed [
                  | none ↦ pure (failed result)
                  | some sha2' ↦ sign_finish ssl allocated o d sha2' k q result
                ] in
                ending w)
              ≡ done (tested res next, w')
            → IsGood res next
        hashed_tested none sha2 buf k kn q r s w₀ w w' res next hk k_pos k_lt eq has hb t e = cc
        hashed_tested (some sha2') sha2 buf k kn q r s w₀ w w' res next hk k_pos k_lt eq has hb t
              e =
            let (output, has') =
              transcript-digest curve allocated sha2 buf g q p message offset size w₀ w sha2' has hb
                t in
            Response.finish_tested laws g o d dn p ho hd paired sha2' k kn q r s w w'
              (slice offset size message) res next hk k_pos k_lt eq output has' e

        nonce_tested :
            (nonce : Option Bignum) (fuel : ℕ) (sha2 : Sha2 ssl) (buf : Bytes) (k₀ : Bignum)
            (q₀ : Point) (r s : Bignum) (w₀ w w' : World) (res : Bool)
            (next : SignState ssl allocated)
            → Has m sha2 []
            → length buf ≡ 33
            → sign_nonce ssl allocated fuel o d message k₀ w₀ ≡ done (nonce, w)
            → (let state = Response.variables laws g o d dn p ho hd k₀ q₀ buf sha2 r s in
                let ending : Run World (Round ssl allocated) = elim nonce [
                  | none ↦ pure (failed state.result)
                  | some k ↦ sign_commit ssl allocated o d key message offset size state k
                ] in
                ending w)
              ≡ done (tested res next, w')
            → IsGood res next
        unfolding sign_commit
        nonce_tested none fuel sha2 buf k₀ q₀ r s w₀ w w' res next has hb drawn e = cc
        nonce_tested (some k) fuel sha2 buf k₀ q₀ r s w₀ w w' res next has hb drawn e =
            let (kn, hk, k_pos, k_lt) =
              Response.nonce_range laws g o d dn p ho hd fuel message k₀ k w₀ w drawn in
            let product = ec_point_mul g q₀ k none w in
            let (multiplied, e₁) =
              passed product.0.0 _ (failed _) (tested res next) product.1 w' (λ h. cc) e in
            let point = curve.mul g q₀ k kn w hk multiplied in
            let ((hashed, w₁), transcribed, e₂) =
              bind-eq-done
                (transcript ssl allocated sha2 buf g product.0.1 key message offset size product.1)
                _ e₁ in
            hashed_tested hashed sha2 buf k kn product.0.1 r s product.1 w₁ w' res next hk k_pos
              k_lt point has hb transcribed e₂

        round_tested :
            (nonces : ℕ) (k : Bignum) (q : Point) (buf : Bytes) (sha2 : Sha2 ssl) (r s : Bignum)
            (w w' : World) (res : Bool) (next : SignState ssl allocated)
            → Has m sha2 []
            → length buf ≡ 33
            → sign_round ssl allocated nonces priv key message offset size
                (Response.variables laws g o d dn p ho hd k q buf sha2 r s)
                w
              ≡ done (tested res next, w')
            → IsGood res next
        unfolding sign_round
        round_tested nonces k q buf sha2 r s w w' res next has hb e =
            let ((nonce, w₁), drawn, e₁) =
              bind-eq-done (sign_nonce ssl allocated nonces o d message k w) _ e in
            nonce_tested nonce nonces sha2 buf k q r s w w₁ w' res next has hb drawn e₁

        -- A loop that answers true leaves a signature.
        abbrev LoopSigns : ℕ → ℕ → Type 0
        LoopSigns fuel nonces =
            (k : Bignum) (q : Point) (buf : Bytes) (sha2 : Sha2 ssl) (r s : Bignum) (w w' : World)
            (out : Signature ssl)
            → Has m sha2 []
            → length buf ≡ 33
            → sign_loop ssl allocated fuel nonces priv key message offset size
                (Response.variables laws g o d dn p ho hd k q buf sha2 r s) w
              ≡ done ((true, out), w')
            → (r' : Bignum) × (s' : Bignum) × (out ≡ record { m_r = some r'; m_s = some s' })
              × Response.IsSigned laws g o d dn p ho hd (slice offset size message) r' s'

        after_round :
            (round : Round ssl allocated) (fuel nonces : ℕ) (w w' : World) (out : Signature ssl)
            → LoopSigns fuel nonces
            → ((res : Bool) (next : SignState ssl allocated)
                → round ≡ tested res next
                → IsGood res next)
            → (let ending : Run World (Bool × Signature ssl) = elim round [
              | failed result ↦ pure (false, result)
              | tested res next ↦
                  let again =
                    sign_loop ssl allocated fuel nonces priv key message offset size next in
                  if res then again else pure (true, next.result)
            ] in
                ending w)
              ≡ done ((true, out), w')
            → (r' : Bignum) × (s' : Bignum) × (out ≡ record { m_r = some r'; m_s = some s' })
              × Response.IsSigned laws g o d dn p ho hd (slice offset size message) r' s'
        after_round (failed result) fuel nonces w w' out again good e = cc
        after_round (tested true next) fuel nonces w w' out again good e =
            let (r', s', (k, q, buf, sha2, same, has, hb), _) = good true next refl in
            again k q buf sha2 r' s' w w' out has hb (rw same at e)
        after_round (tested false next) fuel nonces w w' out again good e =
            let (r', s', (k, q, buf, sha2, same, has, hb), signed) = good false next refl in
            (
              r',
              s',
              sym (ap (λ t. t.0.1) (done-injective e)) ∙ ap (λ t. t.result) same,
              signed refl,
            )

        loop_signed : (fuel nonces : ℕ) → LoopSigns fuel nonces
        unfolding sign_loop
        loop_signed zero nonces k q buf sha2 r s w w' out has hb e = cc
        loop_signed (suc fuel) nonces k q buf sha2 r s w w' out has hb e =
            let state = Response.variables laws g o d dn p ho hd k q buf sha2 r s in
            let ((round, w₁), went, e₁) =
              bind-eq-done (sign_round ssl allocated nonces priv key message offset size state w) _
                e in
            after_round round fuel nonces w₁ w' out (loop_signed fuel nonces)
              (λ res next same.
                round_tested nonces k q buf sha2 r s w w₁ res next has hb
                  (went ∙ ap (λ t. done (t, w₁)) same))
              e₁

        started :
            (fuel : ℕ) (r s : Bignum) (k : Option Bignum) (q : Option Point)
            (ctx : Option (Unit {0})) (w w' : World) (out : Signature ssl)
            → sign_start ssl allocated fuel priv key message offset size
                (record { m_r = some r; m_s = some s })
                k
                q
                ctx
                w
              ≡ done ((true, out), w')
            → (r' : Bignum) × (s' : Bignum) × (out ≡ record { m_r = some r'; m_s = some s' })
              × Response.IsSigned laws g o d dn p ho hd (slice offset size message) r' s'
        unfolding sign_start
        started fuel r s (some k) (some q) (some _) w w' out e =
            loop_signed fuel fuel k q (replicate 33 0) _ r s w w' out (new-Has curve)
              (length-replicate {A = ℕ} 33 0) e
        started fuel r s (some k) (some q) none w w' out e = cc
        started fuel r s (some k) none ctx w w' out e = cc
        started fuel r s none q ctx w w' out e = cc

        -- If `Sign` answers true, the two numbers that it leaves are a signature of the part of the
        -- message by the key pair, and BN_nnmod returns from the reduction of its hash although it is
        -- handed NULL for its BN_CTX. The curve, the private key d, the public key dG and the signature
        -- object are allocated, and the fuel is whatever the call took.
        pub sign_range-IsSigned :
            (fuel : ℕ) (r s : Bignum) (w w' : World) (out : Signature ssl)
            → sign_range ssl allocated fuel message offset size priv key
                (record { m_r = some r; m_s = some s })
                w
              ≡ done ((true, out), w')
            → (r' : Bignum) × (s' : Bignum) × (out ≡ record { m_r = some r'; m_s = some s' })
              × Response.IsSigned laws g o d dn p ho hd (slice offset size message) r' s'
        unfolding sign_range sign_allocate
        sign_range-IsSigned fuel r s w w' out e =
            let result : Signature ssl = record { m_r = some r; m_s = some s } in
            let wrong : ◌≢◌ {A = Bool × Signature ssl} (false, result) (true, out) =
              λ h. false≢true (ap (λ t. t.0) h) in
            let main = sign_allocate ssl allocated fuel message offset size priv key result in
            let beyond = ltb (length message) ((offset + size) % u32) in
            let checked = if beyond then pure (false, result) else main in
            let (_, e₁) = passed_over (length message == 0) checked _ (true, out) w w' wrong e in
            let (_, e₂) = passed_over beyond main _ (true, out) w w' wrong e₁ in
            let k = ssl.bn_new w in
            let q = ssl.ec_point_new g k.1 in
            let ctx = ssl.bn_ctx_new q.1 in started fuel r s k.0 q.0 ctx.0 ctx.1 w' out e₂
