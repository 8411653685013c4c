-- ===== src/Schnorr/Sign/Response.antt =====
-- The nonce of a round of `Sign`, and the end of a round: the two numbers that it leaves.
use mathlib.Core.Path.{subst, subst₂, ap₂}
use native.Mathlib.Nat.{mod-mod, mod-lt}
use mathlib.Core.Bool.{false≢true}
use mathlib.Core.Option.{some-injective}
use scilla.Base.{
  ℕ, zero, suc, ◌+◌, ◌-◌, ◌*◌, ◌%◌, ◌<◌, ◌≡◌, ◌≢◌, refl, sym, ap, ◌∙◌, not, Bool, true, false, ◌||◌,
  none, some, [], length, replicate, length-replicate, All, arith, ◌==◌, if◌then◌else◌, done,
  Bool-cases, inl, inr, done-injective, bind-eq-done, passed, Run, pure, call, ◌>>=◌,
}
use scilla.Base.Bytes.{Bytes, IsByte, be}
use scilla.OpenSsl.{OpenSsl}
use scilla.OpenSsl.Documented.{Meaning, Holds, Documented}
use scilla.OpenSsl.NullContext.{nnmod_null-eq-done}
use scilla.Curve.{Curve}
use scilla.Sha2
use scilla.Sha2.{Sha2}
use scilla.Sha2.Digests.{Has, reset-Has}
use scilla.Signature.{Signature}
use scilla.Schnorr.Transcript.{hashed_bytes}
use scilla.Schnorr.Valid.{challenge, reduces, commitment, IsValid, commitment-response}
use scilla.Schnorr.Sign.{sign_nonce, sign_response, sign_finish, SignState, tested, failed}

module _ {ssl : OpenSsl} {m : Meaning ssl} (laws : Documented ssl m) where
  open ssl use {World, Bignum, Group, Point, bn_generate_dsa_nonce}
  open laws use {cyclic, bignum, curve, null_context}

  module _ (g : Group) (o d : Bignum) (dn : ℕ) (p : Point) (ho : Holds m o m.order)
      (hd : Holds m d dn) where
    abbrev allocated : Curve ssl
    allocated = record { m_group = some g; m_order = some o }

    -- The nonce lies in 1, ..., order - 1.
    pub nonce_range :
        (fuel : ℕ) (message : Bytes) (k k' : Bignum) (w w' : World)
        → sign_nonce ssl allocated fuel o d message k w ≡ done (some k', w')
        → (n : ℕ) × Holds m k' n × (0 < n) × (n < m.order)
    unfolding sign_nonce
    nonce_range zero message k k' w w' e = cc
    nonce_range (suc fuel) message k k' w w' e =
        let drawn = bn_generate_dsa_nonce k o d message w in
        let (ok, e₁) = passed drawn.0.0 _ none (some k') drawn.1 w' (λ h. cc) e in
        let (n, holds, below) = bignum.dsa_nonce k o d message m.order w ho cyclic.order_pos ok in
        elim (Bool-cases (ssl.bn_is_zero drawn.0.1)) [
          | inl zero_nonce ↦ nonce_range fuel message drawn.0.1 k' drawn.1 w' (rw zero_nonce at e₁)
          | inr nonzero ↦
              let same : drawn.0.1 ≡ k' =
                some-injective _ _ (ap (λ r. r.0) (done-injective (rw nonzero at e₁))) in
              let positive : (n == 0) ≡ false = sym (bignum.is_zero drawn.0.1 n holds) ∙ nonzero in
              (n, subst (λ t. Holds m t n) same holds, ground arith, below)
        ]

    -- What `sign_response` does once the digest is reduced.
    abbrev after_reduction : Bignum → Bignum → Bool × Bignum → Run World (Bool × Bignum × Bignum)
    after_reduction k s (reduced, r₂) = if not reduced then pure (false, r₂, s) else do
      (multiplied, s₁) ← call (ssl.bn_mod_mul s r₂ d o)
      if not multiplied
          then pure (false, r₂, s₁)
          else do (subtracted, s₂) ← call (ssl.bn_mod_sub s₁ k s₁ o); pure (subtracted, r₂, s₂)

    -- The numbers of the signature, from the digest and the nonce.
    pub response_numbers :
        (k : Bignum) (kn : ℕ) (digest : Bytes) (r s r' s' : Bignum) (w w' : World)
        → Holds m k kn
        → All IsByte digest
        → sign_response ssl allocated o d k digest r s w ≡ done ((true, r', s'), w')
        → Holds m r' (be digest % m.order)
          × Holds m s' ((kn + m.order - be digest % m.order * dn % m.order) % m.order)
          × (m.survives (be digest) m.order ≡ true)
    unfolding sign_response
    response_numbers k kn digest r s r' s' w w' hk bytes e =
        let wrong : (r₀ s₀ : Bignum)
            → ◌≢◌ {A = Bool × Bignum × Bignum} (false, r₀, s₀) (true, r', s') =
          λ r₀ s₀ h. false≢true (ap (λ t. t.0) h) in
        let a = ssl.bn_bin2bn_into digest r w in
        let (built, e₁) = passed a.0.0 _ (false, a.0.1, s) _ a.1 w' (wrong a.0.1 s) e in
        let h₁ = bignum.bin2bn_into digest r w bytes built in
        let b = ssl.bn_nnmod a.0.1 a.0.1 o a.1 in
        let (survives, e₁') =
          nnmod_null-eq-done null_context a.0.1 a.0.1 o (be digest) m.order h₁ ho
            (after_reduction k s) a.1 ((true, r', s'), w') e₁ in
        let (reduced, e₂) = passed b.0.0 _ (false, b.0.1, s) _ b.1 w' (wrong b.0.1 s) e₁' in
        let h₂ = bignum.nnmod a.0.1 a.0.1 o _ m.order a.1 h₁ ho cyclic.order_pos reduced in
        let c = ssl.bn_mod_mul s b.0.1 d o b.1 in
        let (multiplied, e₃) =
          passed c.0.0 _ (false, b.0.1, c.0.1) _ c.1 w' (wrong b.0.1 c.0.1) e₂ in
        let h₃ = bignum.mod_mul s b.0.1 d o _ dn m.order b.1 h₂ hd ho cyclic.order_pos multiplied in
        let f = ssl.bn_mod_sub c.0.1 k c.0.1 o c.1 in
        let answer = ap (λ t. t.0) (done-injective e₃) in
        let h₄ =
          bignum.mod_sub c.0.1 k c.0.1 o kn _ m.order c.1 hk h₃ ho cyclic.order_pos
            (ap (λ t. t.0) answer) in
        (
          subst (λ t. Holds m t (be digest % m.order)) (ap (λ t. t.1) answer) h₂,
          subst₂ (λ t n. Holds m t ((kn + m.order - n) % m.order)) (ap (λ t. t.2) answer)
              (mod-mod (be digest % m.order * dn) m.order) h₄,
          survives,
        )

    -- The loop's variables, with the two numbers of the signature allocated.
    abbrev pub variables :
        Bignum → Point → Bytes → Sha2 ssl → Bignum → Bignum → SignState ssl allocated
    variables k q buf sha2 r s = record {
      k = k;
      q = q;
      buf = buf;
      sha2 = sha2;
      result = record { m_r = some r; m_s = some s };
    }

    -- `next` is ready for another round.
    abbrev pub IsReady : SignState ssl allocated → Bignum → Bignum → Type 0
    IsReady next r s =
        (k : Bignum) × (q : Point) × (buf : Bytes) × (sha2 : Sha2 ssl) × (next
          ≡ variables k q buf sha2 r s)
        × Has m sha2 []
        × (length buf ≡ 33)

    -- The two numbers are a signature of the bytes, and BN_nnmod returns from the reduction of their
    -- hash.
    abbrev pub IsSigned : Bytes → Bignum → Bignum → Type 0
    IsSigned bytes r s =
        (rn : ℕ) × (sn : ℕ) × Holds m r rn
        × Holds m s sn
        × IsValid m rn sn (m.element p) bytes
        × (reduces m (commitment m rn sn (m.element p)) (m.element p) bytes ≡ true)

    module _ (paired : m.element p ≡ m.times dn m.generator) where
      numbers-IsValid :
          (kn : ℕ) (q : m.Element) (bytes : Bytes) (rn sn : ℕ)
          → 0 < kn
          → kn < m.order
          → q ≡ m.times kn m.generator
          → rn ≡ challenge m q (m.element p) bytes
          → sn ≡ (kn + m.order - rn * dn % m.order) % m.order
          → 0 < rn
          → 0 < sn
          → reduces m q (m.element p) bytes ≡ true
          → IsValid m rn sn (m.element p) bytes
            × (reduces m (commitment m rn sn (m.element p)) (m.element p) bytes ≡ true)
      numbers-IsValid kn q bytes rn sn k_pos k_lt eq er es r_pos s_pos survives =
          let back : commitment m rn sn (m.element p) ≡ q =
            ap₂ (commitment m rn) es paired ∙ commitment-response m cyclic kn rn dn k_lt ∙ sym eq in
          (
            record {
              r_pos = r_pos;
              r_lt = rw er (mod-lt _ cyclic.order_pos);
              s_pos = s_pos;
              s_lt = rw es (mod-lt _ cyclic.order_pos);
              finite = λ h. cyclic.times-ne-infinity kn k_pos k_lt (sym eq ∙ sym back ∙ h);
              agrees = ap (λ t. challenge m t (m.element p) bytes) back ∙ sym er;
            },
            ap (λ t. reduces m t (m.element p) bytes) back ∙ survives,
          )

      is_positive : (b : Bignum) (n : ℕ) → Holds m b n → ssl.bn_is_zero b ≡ false → 0 < n
      is_positive b n h e =
          let nonzero : (n == 0) ≡ false = sym (bignum.is_zero b n h) ∙ e in ground arith

      ended :
          (ok : Bool) (f : Signature ssl) (b : Bool) (state : SignState ssl allocated) (res : Bool)
          (next : SignState ssl allocated)
          → (if not ok then failed f else tested b state) ≡ tested res next
          → (ok ≡ true) × (b ≡ res) × (state ≡ next)
      ended true f b state res next e = (refl, cc, cc)
      ended false f b state res next e = cc

      pub finish_tested :
          (sha2 : Sha2 ssl) (k : Bignum) (kn : ℕ) (q : Point) (r s : Bignum) (w w' : World)
          (bytes : Bytes) (res : Bool) (next : SignState ssl allocated)
          → Holds m k kn
          → 0 < kn
          → kn < m.order
          → m.element q ≡ m.times kn m.generator
          → sha2.output ≡ m.digest (hashed_bytes m (m.element q) (m.element p) bytes)
          → Has m sha2 (hashed_bytes m (m.element q) (m.element p) bytes)
          → sign_finish ssl allocated o d sha2 k q (record { m_r = some r; m_s = some s }) w
            ≡ done (tested res next, w')
          → (r' : Bignum) × (s' : Bignum) × IsReady next r' s'
            × (res ≡ false → IsSigned bytes r' s')
      unfolding sign_finish
      finish_tested sha2 k kn q r s w w' bytes res next hk k_pos k_lt eq output has e =
          let ((answer, w₁), responded, e₁) =
            bind-eq-done (sign_response ssl allocated o d k sha2.output r s w) _ e in
          let (ok, tested_res, tested_next) =
            ended answer.0 _ _ _ res next (ap (λ t. t.0) (done-injective e₁)) in
          let digest_IsByte = subst (All IsByte) (sym output) (curve.digest-IsByte _) in
          let all : answer ≡ (true, answer.1, answer.2) = ap (λ t. (t, answer.1, answer.2)) ok in
          let (hr, hs, survives) =
            response_numbers k kn sha2.output r s answer.1 answer.2 w w₁ hk digest_IsByte
              (responded ∙ ap (λ t. done (t, w₁)) all) in
          let rn = be sha2.output % m.order in
          let sn = (kn + m.order - rn * dn % m.order) % m.order in
          (
            answer.1,
            answer.2,
            (
              k,
              q,
              replicate 33 0,
              Sha2.reset ssl sha2,
              sym tested_next,
              reset-Has curve has,
              length-replicate {A = ℕ} 33 0,
            ),
            λ accepted.
                let nonzero : (ssl.bn_is_zero answer.1 || ssl.bn_is_zero answer.2) ≡ false =
                  tested_res ∙ accepted in
                let r_nonzero : ssl.bn_is_zero answer.1 ≡ false = ground arith in
                let s_nonzero : ssl.bn_is_zero answer.2 ≡ false = ground arith in
                let (valid, reduced) =
                  numbers-IsValid kn (m.element q) bytes rn sn k_pos k_lt eq
                    (ap (λ t. be t % m.order) output) refl (is_positive answer.1 rn hr r_nonzero)
                    (is_positive answer.2 sn hs s_nonzero)
                    (ap (λ t. m.survives (be t) m.order) (sym output) ∙ survives) in
                (rn, sn, hr, hs, valid, reduced),
          )
