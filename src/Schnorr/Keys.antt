-- ===== src/Schnorr/Keys.antt =====
-- The key pairs of `GenKeyPair`.
use Prim.Native.Nat.{compare}
use scilla.Base.{
  is_less, ℕ, ◌≤◌, ◌<◌, ◌≡◌, sym, ap, ◌∙◌, true, false, none, some, done, done-injective,
  bind-eq-done, arith, ◌==◌, Run, pure, ◌>>=◌,
}
use scilla.OpenSsl.{OpenSsl}
use scilla.OpenSsl.Documented.{Meaning, Holds, Documented}
use scilla.OpenSsl.Reliable.{IsReliable}
use scilla.Curve.{Curve}
use scilla.PrivKey
use scilla.PrivKey.{PrivKey}
use scilla.PrivKey.Fresh.{EndsAt, generate_in_range, generate_returns}
use scilla.PubKey
use scilla.PubKey.{PubKey}
use scilla.Schnorr.{gen_key_pair}

module _ {ssl : OpenSsl} {m : Meaning ssl} (laws : Documented ssl m) (reliable : IsReliable ssl m)
    (g : ssl.Group) (o : ssl.Bignum) (ho : Holds m o m.order) where
  open ssl use {World, Bignum, Point}
  open laws use {cyclic, bignum, curve}

  abbrev allocated : Curve ssl
  allocated = record { m_group = some g; m_order = some o }

  abbrev copied_twice : PrivKey ssl → PubKey ssl → Run World (PrivKey ssl × PubKey ssl)
  copied_twice privkey pubkey = do
    privkey' ← PrivKey.copy ssl privkey
    pubkey' ← PubKey.copy ssl allocated pubkey
    first ← PrivKey.copy ssl privkey'
    second ← PubKey.copy ssl allocated pubkey'
    pure (first, second)

  copied_priv_key :
      (d : Bignum) (k : ℕ) (w : World)
      → Holds m d k
      → (d' : Bignum) × (w' : World) × (PrivKey.copy ssl (record { m_d = some d }) w
          ≡ done (record { m_d = some d' }, w'))
        × Holds m d' k
  unfolding PrivKey.copy
  copied_priv_key d k w h =
      let (b, new) = reliable.new_some w in
      let w₁ = (ssl.bn_new w).1 in
      let ok = reliable.copied b d w₁ in
      let copy = ssl.bn_copy b d w₁ in (copy.0.1, copy.1, rw new, bignum.copy b d k w₁ h ok)

  copied_pub_key :
      (p : Point) (w : World)
      → (p' : Point) × (w' : World) × (PubKey.copy ssl allocated (record { m_P = some p }) w
          ≡ done (record { m_P = some p' }, w'))
        × (m.element p' ≡ m.element p)
  unfolding PubKey.copy
  copied_pub_key p w =
      let (q, new) = reliable.point_some g w in
      let w₁ = (ssl.ec_point_new g w).1 in
      let copy = ssl.ec_point_copy q p w₁ in
      (copy.0.1, copy.1, rw new, curve.point_copy q p w₁ (reliable.point_copied q p w₁))

  -- Both keys are copied twice.
  copied_pair :
      (d : Bignum) (k : ℕ) (p : Point) (w : World)
      → Holds m d k
      → (d' : Bignum) × (p' : Point) × (w' : World) × (copied_twice
            (record { m_d = some d })
            (record { m_P = some p })
            w
          ≡ done ((record { m_d = some d' }, record { m_P = some p' }), w'))
        × Holds m d' k
        × (m.element p' ≡ m.element p)
  copied_pair d k p w h =
      let (d₁, w₁, copy₁, h₁) = copied_priv_key d k w h in
      let (p₁, w₂, copy₂, same₁) = copied_pub_key p w₁ in
      let (d₂, w₃, copy₃, h₂) = copied_priv_key d₁ k w₂ h₁ in
      let (p₂, w₄, copy₄, same₂) = copied_pub_key p₁ w₃ in
      (d₂, p₂, w₄, rw (copy₁, copy₂, copy₃, copy₄), h₂, same₂ ∙ same₁)

  derived :
      (d : Bignum) (k : ℕ) (w : World)
      → Holds m d k
      → 0 < k
      → k < m.order
      → (p : Point) × (w' : World) × (PubKey.from_priv_key ssl allocated (record { m_d = some d }) w
          ≡ done (record { m_P = some p }, w'))
        × (m.element p ≡ m.times k m.generator)
  unfolding PubKey.from_priv_key
  derived d k w h pos lt =
      let (q, new) = reliable.point_some g w in
      let w₁ = (ssl.ec_point_new g w).1 in
      let nonzero : (k == 0) ≡ false = ground arith in
      let below : is_less (compare k m.order) ≡ true = ground arith in
      let product = ssl.ec_point_mul g q d none w₁ in
      (
        product.0.1,
        product.1,
        rw (
          new,
          bignum.is_zero d k h ∙ nonzero,
          ap is_less (bignum.cmp d o k m.order h ho) ∙ below,
        ),
        curve.mul g q d k w₁ h (reliable.multiplied g q d none w₁),
      )

  -- A new private key is between 1 and order - 1.
  drawn :
      (fuel : ℕ) (key : PrivKey ssl) (w w' : World)
      → ((b : Bignum) (v : World) → (ssl.bn_rand_range b o v).0.0 ≡ true)
      → PrivKey.new ssl fuel allocated w ≡ done (key, w')
      → (d : Bignum) × (k : ℕ) × (key ≡ record { m_d = some d })
        × Holds m d k
        × (0 < k)
        × (k < m.order)
  unfolding PrivKey.new
  drawn fuel key w w' ready e =
      let (b, new) = reliable.new_some w in
      let w₁ = (ssl.bn_new w).1 in
      let ((d, w₂), generated, end) =
        bind-eq-done (PrivKey.generate ssl fuel o b w₁) _ (rw new at e) in
      let (k, h, pos, lt) =
        generate_in_range ssl o bignum m.order fuel b d w₁ w₂ ho cyclic.order_pos ready generated in
      (d, k, ap (λ t. t.0) (sym (done-injective end)), h, pos, lt)

  -- `GenKeyPair` returns a private key d between 1 and order - 1 and the public key dG, if it returns,
  -- no call of OpenSSL fails, and the curve has its group and its order.
  pub gen_key_pair-paired :
      (fuel : ℕ) (priv : PrivKey ssl) (key : PubKey ssl) (w w' : World)
      → ((b : Bignum) (v : World) → (ssl.bn_rand_range b o v).0.0 ≡ true)
      → gen_key_pair ssl allocated fuel w ≡ done ((priv, key), w')
      → (d : Bignum) × (k : ℕ) × (p : Point) × (priv ≡ record { m_d = some d })
        × (key ≡ record { m_P = some p })
        × Holds m d k
        × (0 < k)
        × (k < m.order)
        × (m.element p ≡ m.times k m.generator)
  unfolding gen_key_pair
  gen_key_pair-paired fuel priv key w w' ready e =
      let ((fresh, w₁), made, e₁) = bind-eq-done (PrivKey.new ssl fuel allocated w) _ e in
      let (d, k, same, h, pos, lt) = drawn fuel fresh w w₁ ready made in
      let (p, w₂, made_public, paired) = derived d k w₁ h pos lt in
      let (d', p', w₃, copying, h', element) = copied_pair d k p w₂ h in
      let end = done-injective (sym copying ∙ (rw (same, made_public) at e₁)) in
      (
        d',
        k,
        p',
        ap (λ t. t.0.0) (sym end),
        ap (λ t. t.0.1) (sym end),
        h',
        pos,
        lt,
        element ∙ paired,
      )

  -- `GenKeyPair` returns a private key d between 1 and order - 1 and the public key dG, with as much
  -- fuel as the generator needs calls until it gives a number that is not 0, if no call of OpenSSL
  -- fails and the curve has its group and its order.
  pub gen_key_pair_returns :
      (n fuel : ℕ) (b : Bignum) (w : World)
      → ((c : Bignum) (v : World) → (ssl.bn_rand_range c o v).0.0 ≡ true)
      → (ssl.bn_new w).0 ≡ some b
      → EndsAt ssl o n b (ssl.bn_new w).1
      → n ≤ fuel
      → (d : Bignum) × (k : ℕ) × (p : Point) × (w' : World) × (gen_key_pair ssl allocated fuel w
          ≡ done ((record { m_d = some d }, record { m_P = some p }), w'))
        × Holds m d k
        × (0 < k)
        × (k < m.order)
        × (m.element p ≡ m.times k m.generator)
  unfolding gen_key_pair PrivKey.new
  gen_key_pair_returns n fuel b w ready new ends enough =
      let w₁ = (ssl.bn_new w).1 in
      let (d, w₂, generated) = generate_returns ssl o n fuel b w₁ ends enough in
      let (k, h, pos, lt) =
        generate_in_range ssl o bignum m.order fuel b d w₁ w₂ ho cyclic.order_pos ready generated in
      let (p, w₃, made_public, paired) = derived d k w₂ h pos lt in
      let (d', p', w₄, copying, h', element) = copied_pair d k p w₃ h in
      (d', k, p', w₄, rw (new, generated, made_public) copying, h', pos, lt, element ∙ paired)
