-- ===== src/PrivKey/Fresh.antt =====
-- The default constructor draws a scalar between 1 and the group's order.
use mathlib.Core.Path.{subst}
use scilla.Base.{
  ℕ, zero, suc, ◌≤◌, ◌<◌, ◌≡◌, inl, inr, sym, ap, ◌∙◌, true, false, done, done-injective, arith,
  Bool-cases,
}
use scilla.OpenSsl.{OpenSsl}
use scilla.OpenSsl.Documented.{Meaning, Holds, IsBignum}
use scilla.PrivKey.{generate}

module _ (ssl : OpenSsl) (order : ssl.Bignum) where
  open ssl use {World, Bignum, bn_rand_range, bn_is_zero}

  -- The generator ends the loop in its `n`-th call, since it fails or its number is not 0.
  pub data EndsAt : ℕ → Bignum → World → Type 0 where
    refused : {d : Bignum} {w : World} → (bn_rand_range d order w).0.0 ≡ false → EndsAt 1 d w
    found :
        {d : Bignum} {w : World} → bn_is_zero (bn_rand_range d order w).0.1 ≡ false → EndsAt 1 d w
    zero_drawn :
        {n : ℕ} {d : Bignum} {w : World}
        → EndsAt n (bn_rand_range d order w).0.1 (bn_rand_range d order w).1
        → EndsAt (suc n) d w

  -- The loop of the constructor returns with as much fuel as the generator needs calls until one
  -- fails or gives a number that is not 0.
  pub generate_returns :
      (n fuel : ℕ) (d : Bignum) (w : World)
      → EndsAt n d w
      → n ≤ fuel
      → (d' : Bignum) × (w' : World) × (generate ssl fuel order d w ≡ done (d', w'))
  unfolding generate
  generate_returns n zero d w (refused e) le = absurd (omega arith)
  generate_returns n zero d w (found e) le = absurd (omega arith)
  generate_returns n zero d w (zero_drawn more) le = absurd (omega arith)
  generate_returns n (suc fuel) d w (refused e) le =
      let drawn = bn_rand_range d order w in (drawn.0.1, drawn.1, rw e)
  generate_returns n (suc fuel) d w (found e) le =
      let drawn = bn_rand_range d order w in
      (drawn.0.1, drawn.1, elim (Bool-cases drawn.0.0) [ inl t ↦ rw (t, e) | inr f ↦ rw f ])
  generate_returns n (suc fuel) d w (zero_drawn {n = k} more) le =
      let drawn = bn_rand_range d order w in
      let (d', w', e) = generate_returns k fuel drawn.0.1 drawn.1 more (omega arith) in
      elim (Bool-cases drawn.0.0) [
        | inr f ↦ (drawn.0.1, drawn.1, rw f)
        | inl t ↦ elim (Bool-cases (bn_is_zero drawn.0.1)) [
          | inl z ↦ (d', w', rw (t, z) e)
          | inr s ↦ (drawn.0.1, drawn.1, rw (t, s))
        ]
      ]

  -- A number 0 makes the loop go on; any other number ends it.
  generate_again :
      (fuel : ℕ) (d : Bignum) (w : World)
      → (bn_rand_range d order w).0.0 ≡ true
      → bn_is_zero (bn_rand_range d order w).0.1 ≡ true
      → generate ssl (suc fuel) order d w
        ≡ generate ssl fuel order (bn_rand_range d order w).0.1 (bn_rand_range d order w).1
  unfolding generate
  generate_again fuel d w t z = rw (t, z)

  generate_ends :
      (fuel : ℕ) (d : Bignum) (w : World)
      → (bn_rand_range d order w).0.0 ≡ true
      → bn_is_zero (bn_rand_range d order w).0.1 ≡ false
      → generate ssl (suc fuel) order d w
        ≡ done ((bn_rand_range d order w).0.1, (bn_rand_range d order w).1)
  unfolding generate
  generate_ends fuel d w t s = rw (t, s)

  -- A scalar that the loop of the constructor ends with is between 1 and order - 1, if no call of
  -- the generator fails and the order is not 0.
  pub generate_in_range :
      {m : Meaning ssl} (laws : IsBignum ssl m) (n fuel : ℕ) (d d' : Bignum) (w w' : World)
      → Holds m order n
      → 0 < n
      → ((b : Bignum) (v : World) → (bn_rand_range b order v).0.0 ≡ true)
      → generate ssl fuel order d w ≡ done (d', w')
      → (k : ℕ) × Holds m d' k × (0 < k) × (k < n)
  unfolding generate
  generate_in_range laws n zero d d' w w' h pos ready e = cc
  generate_in_range {m} laws n (suc fuel) d d' w w' h pos ready e =
      let drawn = bn_rand_range d order w in
      let (k, hk, lt) = laws.rand_range d order n w h pos (ready d w) in
      elim (Bool-cases (bn_is_zero drawn.0.1)) [
        | inl z ↦
            generate_in_range laws n fuel drawn.0.1 d' drawn.1 w' h pos ready
              (sym (generate_again fuel d w (ready d w) z) ∙ e)
        | inr s ↦
            let same : drawn.0.1 ≡ d' =
              ap (λ t. t.0) (done-injective (sym (generate_ends fuel d w (ready d w) s) ∙ e)) in
            let positive : 0 < k = ground (arith, sym (laws.is_zero drawn.0.1 k hk) ∙ s) in
            (k, subst (λ b. Holds m b k) same hk, positive, lt)
      ]
