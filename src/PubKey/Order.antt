-- ===== src/PubKey/Order.antt =====
-- Public keys are compared by the numbers of their octets.
use Prim.Native.Nat.{Ordering, compare}
use scilla.Base.{
  is_less, is_equal, ℕ, Bool, true, ◌≡◌, ◌↔◌, ap, refl, Option, some, done, ltb, ◌==◌, ==_iff,
}
use scilla.Base.Bytes.{be}
use scilla.OpenSsl.{OpenSsl}
use scilla.OpenSsl.Documented.{Meaning, IsBignum, IsCurve}
use scilla.OpenSsl.Reliable.{IsReliable}
use scilla.PubKey.{less, equals, compare_pre_checks, both}

is_less-compare : (x y : ℕ) → is_less (compare x y) ≡ ltb x y
is_less-compare x y = go (compare x y)
  where
    go : (o : Ordering) → is_less o ≡ elim o [ Ordering.lt ↦ true | _ ↦ Bool.false ]
    go Ordering.lt = refl
    go Ordering.eq = refl
    go Ordering.gt = refl

is_equal-compare : (x y : ℕ) → is_equal (compare x y) ≡ (x == y)
is_equal-compare x y = go (compare x y)
  where
    go : (o : Ordering) → is_equal o ≡ elim o [ Ordering.eq ↦ true | _ ↦ Bool.false ]
    go Ordering.lt = refl
    go Ordering.eq = refl
    go Ordering.gt = refl

module _ {ssl : OpenSsl} {m : Meaning ssl} (bignum : IsBignum ssl m) (laws : IsCurve ssl m)
    (reliable : IsReliable ssl m) (g : ssl.Group) (order : Option ssl.Bignum)
    (p q : ssl.Point) where
  open ssl use {World}

  compare_pre_checks-some :
      (w : World)
      → (a b : ssl.Bignum) × (w' : World) × (compare_pre_checks ssl
            (record { m_group = some g; m_order = order })
            (record { m_P = some p })
            (record { m_P = some q })
            w
          ≡ done (some (a, b), w'))
        × (ssl.bn_cmp a b ≡ compare (be (m.encode (m.element p))) (be (m.encode (m.element q))))
  unfolding compare_pre_checks both
  compare_pre_checks-some w =
      let w₁ = (ssl.bn_ctx_new w).1 in
      let ready = reliable.ctx_some w in
      let (a, ea) = reliable.encoded g p w₁ in
      let w₂ = (ssl.ec_point_point2bn g p w₁).1 in
      let (b, eb) = reliable.encoded g q w₂ in
      let w₃ = (ssl.ec_point_point2bn g q w₂).1 in
      (
        a,
        b,
        w₃,
        rw (ready, ea, eb),
        bignum.cmp a b _ _ (laws.point2bn g p a w₁ ea) (laws.point2bn g q b w₂ eb),
      )

  -- `operator<` compares the numbers of the two keys' octets, if no call of OpenSSL fails.
  pub less-encode :
      (w : World)
      → (w' : World) × (less ssl
            (record { m_group = some g; m_order = order })
            (record { m_P = some p })
            (record { m_P = some q })
            w
          ≡ done (ltb (be (m.encode (m.element p))) (be (m.encode (m.element q))), w'))
  unfolding less
  less-encode w =
      let (a, b, w', e, c) = compare_pre_checks-some w in
      (w', rw (e, c) (ap (λ t. done (t, w')) (is_less-compare _ _)))

  -- `operator==` answers true just for two keys of the same element of the group, if no call of
  -- OpenSSL fails.
  pub equals_iff :
      (w : World)
      → (answer : Bool) × (w' : World) × (equals ssl
            (record { m_group = some g; m_order = order })
            (record { m_P = some p })
            (record { m_P = some q })
            w
          ≡ done (answer, w'))
        × ((answer ≡ true) ↔ (m.element p ≡ m.element q))
  unfolding equals
  equals_iff w =
      let (a, b, w', e, c) = compare_pre_checks-some w in
      let x = be (m.encode (m.element p)) in
      let y = be (m.encode (m.element q)) in
      let (to, from) = ==_iff x y in
      (
        x == y,
        w',
        rw (e, c) (ap (λ t. done (t, w')) (is_equal-compare x y)),
        (λ t. laws.encode-injective _ _ (to t), λ t. from (ap (λ z. be (m.encode z)) t)),
      )
