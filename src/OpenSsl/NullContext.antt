-- ===== src/OpenSsl/NullContext.antt =====
-- BN_nnmod with NULL for its BN_CTX, as src/cpp/Schnorr.cpp calls it.
use scilla.Base.{
  ℕ, ◌≡◌, ◌∙◌, sym, true, false, Bool, done, undefined, refl, Run, if◌then◌else◌, call, ◌>>=◌,
}
use scilla.OpenSsl.{OpenSsl, bn_nnmod_null}
use scilla.OpenSsl.Documented.{Meaning, Holds, IsNullContext}

module _ {ssl : OpenSsl} {m : Meaning ssl} (law : IsNullContext ssl m) (d a b : ssl.Bignum)
    (x n : ℕ) (ha : Holds m a x) (hb : Holds m b n) where
  open ssl use {World, Bignum, bn_nnmod, bn_nnmod_survives}

  passed_if :
      {A : Type 0} (t : Bool) (f : Bool × Bignum → Run World A) (w : World) (y : A × World)
      → ((λ v. if t then call (bn_nnmod d a b) v else undefined) >>= f) w ≡ done y
      → (t ≡ true) × (f (bn_nnmod d a b w).0 (bn_nnmod d a b w).1 ≡ done y)
  passed_if true f w y e = (refl, e)
  passed_if false f w y e = cc

  -- A run that went on after the call.
  pub nnmod_null-eq-done :
      {A : Type 0} (f : Bool × Bignum → Run World A) (w : World) (y : A × World)
      → (bn_nnmod_null ssl d a b >>= f) w ≡ done y
      → (m.survives x n ≡ true) × (f (bn_nnmod d a b w).0 (bn_nnmod d a b w).1 ≡ done y)
  unfolding bn_nnmod_null
  nnmod_null-eq-done f w y e =
      let (t, rest) = passed_if (bn_nnmod_survives a b) f w y e in
      (sym (law.by_numbers a b x n ha hb) ∙ t, rest)

  pub nnmod_null_returns :
      (w : World) → m.survives x n ≡ true → bn_nnmod_null ssl d a b w ≡ done (bn_nnmod d a b w)
  unfolding bn_nnmod_null
  nnmod_null_returns w t = rw (law.by_numbers a b x n ha hb, t)

  pub nnmod_null_crashes :
      (w : World) → m.survives x n ≡ false → bn_nnmod_null ssl d a b w ≡ undefined
  unfolding bn_nnmod_null
  nnmod_null_crashes w f = rw (law.by_numbers a b x n ha hb, f)
