-- ===== src/Contract/Yields.antt =====
-- The rules by which a property of the results of src/lang/eval/Eval.ml is shown, whether the run ends or not.
use scilla.Contract.Syntax.{Kinds}
use scilla.Contract.Exec.{
  Failure, Answer, ok, failed, stuck, Machine, Exec, after, ◌>>=◌, pure, fail,
}
use scilla.Contract.Rules.{OkMeets}

-- From every machine, a result without an error meets `P`.
pub record Yields {k : Kinds} {A : Type 0} (P : A → Type 0) (x : Exec k A) : Type 0 where
  pub yields : (m : Machine k) → OkMeets P (x m).0

module _ {k : Kinds} {A B : Type 0} {Q : B → Type 0} where
  pub then-Yields :
      {P : A → Type 0} (x : Exec k A) {f : A → Exec k B}
      → Yields P x
      → ((a : A) → P a → Yields Q (f a))
      → Yields Q (x >>= f)
  unfolding ◌>>=◌
  then-Yields {P} x {f} jx jf = record { yields = λ m. after_call (x m) (jx.yields m) }
    where
      after_call : (r : Answer A × Machine k) → OkMeets P r.0 → OkMeets Q (after f r).0
      after_call (ok a, m) p = (jf a p).yields m
      after_call (failed e, m) p = tt
      after_call (stuck, m) p = tt

  pub any-Yields :
      (x : Exec k A) {f : A → Exec k B} → ((a : A) → Yields Q (f a)) → Yields Q (x >>= f)
  any-Yields x jf =
      then-Yields {P = λ a. Unit} x (record { yields = λ m. anything (x m).0 }) (λ a u. jf a)
    where
      anything : (r : Answer A) → OkMeets (λ a. Unit) r
      anything (ok a) = tt
      anything (failed e) = tt
      anything stuck = tt

module _ {k : Kinds} where
  pub pure-Yields : {A : Type 0} {P : A → Type 0} {a : A} → P a → Yields {k = k} P (pure a)
  pure-Yields p = record { yields = λ m. p }

  pub fail-Yields : {A : Type 0} {P : A → Type 0} (e : Failure) → Yields {k = k} P (fail e)
  fail-Yields e = record { yields = λ m. tt }
