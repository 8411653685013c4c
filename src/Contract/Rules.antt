-- ===== src/Contract/Rules.antt =====
-- The rules by which a property of what the evaluator of src/lang/eval/Eval.ml answers is shown call by call.
use native.Mathlib.Nat.{le_trans}
use scilla.Base.{
  ℕ, ◌-◌, ◌≤◌, ◌≡◌, refl, arith, Bool, true, false, Option, none, some, ltb, if◌then◌else◌,
}
use scilla.Contract.Syntax.{Kinds, Env, StmtContext}
use scilla.Contract.Exec.{
  Failure, failure, Answer, ok, failed, stuck, Services, Machine, Exec, after, ◌>>=◌, pure, fail,
  from_r, calling, asking, charge,
}
use scilla.Contract.Configuration.{Configuration}
use scilla.Contract.Statements.{stmt_cost, stmt_gas_wrap, expression, charged}

-- The run ended, and if it ended well, then with a result that meets `P`.
pub data Settled {A : Type 0} (P : A → Type 0) : Answer A → Type 0 where
  settled : {a : A} → P a → Settled P (ok a)
  refused : {e : Failure} → Settled P (failed e)

-- What an answer without an error meets.
abbrev pub OkMeets : {A : Type 0} → (A → Type 0) → Answer A → Type 0
OkMeets P (ok a) = P a
OkMeets P (failed e) = Unit
OkMeets P stuck = Unit

-- From every machine the run ends, and no gas is gained.
pub record Judges {k : Kinds} {A : Type 0} (P : A → Type 0) (x : Exec k A) : Type 0 where
  pub gas_falls : (m : Machine k) → (x m).1.gas ≤ m.gas
  pub answers : (m : Machine k) → Settled P (x m).0

abbrev pub Anything : {A : Type 0} → A → Type 0
Anything a = Unit

-- An expression's evaluation never leaves more gas than it was given.
abbrev pub SpendsGas : {k : Kinds} → Services k → Type 0
SpendsGas services = (e : _) (env : _) (g : ℕ) (s : _) → (services.exp_eval e env g s).1 ≤ g

module _ {k : Kinds} {A : Type 0} {P : A → Type 0} where
  pub pure-Judges : {a : A} → P a → Judges {k = k} P (pure a)
  pure-Judges p = record { gas_falls = λ m. omega arith; answers = λ m. settled p }

  pub fail-Judges : {e : Failure} → Judges {k = k} P (fail e)
  fail-Judges = record { gas_falls = λ m. omega arith; answers = λ m. refused }

  pub if-Judges :
      {x y : Exec k A} (b : Bool) → Judges P x → Judges P y → Judges P (if b then x else y)
  if-Judges true p q = p
  if-Judges false p q = q

  pub from_r-Judges : (o : Option A) → ((a : A) → o ≡ some a → P a) → Judges {k = k} P (from_r o)
  unfolding from_r
  from_r-Judges none p = fail-Judges
  from_r-Judges (some a) p = pure-Judges (p a refl)

module _ {k : Kinds} {A B : Type 0} {P : A → Type 0} {Q : B → Type 0} where
  pub bind-Judges :
      (x : Exec k A) (f : A → Exec k B)
      → Judges P x
      → ((a : A) → P a → Judges Q (f a))
      → Judges Q (x >>= f)
  unfolding ◌>>=◌
  bind-Judges x f jx jf = record {
    gas_falls = λ m. after_gas (x m) (jx.gas_falls m) (jx.answers m);
    answers = λ m. after_answers (x m) (jx.answers m);
  }
    where
      after_gas :
          {g : ℕ} (r : Answer A × Machine k) → r.1.gas ≤ g → Settled P r.0 → (after f r).1.gas ≤ g
      after_gas (ok a, m) h (settled p) = let h2 = (jf a p).gas_falls m in omega arith
      after_gas (failed e, m) h s = h
      after_gas (stuck, m) h s = h

      after_answers : (r : Answer A × Machine k) → Settled P r.0 → Settled Q (after f r).0
      after_answers (ok a, m) (settled p) = (jf a p).answers m
      after_answers (failed e, m) s = refused
      after_answers (stuck, m) s = elim s [ ]

module _ {k : Kinds} {A : Type 0} {P Q : A → Type 0} where
  pub weaken-Judges : {x : Exec k A} → ((a : A) → P a → Q a) → Judges P x → Judges Q x
  weaken-Judges f j = record { gas_falls = j.gas_falls; answers = λ m. weaker (j.answers m) }
    where
      weaker : {r : Answer A} → Settled P r → Settled Q r
      weaker (settled p) = settled (f _ p)
      weaker refused = refused

module _ {k : Kinds} where
  charge-Judges : (c : ℕ) → Judges Anything (charge {k = k} c)
  unfolding charge
  charge-Judges c = record { gas_falls = λ m. ground arith; answers = λ m. paid m }
    where
      paid : (m : Machine k) → Settled Anything (charge c m).0
      paid m =
          elim (ltb m.gas c)
            as (λ b.
              let r : Answer Unit × Machine k =
                if b then (failed failure, m) else (ok tt, record m { gas = m.gas - c }) in
              Settled Anything r.0) [ true ↦ refused | false ↦ settled tt ]

  pub calling-Judges :
      {A : Type 0} (f : k.Store → Option A × k.Store) → Judges Anything (calling {k = k} f)
  unfolding calling
  calling-Judges f = record {
    gas_falls = λ m. (from_r-Judges (f m.state).0 (λ a e. tt)).gas_falls _;
    answers = λ m. (from_r-Judges (f m.state).0 (λ a e. tt)).answers _;
  }

  pub asking-Judges : {A : Type 0} (f : k.Store → Option A) → Judges Anything (asking {k = k} f)
  unfolding asking
  asking-Judges f = record {
    gas_falls = λ m. (from_r-Judges (f m.state) (λ a e. tt)).gas_falls m;
    answers = λ m. (from_r-Judges (f m.state) (λ a e. tt)).answers m;
  }

module _ {k : Kinds} (services : Services k) where
  pub expression-Judges :
      SpendsGas services → (e : k.Expr) (env : Env k) → Judges Anything (expression services e env)
  unfolding expression
  expression-Judges h e env = record {
    gas_falls = λ m.
        let r = services.exp_eval e env m.gas m.state in
        let left : Machine k = record { gas = r.1; state = r.2 } in
        let h1 : (from_r r.0 left).1.gas ≤ r.1 = (from_r-Judges r.0 (λ a e. tt)).gas_falls left in
        le_trans h1 (h e env m.gas m.state);
    answers = λ m. (from_r-Judges _ (λ a e. tt)).answers _;
  }

  pub charged-Judges :
      {P : Configuration k → Type 0} (scon : StmtContext k) (conf : Configuration k)
      → P conf
      → Judges P (charged services scon conf)
  unfolding charged stmt_gas_wrap
  charged-Judges scon conf p =
      bind-Judges {P = Anything} _ _
        (bind-Judges {P = Anything} _ _ (asking-Judges (λ state. stmt_cost services state scon))
          (λ c u. charge-Judges c))
        (λ t u. pure-Judges p)

module _ {k : Kinds} {A B : Type 0} {Q : B → Type 0} where
  -- A call whose result may be anything.
  pub any-Judges :
      {f : A → Exec k B} (x : Exec k A)
      → Judges Anything x
      → ((a : A) → Judges Q (f a))
      → Judges Q (x >>= f)
  any-Judges {f} x jx jf = bind-Judges {P = Anything} x f jx (λ a u. jf a)

  pub from_any-Judges :
      {f : A → Exec k B} (o : Option A) → ((a : A) → Judges Q (f a)) → Judges Q (from_r o >>= f)
  from_any-Judges o jf = any-Judges _ (from_r-Judges o (λ a e. tt)) jf
