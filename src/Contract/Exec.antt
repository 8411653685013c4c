-- ===== src/Contract/Exec.antt =====
-- src/lang/base/MonadUtil.ml: the monad of the evaluator, with the remaining gas and the state of
-- StateService. The continuations of the source only hand on a result.
use Prim.Native.String.{String}
use scilla.Base.{ℕ, ◌-◌, Bool, List, [], ◌∷◌, Option, none, some, ltb, if◌then◌else◌}
use scilla.Contract.Syntax.{Kinds, Literal, Env, StmtContext}

-- `thrown` is the error of a Throw statement, with the components that it lists; the texts of errors are
-- left out.
pub data Failure : Type 0 where
  failure : Failure
  thrown : List String → Failure

-- `stuck` is the end of the model's fuel.
pub data Answer {ℓ} (A : Type ℓ) : Type ℓ where
  ok : A → Answer A
  failed : Failure → Answer A
  stuck : Answer A

-- What the evaluator of statements calls: the data type dictionary, the costs of literals, the evaluator
-- of expressions with the gas that it leaves, and the module StateService. `none` is an error. They
-- read the tables that map literals refer to, and may allocate new ones or change them in place, so
-- they take the store; looking for a member and the costs only read it.
pub record Services (k : Kinds) : Type 0 where
  pub arity : String → Option ℕ
  pub literal_cost : k.Store → Literal k → Option ℕ
  pub exp_eval : k.Expr → Env k → ℕ → k.Store → Option (Literal k) × ℕ × k.Store
  pub map_access_type : k.Typ → ℕ → Option k.Typ
  pub fetch :
      String → List (Literal k) → k.Store → Option (Option (Literal k) × StmtContext k) × k.Store
  pub is_member : String → List (Literal k) → k.Store → Option (Bool × StmtContext k)
  pub update : String → List (Literal k) → Literal k → k.Store → Option (StmtContext k) × k.Store
  pub remove : String → List (Literal k) → k.Store → Option (StmtContext k) × k.Store

pub record Machine (k : Kinds) : Type 0 where
  pub gas : ℕ
  pub state : k.Store

abbrev pub Exec : Kinds → Type 0 → Type 0
Exec k A = Machine k → Answer A × Machine k

abbrev pub map_m : {A B : Type 0} → (A → Option B) → List A → Option (List B)
map_m f [] = some []
map_m f (a ∷ xs) = elim (f a) [
  | none ↦ none
  | some b ↦ elim (map_m f xs) [ none ↦ none | some bs ↦ some (b ∷ bs) ]
]

module _ {k : Kinds} where
  abbrev pub after : {A B : Type 0} → (A → Exec k B) → Answer A × Machine k → Answer B × Machine k
  after f (ok a, m) = f a m
  after f (failed e, m) = (failed e, m)
  after f (stuck, m) = (stuck, m)

  infixl 5 ◌>>=◌
  unfoldable pub ◌>>=◌ : {A B : Type 0} → Exec k A → (A → Exec k B) → Exec k B
  ◌>>=◌ x f m = after f (x m)

  abbrev pub pure : {A : Type 0} → A → Exec k A
  pure a m = (ok a, m)

  abbrev pub fail : {A : Type 0} → Failure → Exec k A
  fail e m = (failed e, m)

  abbrev pub out_of_fuel : {A : Type 0} → Exec k A
  out_of_fuel m = (stuck, m)

  -- `fromR`
  unfoldable pub from_r : {A : Type 0} → Option A → Exec k A
  from_r none = fail failure
  from_r (some a) = pure a

  -- A call that leaves another state of StateService.
  unfoldable pub calling : {A : Type 0} → (k.Store → Option A × k.Store) → Exec k A
  unfolding from_r
  calling f m = let r = f m.state in from_r r.0 (record m { state = r.1 })

  unfoldable pub asking : {A : Type 0} → (k.Store → Option A) → Exec k A
  unfolding from_r
  asking f m = from_r (f m.state) m

  -- `checkwrap_op` where the operation does nothing.
  unfoldable pub charge : ℕ → Exec k (Unit {0})
  charge cost m =
      if ltb m.gas cost then (failed failure, m) else (ok tt, record m { gas = m.gas - cost })
