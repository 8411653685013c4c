-- ===== src/Contract/Statements.antt =====
-- src/lang/eval/PatternMatching.ml, the costs of statements in src/lang/base/Gas.ml, stmt_gas_wrap of
-- src/lang/eval/EvalUtil.ml, and the evaluator of statements in src/lang/eval/Eval.ml.
use Prim.Native.String.{String}
use text.Mathlib.Text.{◌==◌ as same}
use scilla.Base.{
  ℕ, suc, ◌+◌, ◌-◌, not, ◌&&◌, List, [], ◌∷◌, ◌++◌, Option, none, some, ltb, ◌==◌, if◌then◌else◌,
}
use scilla.Contract.Syntax.{
  Kinds, Literal, Literals, Env, Pattern, Patterns, Block, Clauses, StmtContext, adt_value,
  no_literal, literal, wildcard, binder, constructor, no_pattern, pattern_of, no_clause, clause,
  g_load, g_store, g_bind, g_map_update, g_map_get, g_match_stmt, g_read_from_bc, g_accept_payment,
  g_send_msgs, g_create_evnt, g_call_proc,
}
use scilla.Contract.Exec.{Services, Exec, ◌>>=◌, pure, from_r, asking, charge}
use scilla.Contract.Configuration.{Configuration, bind_var}

abbrev pub comp_param_names {ℓ} : {A : Type ℓ} → List (String × A) → List String
comp_param_names [] = []
comp_param_names (p ∷ ps) = p.0 ∷ comp_param_names ps

unfoldable pub patterns_length : Patterns → ℕ
patterns_length no_pattern = 0
patterns_length (pattern_of p ps) = suc (patterns_length ps)

module _ {k : Kinds} where
  unfoldable pub literals_length : Literals k → ℕ
  literals_length no_literal = 0
  literals_length (literal l ls) = suc (literals_length ls)

  unfoldable pub clauses_length : Clauses k → ℕ
  clauses_length no_clause = 0
  clauses_length (clause p b cs) = suc (clauses_length cs)

module _ {k : Kinds} (services : Services k) where
  unfoldable mutual
    unfolding literals_length patterns_length

    pub match_with_pattern : Literal k → Pattern → Option (Env k)
    match_with_pattern v wildcard = some []
    match_with_pattern v (binder x) = some ((x, v) ∷ [])
    match_with_pattern (adt_value cn' ts ls') (constructor cn ps) =
        let sub_matches = match_all ls' ps in
        elim (services.arity cn) [
          | none ↦ none
          | some arity ↦
              if not (arity == patterns_length ps)
              then none
              else if same cn' cn && literals_length ls' == arity
              then sub_matches
              else none
        ]
    match_with_pattern v (constructor cn ps) = none

    -- The sub-values against the sub-patterns, for lists of one length.
    pub match_all : Literals k → Patterns → Option (Env k)
    match_all no_literal no_pattern = some []
    match_all (literal w ls) (pattern_of q ps) = elim (match_with_pattern w q) [
      | none ↦ none
      | some b ↦ elim (match_all ls ps) [ none ↦ none | some bs ↦ some (b ++ bs) ]
    ]
    match_all _ _ = none

  -- `tryM` over the clauses of a match: the statements of the first that fits, and its bindings.
  unfoldable pub try_clauses : Literal k → Clauses k → Option (Block k × Env k)
  unfolding match_with_pattern
  try_clauses v no_clause = none
  try_clauses v (clause p b cs) = elim (match_with_pattern v p) [
    | none ↦ try_clauses v cs
    | some bnds ↦ some (b, bnds)
  ]

  -- The cost of a list of messages.
  unfoldable pub messages_cost : k.Store → ℕ → List (Literal k) → Option ℕ
  messages_cost state acc [] = some acc
  messages_cost state acc (m ∷ ms) = elim (services.literal_cost state m) [
    | none ↦ none
    | some c ↦ messages_cost state (acc + c) ms
  ]

  -- Costs are sums of a few sizes of literals, far below the range of an OCaml integer.
  unfoldable pub stmt_cost : k.Store → StmtContext k → Option ℕ
  unfolding messages_cost
  stmt_cost state (g_load l) = services.literal_cost state l
  stmt_cost state (g_store old_l new_l) = elim (services.literal_cost state old_l) [
    | none ↦ none
    | some old_cost ↦ elim (services.literal_cost state new_l) [
      | none ↦ none
      | some new_cost ↦
          some ((if ltb old_cost new_cost then new_cost else old_cost) + new_cost - old_cost)
    ]
  ]
  stmt_cost state (g_map_update n none) = some (n + 0)
  stmt_cost state (g_map_update n (some l)) = elim (services.literal_cost state l) [
    | none ↦ none
    | some l_cost ↦ some (n + l_cost)
  ]
  stmt_cost state (g_map_get n none) = some (n + 0)
  stmt_cost state (g_map_get n (some l)) = elim (services.literal_cost state l) [
    | none ↦ none
    | some l_cost ↦ some (n + l_cost)
  ]
  stmt_cost state g_bind = some 1
  stmt_cost state (g_match_stmt num_clauses) = some num_clauses
  stmt_cost state g_read_from_bc = some 1
  stmt_cost state g_accept_payment = some 1
  stmt_cost state (g_send_msgs mlist) = messages_cost state 0 mlist
  stmt_cost state (g_create_evnt e) = services.literal_cost state e
  stmt_cost state g_call_proc = some 1

  -- The statement is executed already when its gas is charged, so the costs are those of the tables as it
  -- left them.
  unfoldable pub stmt_gas_wrap : StmtContext k → Exec k (Unit {0})
  unfolding stmt_cost charge asking ◌>>=◌
  stmt_gas_wrap scon = asking (λ state. stmt_cost state scon) >>= charge

  -- `exp_eval_wrapper_no_cps`
  unfoldable pub expression : k.Expr → Env k → Exec k (Literal k)
  unfolding from_r
  expression e env m =
      let r = services.exp_eval e env m.gas m.state in
      from_r r.0 (record { gas = r.1; state = r.2 })

  -- Charges the gas of a statement that leads to a configuration.
  unfoldable pub charged : StmtContext k → Configuration k → Exec k (Configuration k)
  unfolding stmt_gas_wrap ◌>>=◌
  charged scon conf = do paid ← stmt_gas_wrap scon; pure conf

unfoldable pub bind_each : {k : Kinds} → Configuration k → Env k → Configuration k
unfolding bind_var
bind_each conf [] = conf
bind_each conf (b ∷ bs) = bind_each (bind_var conf b.0 b.1) bs
