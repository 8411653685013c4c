-- ===== src/Contract/Fuel.antt =====
-- src/lang/eval/Eval.ml: from the fuel that the sizes give on, stmt_eval does not depend on its fuel.
use mathlib.Core.Path.{fun_ext}
use scilla.Base.{
  zero_add, suc_add, ℕ, zero, suc, ◌+◌, ◌<◌, ◌≡◌, refl, ap, ◌∙◌, List, ◌∷◌, Option, none, some,
  arith,
}
use scilla.Contract.Syntax.{
  Kinds, Literal, Stmt, Block, Component, load, store, bind, map_update, map_get, match_stmt,
  read_from_bc, accept_payment, send_msgs, create_evnt, call_proc, throw, end, ◌⨾◌, g_match_stmt,
  g_call_proc,
}
use scilla.Contract.Exec.{
  Answer, ok, failed, stuck, Services, Machine, Exec, map_m, after, ◌>>=◌, pure, from_r,
}
use scilla.Contract.Configuration.{
  amount_label, sender_label, env_lookup, Configuration, lookup, lookup_procedure,
}
use scilla.Contract.Statements.{clauses_length, comp_param_names, try_clauses, charged, bind_each}
use scilla.Contract.Evaluator.{
  try_apply_as_procedure, stmt_step, stmt_eval, block_size, stmt_size, procedures_size,
}
use scilla.Contract.Rules.{Settled, settled, Judges, SpendsGas}
use scilla.Contract.Progress.{bind_each-Ran}
use scilla.Contract.Operations.{lookup_procedure-shrinks, bind_all-env, try_clauses-shrinks}
use scilla.Contract.Steps.{stmt_eval-Ran, stmt_step-Ran}

module _ {k : Kinds} {A B : Type 0} {f g : A → Exec k B} where
  from_r-same :
      (o : Option A) → ((a : A) → o ≡ some a → f a ≡ g a) → (from_r o >>= f) ≡ (from_r o >>= g)
  unfolding from_r ◌>>=◌
  from_r-same none same = refl
  from_r-same (some a) same = same a refl

  any-same : (x : Exec k A) → ((a : A) → f a ≡ g a) → (x >>= f) ≡ (x >>= g)
  any-same x same = ap (λ (h : A → Exec k B). x >>= h) (fun_ext same)

  judged-same :
      {P : A → Type 0} (x : Exec k A)
      → Judges P x
      → ((a : A) → P a → f a ≡ g a)
      → (x >>= f) ≡ (x >>= g)
  unfolding ◌>>=◌
  judged-same {P} x j same = fun_ext (λ m. after_same (x m) (j.answers m))
    where
      after_same : (r : Answer A × Machine k) → Settled P r.0 → after f r ≡ after g r
      after_same (ok a, m) (settled p) = ap (λ (h : Exec k B). h m) (same a p)
      after_same (failed e, m) s = refl
      after_same (stuck, m) s = refl

module _ {k : Kinds} (services : Services k) where
  module _ (n : ℕ) (eval eval' : Configuration k → Block k → Exec k (Configuration k))
      (agree : (conf : Configuration k) (b : Block k)
        → block_size b + procedures_size conf.procedures < n
        → eval conf b ≡ eval' conf b) where
    try_apply_as_procedure-same :
        (conf : Configuration k) (proc : Component k) (rest : List (Component k))
        (actuals : List (Literal k))
        → block_size proc.comp_body + procedures_size rest < n
        → try_apply_as_procedure eval conf proc rest actuals
          ≡ try_apply_as_procedure eval' conf proc rest actuals
    unfolding try_apply_as_procedure
    try_apply_as_procedure-same conf proc rest actuals h = any-same (lookup conf sender_label) (λ s.
        any-same (lookup conf amount_label) (λ a. from_r-same _ (λ pc e.
          let (env, p) =
            bind_all-env (record conf { env = conf.init_env; procedures = rest }) pc
              (sender_label ∷ amount_label ∷ comp_param_names proc.comp_params) (s ∷ a ∷ actuals)
              e in
          ap
            (λ (x : Exec k (Configuration k)). x >>= (λ conf'. pure (record conf' {
              env = conf.env;
              procedures = conf.procedures;
              component_stack = proc.comp_name ∷ conf.component_stack;
            })))
            (agree pc proc.comp_body (rw (ap (λ (c : Configuration k). c.procedures) p) h)))))

    stmt_step-same :
        (conf : Configuration k) (s : Stmt k)
        → stmt_size s + procedures_size conf.procedures < n
        → stmt_step services eval conf s ≡ stmt_step services eval' conf s
    unfolding stmt_size stmt_step
    stmt_step-same conf (match_stmt x clauses) h = any-same (lookup conf x) (λ v.
        from_r-same (try_clauses services v clauses) (λ branch e.
          let size = try_clauses-shrinks services v clauses branch e in
          ap
            (λ (x : Exec k (Configuration k)). x >>= (λ conf''.
              charged services (g_match_stmt (clauses_length clauses))
                (record conf'' { env = conf.env })))
            (agree (bind_each conf branch.1) branch.0
              (rw (bind_each-Ran conf branch.1).keeps.procedures_kept (omega arith)))))
    stmt_step-same conf (call_proc p actuals) h =
        any-same (from_r (map_m (env_lookup conf.env) actuals)) (λ args.
          from_r-same (lookup_procedure conf.procedures p) (λ found e.
            let size = lookup_procedure-shrinks conf.procedures p found e in
            ap
              (λ (x : Exec k (Configuration k)).
                x >>= (λ conf'. charged services g_call_proc conf'))
              (try_apply_as_procedure-same conf found.0 found.1 args (omega arith))))
    stmt_step-same conf (load x r) h = refl
    stmt_step-same conf (store x r) h = refl
    stmt_step-same conf (bind x e) h = refl
    stmt_step-same conf (map_update m klist none) h = refl
    stmt_step-same conf (map_update m klist (some r)) h = refl
    stmt_step-same conf (map_get x m klist fetchval) h = refl
    stmt_step-same conf (read_from_bc x bf) h = refl
    stmt_step-same conf accept_payment h = refl
    stmt_step-same conf (send_msgs ms) h = refl
    stmt_step-same conf (create_evnt params) h = refl
    stmt_step-same conf (throw none) h = refl
    stmt_step-same conf (throw (some e)) h = refl

  module _ (spends : SpendsGas services) where
    one_more :
        (n : ℕ) (conf : Configuration k) (b : Block k)
        → block_size b + procedures_size conf.procedures < n
        → stmt_eval services (suc n) conf b ≡ stmt_eval services n conf b
    unfolding stmt_eval block_size
    one_more zero conf b h = let bad : ⊥ = omega arith in elim bad [ ]
    one_more (suc n) conf end h = refl
    one_more (suc n) conf (s ⨾ sts) h =
        ap (λ (x : Exec k (Configuration k)). x >>= (λ conf'. stmt_eval services (suc n) conf' sts))
          (stmt_step-same n (stmt_eval services (suc n)) (stmt_eval services n) (one_more n) conf s
            (omega arith))
        ∙ judged-same (stmt_step services (stmt_eval services n) conf s)
            (stmt_step-Ran services n (stmt_eval services n) (stmt_eval-Ran services spends n)
              spends conf s (omega arith))
            (λ conf' r. one_more n conf' sts (rw r.keeps.procedures_kept (omega arith)))

    -- Where no evaluation of an expression leaves more gas than it was given and the fuel is above the number
    -- of statements in a block and in all procedures in scope, more fuel changes neither the answer, nor the
    -- gas that is left, nor the state of StateService.
    pub stmt_eval-enough :
        (n extra : ℕ) (conf : Configuration k) (b : Block k)
        → block_size b + procedures_size conf.procedures < n
        → stmt_eval services (extra + n) conf b ≡ stmt_eval services n conf b
    stmt_eval-enough n zero conf b h = ap (λ (x : ℕ). stmt_eval services x conf b) (zero_add n)
    stmt_eval-enough n (suc extra) conf b h =
        ap (λ (x : ℕ). stmt_eval services x conf b) (suc_add extra n)
        ∙ one_more (extra + n) conf b (omega arith)
        ∙ stmt_eval-enough n extra conf b h
