-- ===== src/Contract/Steps.antt =====
-- src/lang/eval/Eval.ml: stmt_eval ends on the fuel that the sizes give, gains no gas, and changes only what it should.
use mathlib.Core.Path.{subst}
use scilla.Base.{ℕ, zero, suc, ◌+◌, ◌≤◌, ◌<◌, ◌≡◌, ap, List, ◌∷◌, none, some, arith}
use scilla.Contract.Syntax.{
  Kinds, Literal, Env, Stmt, Block, Component, load, store, bind, map_update, map_get, match_stmt,
  read_from_bc, accept_payment, send_msgs, create_evnt, call_proc, throw, end, ◌⨾◌, g_bind,
  g_match_stmt, g_read_from_bc, g_accept_payment, g_call_proc,
}
use scilla.Contract.Exec.{Services, Exec}
use scilla.Contract.Configuration.{amount_label, sender_label, Configuration, bind_var, lookup}
use scilla.Contract.Statements.{clauses_length, comp_param_names, bind_each}
use scilla.Contract.Evaluator.{
  try_apply_as_procedure, stmt_step, stmt_eval, block_size, stmt_size, clauses_size,
  procedures_size,
}
use scilla.Contract.Rules.{
  Judges, SpendsGas, pure-Judges, fail-Judges, from_r-Judges, bind-Judges, weaken-Judges,
  expression-Judges, charged-Judges, any-Judges, from_any-Judges,
}
use scilla.Contract.Progress.{Ran, Ran-env, Ran-refl, Ran-call, Ran-trans, bind_each-Ran}
use scilla.Contract.Operations.{
  lookup_procedure-shrinks, send_messages-Ran, create_event-Ran, bind_all-env, lookup-any,
  bc_lookup-any, Ran-bind, accept_incoming-Ran, try_clauses-shrinks, store_field-any,
  load_field-any, get_map-any, update_map-any,
}

module _ {k : Kinds} (services : Services k) where
  module _ (n : ℕ) (eval : Configuration k → Block k → Exec k (Configuration k))
      (ih : (conf : Configuration k) (b : Block k)
        → block_size b + procedures_size conf.procedures < n
        → Judges (Ran conf) (eval conf b))
      (spends : SpendsGas services) where
    try_apply_as_procedure-Ran :
        (conf : Configuration k) (proc : Component k) (rest : List (Component k))
        (actuals : List (Literal k))
        → block_size proc.comp_body + procedures_size rest < n
        → Judges (Ran conf) (try_apply_as_procedure eval conf proc rest actuals)
    unfolding try_apply_as_procedure lookup
    try_apply_as_procedure-Ran conf proc rest actuals h = from_any-Judges _ (λ sender_value.
        from_any-Judges _ (λ amount_value.
          bind-Judges {P = λ c. (e : Env k) × (c ≡ record conf { env = e; procedures = rest })} _ _
            (from_r-Judges _ (λ c.
              bind_all-env (record conf { env = conf.init_env; procedures = rest }) c
                (sender_label ∷ amount_label ∷ comp_param_names proc.comp_params)
                (sender_value ∷ amount_value ∷ actuals)))
            (λ proc_conf p.
              bind-Judges {P = Ran proc_conf} _ _
                (ih proc_conf proc.comp_body
                  (rw (ap (λ (c : Configuration k). c.procedures) p.1) h))
                (λ conf' r.
                  pure-Judges (Ran-call conf conf' p.0 rest _ (subst (λ c. Ran c conf') p.1 r))))))

    pub stmt_step-Ran :
        (conf : Configuration k) (s : Stmt k)
        → stmt_size s + procedures_size conf.procedures < n
        → Judges (Ran conf) (stmt_step services eval conf s)
    unfolding stmt_size stmt_step
    stmt_step-Ran conf (load x r) h = any-Judges _ (load_field-any services conf r) (λ loaded.
        charged-Judges services loaded.1 (bind_var conf x loaded.0) (Ran-bind conf x loaded.0))
    stmt_step-Ran conf (store x r) h = any-Judges _ (lookup-any conf _) (λ v.
        any-Judges _ (store_field-any services x v)
          (λ scon. charged-Judges services scon conf (Ran-refl conf)))
    stmt_step-Ran conf (bind x e) h =
        any-Judges _ (expression-Judges services spends e conf.env)
          (λ v. charged-Judges services g_bind (bind_var conf x v) (Ran-bind conf x v))
    stmt_step-Ran conf (map_update m klist none) h = from_any-Judges _ (λ keys.
        any-Judges _ (update_map-any services m keys none)
          (λ scon. charged-Judges services scon conf (Ran-refl conf)))
    stmt_step-Ran conf (map_update m klist (some r)) h = from_any-Judges _ (λ keys.
        any-Judges _ (lookup-any conf _) (λ v.
          any-Judges _ (update_map-any services m keys (some v))
            (λ scon. charged-Judges services scon conf (Ran-refl conf))))
    stmt_step-Ran conf (map_get x m klist fetchval) h = from_any-Judges _ (λ keys.
        any-Judges _ (get_map-any services conf m keys fetchval)
          (λ got. charged-Judges services got.1 (bind_var conf x got.0) (Ran-bind conf x got.0)))
    stmt_step-Ran conf (read_from_bc x bf) h =
        any-Judges _ (bc_lookup-any conf bf)
          (λ l. charged-Judges services g_read_from_bc (bind_var conf x l) (Ran-bind conf x l))
    stmt_step-Ran conf (match_stmt x clauses) h = any-Judges _ (lookup-any conf _) (λ v.
        bind-Judges {P = λ branch. block_size branch.0 ≤ clauses_size clauses} _ _
          (from_r-Judges _ (try_clauses-shrinks services v clauses))
          (λ branch p.
            bind-Judges {P = Ran (bind_each conf branch.1)} _ _
              (ih (bind_each conf branch.1) branch.0
                (rw (bind_each-Ran conf branch.1).keeps.procedures_kept (omega arith)))
              (λ conf'' r.
                charged-Judges services (g_match_stmt (clauses_length clauses))
                  (record conf'' { env = conf.env })
                  (Ran-trans (bind_each-Ran conf branch.1)
                    (Ran-trans r (Ran-env conf'' conf.env))))))
    stmt_step-Ran conf accept_payment h =
        bind-Judges _ _ (accept_incoming-Ran conf)
          (λ conf' r. charged-Judges services g_accept_payment conf' r)
    stmt_step-Ran conf (send_msgs ms) h = any-Judges _ (lookup-any conf _) (λ l.
        bind-Judges _ _ (send_messages-Ran conf l)
          (λ sent r. charged-Judges services sent.1 sent.0 r))
    stmt_step-Ran conf (create_evnt params) h = any-Judges _ (lookup-any conf _) (λ l.
        bind-Judges _ _ (create_event-Ran conf l)
          (λ created r. charged-Judges services created.1 created.0 r))
    stmt_step-Ran conf (call_proc p actuals) h = from_any-Judges _ (λ args.
        bind-Judges
          {P = λ found.
            block_size found.0.comp_body + procedures_size found.1
            ≤ procedures_size conf.procedures}
          _ _ (from_r-Judges _ (lookup_procedure-shrinks conf.procedures p))
          (λ found q.
            bind-Judges {P = Ran conf} _ _
              (try_apply_as_procedure-Ran conf found.0 found.1 args (omega arith))
              (λ conf' r. charged-Judges services g_call_proc conf' r)))
    stmt_step-Ran conf (throw none) h = fail-Judges
    stmt_step-Ran conf (throw (some e)) h = any-Judges _ (lookup-any conf _) (λ v. fail-Judges)

module _ {k : Kinds} (services : Services k) (spends : SpendsGas services) where
  pub stmt_eval-Ran :
      (n : ℕ) (conf : Configuration k) (b : Block k)
      → block_size b + procedures_size conf.procedures < n
      → Judges (Ran conf) (stmt_eval services n conf b)
  unfolding stmt_eval block_size
  stmt_eval-Ran zero conf b h = let bad : ⊥ = omega arith in elim bad [ ]
  stmt_eval-Ran (suc n) conf end h = pure-Judges (Ran-refl conf)
  stmt_eval-Ran (suc n) conf (s ⨾ sts) h =
      bind-Judges {P = Ran conf} _ _
        (stmt_step-Ran services n (stmt_eval services n) (stmt_eval-Ran n) spends conf s
          (omega arith))
        (λ conf' r.
          weaken-Judges (λ c q. Ran-trans r q)
            (stmt_eval-Ran n conf' sts (rw r.keeps.procedures_kept (omega arith))))
