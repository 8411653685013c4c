-- ===== src/Contract/Evaluator.antt =====
-- src/lang/eval/Eval.ml: stmt_eval and try_apply_as_procedure.
use scilla.Base.{ℕ, zero, suc, ◌+◌, List, [], ◌∷◌, none, some}
use scilla.Contract.Syntax.{
  Kinds, Literal, Stmt, Block, Clauses, Component, load, store, bind, map_update, map_get,
  match_stmt, read_from_bc, accept_payment, send_msgs, create_evnt, call_proc, throw, end, ◌⨾◌,
  no_clause, clause, g_bind, g_match_stmt, g_read_from_bc, g_accept_payment, g_call_proc,
}
use scilla.Contract.Exec.{thrown, Services, Exec, map_m, ◌>>=◌, pure, out_of_fuel, fail, from_r}
use scilla.Contract.Configuration.{
  amount_label, sender_label, env_lookup, Configuration, store_field, load_field,
  map_update as update_map, map_get as get_map, bind_var, bind_all, lookup, bc_lookup,
  accept_incoming, lookup_procedure, send_messages, create_event,
}
use scilla.Contract.Statements.{
  clauses_length, comp_param_names, try_clauses, expression, charged, bind_each,
}

module _ {k : Kinds} where
  -- A procedure's body under the evaluator `eval`, from the initial environment and the parameters, with
  -- the procedures that come before it.
  unfoldable pub try_apply_as_procedure :
      (Configuration k → Block k → Exec k (Configuration k))
      → Configuration k
      → Component k
      → List (Component k)
      → List (Literal k)
      → Exec k (Configuration k)
  unfolding lookup bind_all
  try_apply_as_procedure eval conf proc proc_rest actuals = do
    sender_value ← lookup conf sender_label
    amount_value ← lookup conf amount_label
    proc_conf ← from_r (
        bind_all (record conf { env = conf.init_env; procedures = proc_rest })
          (sender_label ∷ amount_label ∷ comp_param_names proc.comp_params)
          (sender_value ∷ amount_value ∷ actuals))
    conf' ← eval proc_conf proc.comp_body
    pure (record conf' {
      env = conf.env;
      procedures = conf.procedures;
      component_stack = proc.comp_name ∷ conf.component_stack;
    })

module _ {k : Kinds} (services : Services k) where
  -- One statement, with `eval` for the statements inside it.
  unfoldable pub stmt_step :
      (Configuration k → Block k → Exec k (Configuration k))
      → Configuration k
      → Stmt k
      → Exec k (Configuration k)
  unfolding lookup load_field bind_var store_field update_map get_map bc_lookup accept_incoming
      send_messages create_event lookup_procedure try_clauses clauses_length charged expression
      bind_each try_apply_as_procedure env_lookup
  stmt_step eval conf (load x r) = do
    loaded ← load_field services conf r
    charged services loaded.1 (bind_var conf x loaded.0)
  stmt_step eval conf (store x r) = do
    v ← lookup conf r
    scon ← store_field services x v
    charged services scon conf
  stmt_step eval conf (bind x e) = do
    lval ← expression services e conf.env
    charged services g_bind (bind_var conf x lval)
  stmt_step eval conf (map_update m klist none) = do
    keys ← from_r (map_m (env_lookup conf.env) klist)
    scon ← update_map services m keys none
    charged services scon conf
  stmt_step eval conf (map_update m klist (some r)) = do
    keys ← from_r (map_m (env_lookup conf.env) klist)
    v ← lookup conf r
    scon ← update_map services m keys (some v)
    charged services scon conf
  stmt_step eval conf (map_get x m klist fetchval) = do
    keys ← from_r (map_m (env_lookup conf.env) klist)
    got ← get_map services conf m keys fetchval
    charged services got.1 (bind_var conf x got.0)
  stmt_step eval conf (read_from_bc x bf) = do
    l ← bc_lookup conf bf
    charged services g_read_from_bc (bind_var conf x l)
  stmt_step eval conf (match_stmt x clauses) = do
    v ← lookup conf x
    branch ← from_r (try_clauses services v clauses)
    conf'' ← eval (bind_each conf branch.1) branch.0
    charged services (g_match_stmt (clauses_length clauses)) (record conf'' { env = conf.env })
  stmt_step eval conf accept_payment = do
    conf' ← accept_incoming conf
    charged services g_accept_payment conf'
  stmt_step eval conf (send_msgs ms) = do
    ms_resolved ← lookup conf ms
    sent ← send_messages conf ms_resolved
    charged services sent.1 sent.0
  stmt_step eval conf (create_evnt params) = do
    eparams_resolved ← lookup conf params
    created ← create_event conf eparams_resolved
    charged services created.1 created.0
  stmt_step eval conf (call_proc p actuals) = do
    args ← from_r (map_m (env_lookup conf.env) actuals)
    found ← from_r (lookup_procedure conf.procedures p)
    conf' ← try_apply_as_procedure eval conf found.0 found.1 args
    charged services g_call_proc conf'
  stmt_step eval conf (throw none) = fail (thrown conf.component_stack)
  stmt_step eval conf (throw (some e)) = do
    e_resolved ← lookup conf e
    fail (thrown conf.component_stack)

  unfoldable pub stmt_eval : ℕ → Configuration k → Block k → Exec k (Configuration k)
  unfolding stmt_step
  stmt_eval zero conf stmts = out_of_fuel
  stmt_eval (suc n) conf end = pure conf
  stmt_eval (suc n) conf (s ⨾ sts) = do
    conf' ← stmt_step (stmt_eval n) conf s
    stmt_eval n conf' sts

-- The statements inside a block, counted with those of its clauses: how deep its evaluation can go where it
-- calls no procedure.
module _ {k : Kinds} where
  unfoldable mutual
    pub block_size : Block k → ℕ
    block_size end = 0
    block_size (s ⨾ sts) = suc (stmt_size s + block_size sts)

    pub stmt_size : Stmt k → ℕ
    stmt_size (match_stmt x cs) = clauses_size cs
    stmt_size _ = 0

    pub clauses_size : Clauses k → ℕ
    clauses_size no_clause = 0
    clauses_size (clause p b cs) = block_size b + clauses_size cs

  unfoldable pub procedures_size : List (Component k) → ℕ
  unfolding block_size
  procedures_size [] = 0
  procedures_size (p ∷ ps) = block_size p.comp_body + procedures_size ps
