-- ===== src/Contract/Scopes.antt =====
-- src/lang/eval/Eval.ml: which names a block of statements binds for the statements after it.
use Prim.Native.String.{String}
use text.Mathlib.TextEquality.{eq_iff}
use mathlib.Core.Path.{subst}
use scilla.Base.{
  ℕ, zero, suc, not, le→leb, ◌≡◌, ◌≢◌, refl, ap, ◌∙◌, List, [], ◌∷◌, ◌++◌, Option, none, some, All,
  arith,
}
use scilla.Contract.Syntax.{
  Kinds, Literal, Env, Stmt, Block, StmtContext, Component, string_lit, uint128_lit, msg, adt_value,
  other, load, store, bind, map_update, map_get, match_stmt, read_from_bc, accept_payment,
  send_msgs, create_evnt, call_proc, throw, end, ◌⨾◌, g_bind, g_match_stmt, g_read_from_bc,
  g_accept_payment, g_call_proc,
}
use scilla.Contract.Exec.{thrown, Answer, ok, failed, stuck, Services, Machine, Exec, map_m, from_r}
use scilla.Contract.Lists.{filter, find, named}
use scilla.Contract.Configuration.{
  env_bind, env_lookup, Configuration, store_field, load_field, map_update as update_map,
  map_get as get_map, bind_var, lookup, bc_lookup, accept_incoming, lookup_procedure, send_messages,
  create_event,
}
use scilla.Contract.Statements.{clauses_length, try_clauses, expression, charged, bind_each}
use scilla.Contract.Evaluator.{try_apply_as_procedure, stmt_step, stmt_eval}
use scilla.Contract.Rules.{OkMeets}
use scilla.Contract.Yields.{Yields, then-Yields, any-Yields, pure-Yields, fail-Yields}

module _ {k : Kinds} where
  -- The name that a statement binds.
  abbrev pub stmt_binds : Stmt k → List String
  stmt_binds (load x r) = x ∷ []
  stmt_binds (bind x e) = x ∷ []
  stmt_binds (map_get x m klist fetchval) = x ∷ []
  stmt_binds (read_from_bc x bf) = x ∷ []
  stmt_binds _ = []

  abbrev pub block_binds : Block k → List String
  block_binds end = []
  block_binds (s ⨾ sts) = stmt_binds s ++ block_binds sts

  -- A name means in the second configuration what it means in the first.
  abbrev Unbound : String → Configuration k → Configuration k → Type 0
  Unbound n c c' = env_lookup c'.env n ≡ env_lookup c.env n

  find-filter :
      (x n : String) (e : Env k)
      → x ≢ n
      → find (named n) (filter (λ z. not (named x z)) e) ≡ find (named n) e
  find-filter x n [] d = refl
  find-filter x n (z ∷ e) d = ground (arith, eq_iff z.0 n, eq_iff z.0 x, find-filter x n e d)

  pub find-bind :
      (x n : String) (v : Literal k) (e : Env k)
      → x ≢ n
      → find (named n) ((x, v) ∷ filter (λ z. not (named x z)) e) ≡ find (named n) e
  find-bind x n v e d = ground (arith, eq_iff x n, find-filter x n e d)

  bind_var-Unbound :
      (c : Configuration k) (x n : String) (v : Literal k) → x ≢ n → Unbound n c (bind_var c x v)
  unfolding bind_var env_bind env_lookup
  bind_var-Unbound c x n v d =
      ap
        (λ (o : Option (String × Literal k)). elim o as (λ _. Option (Literal k)) [
          | none ↦ none
          | some z ↦ some z.1
        ])
        (find-bind x n v c.env d)

  accept_incoming-env : (c : Configuration k) → Yields (λ c'. c'.env ≡ c.env) (accept_incoming c)
  unfolding accept_incoming
  accept_incoming-env c = rw (le→leb 0 c.incoming_funds (omega arith)) (pure-Yields refl)

  send_messages-env :
      (c : Configuration k) (ms : Literal k) → Yields (λ r. r.0.env ≡ c.env) (send_messages c ms)
  unfolding send_messages
  send_messages-env c ms = any-Yields _ (λ ls'. any-Yields _ (λ ls. pure-Yields refl))

  create_event-env :
      (c : Configuration k) (l : Literal k) → Yields (λ r. r.0.env ≡ c.env) (create_event c l)
  unfolding create_event
  create_event-env c (msg es) = any-Yields _ (λ event. pure-Yields refl)
  create_event-env c (string_lit s) = fail-Yields _
  create_event-env c (uint128_lit n) = fail-Yields _
  create_event-env c (adt_value n ts ls) = fail-Yields _
  create_event-env c (other o) = fail-Yields _

  try_apply_as_procedure-env :
      (eval : Configuration k → Block k → Exec k (Configuration k)) (c : Configuration k)
      (p : Component k) (rest : List (Component k)) (args : List (Literal k))
      → Yields (λ c'. c'.env ≡ c.env) (try_apply_as_procedure eval c p rest args)
  unfolding try_apply_as_procedure
  try_apply_as_procedure-env eval c p rest args =
      any-Yields _
        (λ s. any-Yields _ (λ a. any-Yields _ (λ pc. any-Yields _ (λ c'. pure-Yields refl))))

module _ {k : Kinds} (services : Services k) where
  charged-Yields :
      {P : Configuration k → Type 0} (scon : StmtContext k) (c : Configuration k)
      → P c
      → Yields P (charged services scon c)
  unfolding charged
  charged-Yields scon c p = any-Yields _ (λ paid. pure-Yields p)

  module _ (name : String) where
    same_env : (c c' : Configuration k) → c'.env ≡ c.env → Unbound name c c'
    same_env c c' e = ap (λ (env : Env k). env_lookup env name) e

    stmt_step-scope :
        (eval : Configuration k → Block k → Exec k (Configuration k)) (conf : Configuration k)
        (s : Stmt k)
        → All (λ x. x ≢ name) (stmt_binds s)
        → Yields (Unbound name conf) (stmt_step services eval conf s)
    unfolding stmt_step
    stmt_step-scope eval conf (load x r) (d, u) = any-Yields (load_field services conf r) (λ loaded.
        charged-Yields loaded.1 (bind_var conf x loaded.0)
          (bind_var-Unbound conf x name loaded.0 d))
    stmt_step-scope eval conf (store x r) d =
        any-Yields (lookup conf r)
          (λ v. any-Yields (store_field services x v) (λ scon. charged-Yields scon conf refl))
    stmt_step-scope eval conf (bind x e) (d, u) =
        any-Yields (expression services e conf.env)
          (λ v. charged-Yields g_bind (bind_var conf x v) (bind_var-Unbound conf x name v d))
    stmt_step-scope eval conf (map_update m klist none) d =
        any-Yields (from_r (map_m (env_lookup conf.env) klist)) (λ keys.
          any-Yields (update_map services m keys none) (λ scon. charged-Yields scon conf refl))
    stmt_step-scope eval conf (map_update m klist (some r)) d =
        any-Yields (from_r (map_m (env_lookup conf.env) klist)) (λ keys.
          any-Yields (lookup conf r) (λ v.
            any-Yields (update_map services m keys (some v))
              (λ scon. charged-Yields scon conf refl)))
    stmt_step-scope eval conf (map_get x m klist fetchval) (d, u) =
        any-Yields (from_r (map_m (env_lookup conf.env) klist)) (λ keys.
          any-Yields (get_map services conf m keys fetchval) (λ got.
            charged-Yields got.1 (bind_var conf x got.0) (bind_var-Unbound conf x name got.0 d)))
    stmt_step-scope eval conf (read_from_bc x bf) (d, u) =
        any-Yields (bc_lookup conf bf) (λ l.
          charged-Yields g_read_from_bc (bind_var conf x l) (bind_var-Unbound conf x name l d))
    stmt_step-scope eval conf (match_stmt x clauses) d = any-Yields (lookup conf x) (λ v.
        any-Yields (from_r (try_clauses services v clauses)) (λ branch.
          any-Yields (eval (bind_each conf branch.1) branch.0) (λ conf''.
            charged-Yields (g_match_stmt (clauses_length clauses))
              (record conf'' { env = conf.env }) refl)))
    stmt_step-scope eval conf accept_payment d =
        then-Yields (accept_incoming conf) (accept_incoming-env conf)
          (λ c' e. charged-Yields g_accept_payment c' (same_env conf c' e))
    stmt_step-scope eval conf (send_msgs ms) d = any-Yields (lookup conf ms) (λ l.
        then-Yields (send_messages conf l) (send_messages-env conf l)
          (λ r e. charged-Yields r.1 r.0 (same_env conf r.0 e)))
    stmt_step-scope eval conf (create_evnt params) d = any-Yields (lookup conf params) (λ l.
        then-Yields (create_event conf l) (create_event-env conf l)
          (λ r e. charged-Yields r.1 r.0 (same_env conf r.0 e)))
    stmt_step-scope eval conf (call_proc p actuals) d =
        any-Yields (from_r (map_m (env_lookup conf.env) actuals)) (λ args.
          any-Yields (from_r (lookup_procedure conf.procedures p)) (λ found.
            then-Yields (try_apply_as_procedure eval conf found.0 found.1 args)
              (try_apply_as_procedure-env eval conf found.0 found.1 args)
              (λ c' e. charged-Yields g_call_proc c' (same_env conf c' e))))
    stmt_step-scope eval conf (throw none) d = fail-Yields (thrown conf.component_stack)
    stmt_step-scope eval conf (throw (some e)) d =
        any-Yields (lookup conf e) (λ v. fail-Yields (thrown conf.component_stack))

  All-left : {A : Type 0} (P : A → Type 0) (xs ys : List A) → All P (xs ++ ys) → All P xs × All P ys
  All-left P [] ys p = (tt, p)
  All-left P (x ∷ xs) ys (a, p) = let (q, r) = All-left P xs ys p in ((a, q), r)

  stmt_eval-Unbound :
      (name : String) (n : ℕ) (conf : Configuration k) (b : Block k)
      → All (λ x. x ≢ name) (block_binds b)
      → Yields (Unbound name conf) (stmt_eval services n conf b)
  unfolding stmt_eval
  stmt_eval-Unbound name zero conf b d = record { yields = λ m. tt }
  stmt_eval-Unbound name (suc n) conf end d = pure-Yields refl
  stmt_eval-Unbound name (suc n) conf (s ⨾ sts) d =
      let (d', rest) = All-left _ (stmt_binds s) (block_binds sts) d in
      then-Yields {P = Unbound name conf} (stmt_step services (stmt_eval services n) conf s)
        (stmt_step-scope name (stmt_eval services n) conf s d')
        (λ c' e. record {
          yields = λ m.
              later c' e (stmt_eval services n c' sts m).0
                ((stmt_eval-Unbound name n c' sts rest).yields m);
        })
    where
      later :
          (c' : Configuration k)
          → Unbound name conf c'
          → (r : Answer (Configuration k)) → OkMeets (Unbound name c') r
          → OkMeets (Unbound name conf) r
      later c' e (ok c'') f = f ∙ e
      later c' e (failed x) f = tt
      later c' e stuck f = tt

  -- Where a block of statements ran to its end, a name that none of its statements binds itself stands for
  -- the literal that it stood for before, or still for none, whatever is bound inside the clauses of a match
  -- and in the procedures that the block calls. A map is the same table as before; its contents, which the
  -- block may have changed in place, are not spoken of.
  pub stmt_eval-scope :
      (name : String) (n : ℕ) (conf c' : Configuration k) (b : Block k) (m : Machine k)
      → All (λ x. x ≢ name) (block_binds b)
      → (stmt_eval services n conf b m).0 ≡ ok c'
      → env_lookup c'.env name ≡ env_lookup conf.env name
  stmt_eval-scope name n conf c' b m d e =
      subst (OkMeets (Unbound name conf)) e ((stmt_eval-Unbound name n conf b d).yields m)
