-- ===== src/Contract/Messages.antt =====
-- src/lang/eval/Eval.ml: the processing of a message, from preprocess_message to handle_message, with
-- MessagePayload of src/lang/base/ContractUtil.ml and ContractState of src/lang/eval/EvalUtil.ml.
use Prim.Native.String.{String}
use text.Mathlib.Text.{◌==◌ as same}
use scilla.Base.{
  ℕ, suc, ◌+◌, ◌-◌, ◌%◌, Bool, false, not, ◌&&◌, List, [], ◌∷◌, Option, none, some, ltb, leb,
  if◌then◌else◌,
}
use scilla.Contract.Syntax.{
  Kinds, Literal, Env, Component, string_lit, uint128_lit, msg, comp_trans, comp_proc, entries_list,
}
use scilla.Contract.Exec.{failure, Services, Exec, map_m, ◌>>=◌, pure, fail, from_r}
use scilla.Contract.Lists.{filter, find, exists, for_all, named}
use scilla.Contract.Configuration.{
  u128, tag_label, amount_label, sender_label, env_bind, Configuration, uniq_entries,
}
use scilla.Contract.Statements.{comp_param_names}
use scilla.Contract.Evaluator.{stmt_eval, block_size, procedures_size}

-- Uint128.add, one amount after the other.
unfoldable pub total_u128 : ℕ → List ℕ → ℕ
total_u128 z [] = z
total_u128 z (a ∷ amounts) = total_u128 ((z + a) % u128) amounts

module _ (k : Kinds) where
  pub record ContractState : Type 0 where
    pub env : Env k
    pub fields : List (String × k.Typ)
    pub balance : ℕ

  -- What a message brings to a transition: the environment, the incoming amount and the procedures in
  -- scope.
  pub record Prepared : Type 0 where
    pub tenv : Env k
    pub incoming_amount : ℕ
    pub tprocedures : List (Component k)
    pub transition : Component k

  -- What a transition leaves: the state of the contract, the messages, the events, and whether the
  -- incoming money was accepted.
  abbrev pub Outcome : Type 0
  Outcome = ContractState × List (Literal k) × List (Literal k) × Bool

module _ {k : Kinds} where
  -- `f` answers `none` for a value of the wrong form.
  unfoldable pub get_value_for_entry :
      {A : Type 0} → String → (Literal k → Option A) → Env k → Option A
  get_value_for_entry lab f es = elim (find (named lab) es) [ none ↦ none | some z ↦ f z.1 ]

  unfoldable pub tag_of : Literal k → Option String
  tag_of (string_lit s) = some s
  tag_of _ = none

  unfoldable pub amount_of : Literal k → Option ℕ
  amount_of (uint128_lit i) = if leb 0 i then some i else none
  amount_of _ = none

  unfoldable pub get_tag : Env k → Option String
  unfolding get_value_for_entry tag_of
  get_tag es = get_value_for_entry tag_label tag_of es

  unfoldable pub get_amount : Env k → Option ℕ
  unfolding get_value_for_entry amount_of
  get_amount es = get_value_for_entry amount_label amount_of es

  unfoldable pub get_other_entries : Env k → Env k
  get_other_entries es = filter (λ z. not (named tag_label z)) es

  -- The tag, the amount and the entries that are not the tag.
  unfoldable pub preprocess_message : Env k → Exec k (String × ℕ × Env k)
  unfolding get_tag get_amount get_other_entries
  preprocess_message es = do
    tag ← from_r (get_tag es)
    amount ← from_r (get_amount es)
    pure (tag, amount, get_other_entries es)

  unfoldable pub procedure_and_transition_finder :
      String → List (Component k) → List (Component k) → List (Component k) × Option (Component k)
  procedure_and_transition_finder tag procs_acc [] = (procs_acc, none)
  procedure_and_transition_finder tag procs_acc (c ∷ c_rest) = elim c.comp_type [
    | comp_proc ↦ procedure_and_transition_finder tag (c ∷ procs_acc) c_rest
    | comp_trans ↦
        let rest = procedure_and_transition_finder tag procs_acc c_rest in
        if same tag c.comp_name then (procs_acc, some c) else rest
  ]

  -- The procedures in scope and the transition.
  unfoldable pub get_transition_and_procedures :
      List (Component k) → String → Exec k (List (Component k) × Component k)
  unfolding procedure_and_transition_finder
  get_transition_and_procedures ctr tag =
      let found = procedure_and_transition_finder tag [] ctr in
      from_r found.1 >>= λ t. pure (found.0, t)

  unfoldable pub check_message_entries : List (String × k.Typ) → Env k → Exec k (Env k)
  check_message_entries cparams_o entries =
      let tparams = amount_label ∷ sender_label ∷ comp_param_names cparams_o in
      let valid_entries = for_all (λ p. exists (named p) entries) tparams in
      let valid_params = for_all (λ e. exists (λ p. same e.0 p) tparams) entries in
      if not (valid_entries && (uniq_entries entries && valid_params))
      then fail failure
      else pure entries

  unfoldable pub prepare_for_message : List (Component k) → Literal k → Exec k (Prepared k)
  unfolding preprocess_message get_transition_and_procedures check_message_entries
  prepare_for_message contr (msg entries) = do
    m ← preprocess_message (entries_list entries)
    found ← get_transition_and_procedures contr m.0
    tenv ← check_message_entries found.1.comp_params m.2
    pure
        (record { tenv = tenv; incoming_amount = m.1; tprocedures = found.0; transition = found.1 })
  prepare_for_message contr _ = fail failure

  unfoldable pub message_amount : Literal k → Option ℕ
  unfolding get_amount
  message_amount (msg es) = get_amount (entries_list es)
  message_amount _ = none

  unfoldable pub post_process_msgs : ContractState k → List (Literal k) → Exec k (ContractState k)
  unfolding message_amount total_u128
  post_process_msgs cstate outs = do
    amounts ← from_r (map_m message_amount outs)
    let to_be_transferred = total_u128 0 amounts
    if ltb cstate.balance to_be_transferred
        then fail failure
        else pure (record cstate { balance = cstate.balance - to_be_transferred })

  unfoldable pub env_bind_each : Env k → Env k → Env k
  unfolding env_bind
  env_bind_each e [] = e
  env_bind_each e (b ∷ bs) = env_bind_each (env_bind e b.0 b.1) bs

  -- The configuration that a transition starts in.
  unfoldable pub initial_configuration : ContractState k → Env k → Prepared k → Configuration k
  unfolding env_bind_each
  initial_configuration cstate bstate prepared =
      let actual_env = env_bind_each cstate.env prepared.tenv in
      record {
        init_env = actual_env;
        env = actual_env;
        fields = cstate.fields;
        balance = cstate.balance;
        accepted = false;
        blockchain_state = bstate;
        incoming_funds = prepared.incoming_amount;
        procedures = prepared.tprocedures;
        component_stack = prepared.transition.comp_name ∷ [];
        emitted = [];
        events = [];
      }

module _ {k : Kinds} (services : Services k) where
  -- The fuel is the size of the transition and of the procedures in scope.
  unfoldable pub run_transition : ContractState k → Env k → Prepared k → Exec k (Outcome k)
  unfolding initial_configuration env_bind_each post_process_msgs stmt_eval block_size
      procedures_size
  run_transition cstate bstate prepared = do
    let stmts = prepared.transition.comp_body
    let fuel = suc (block_size stmts + procedures_size prepared.tprocedures)
    conf' ← stmt_eval services fuel (initial_configuration cstate bstate prepared) stmts
    cstate'' ←
        post_process_msgs
          (record { env = cstate.env; fields = conf'.fields; balance = conf'.balance })
          conf'.emitted
    pure (cstate'', conf'.emitted, conf'.events, conf'.accepted)

  unfoldable pub handle_message :
      List (Component k) → ContractState k → Env k → Literal k → Exec k (Outcome k)
  unfolding prepare_for_message run_transition
  handle_message contr cstate bstate m =
      prepare_for_message contr m >>= run_transition cstate bstate
