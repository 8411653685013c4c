-- ===== src/Contract/Runs.antt =====
-- The evaluator of contracts on a small contract, and instances of its theorems.
use text.Mathlib.Text.{◌==◌ as same}
use text.Mathlib.TextEquality.{eq_iff}
use scilla.Base.{
  ℕ, zero, suc, ◌+◌, ◌-◌, ◌^◌, ◌%◌, ◌≤◌, ◌<◌, ◌≡◌, ◌≢◌, refl, ◌⊎◌, true, false, List, [], ◌∷◌, none,
  some, All, arith,
}
use scilla.Contract.Syntax.{
  Kinds, Literal, Entries, Env, Block, Component, string_lit, uint128_lit, msg, adt_value, other,
  no_literal, literal, no_entry, entry, wildcard, binder, constructor, no_pattern, bind, match_stmt,
  accept_payment, send_msgs, call_proc, end, ◌⨾◌, no_clause, clause, g_load, g_map_update,
  g_map_get, comp_trans, comp_proc, entries_list,
}
use scilla.Contract.Exec.{
  failure, ok, failed, stuck, Services, Machine, map_m, ◌>>=◌, from_r, asking, charge,
}
use scilla.Contract.Configuration.{
  u128, env_bind, env_lookup, Configuration, bind_var, bind_all, lookup, accept_incoming,
  lookup_procedure, validate_outgoing_message, scilla_list_to_ocaml, send_messages,
}
use scilla.Contract.Statements.{
  literals_length, patterns_length, clauses_length, match_with_pattern, match_all, try_clauses,
  messages_cost, stmt_cost, stmt_gas_wrap, expression, charged, bind_each,
}
use scilla.Contract.Evaluator.{
  try_apply_as_procedure, stmt_step, stmt_eval, block_size, stmt_size, clauses_size,
  procedures_size,
}
use scilla.Contract.Messages.{
  ContractState, Outcome, get_value_for_entry, tag_of, amount_of, get_tag, get_amount,
  get_other_entries, preprocess_message, procedure_and_transition_finder,
  get_transition_and_procedures, check_message_entries, prepare_for_message, message_amount,
  total_u128, post_process_msgs, env_bind_each, initial_configuration, run_transition,
  handle_message,
}
use scilla.Contract.Entries.{Sendable, Loggable}
use scilla.Contract.Rules.{SpendsGas}
use scilla.Contract.Handled.{sum}
use scilla.Contract.Theorems.{handle_message-ends, handle_message-balances, handle_message-lets_out}
use scilla.Contract.Selection.{get_transition_and_procedures-found}
use scilla.Contract.Parameters.{Bound, check_message_entries-binds}
use scilla.Contract.Payments.{post_process_msgs-decides, post_process_msgs-overspends}
use scilla.Contract.Fuel.{stmt_eval-enough}
use scilla.Contract.Scopes.{stmt_eval-scope}

abbrev toy : Kinds
toy = record { Other = ℕ; Typ = Unit; Expr = ℕ; Store = Unit }

abbrev refund : ℕ → Entries toy
refund n =
    entry "_tag" (string_lit "Refund")
      (entry "_amount" (uint128_lit n) (entry "_recipient" (other 7) no_entry))

abbrev nil : Literal toy
nil = adt_value "Nil" [] no_literal

abbrev refunds : Literal toy
refunds = adt_value "Cons" [] (literal (msg (refund 30)) (literal nil no_literal))

-- Expression 0 is a list of one message, and any other the constructor True.
abbrev toy_services : Services toy
toy_services = record {
  arity = λ c. some 0;
  literal_cost = λ s l. some 1;
  exp_eval = λ e env g s.
      (some (elim e [ zero ↦ refunds | suc n ↦ adt_value "True" [] no_literal ]), g - 1, s);
  map_access_type = λ t n. some t;
  fetch = λ f keys s. (some (none, g_map_get 0 none), s);
  is_member = λ f keys s. some (false, g_map_get 0 none);
  update = λ f keys v s. (some (g_load v), s);
  remove = λ f keys s. (some (g_map_update 0 none), s);
}

toy-SpendsGas : SpendsGas toy_services
toy-SpendsGas e env g s = omega arith

abbrev pay_back : Component toy
pay_back = record {
  comp_type = comp_proc;
  comp_name = "pay_back";
  comp_params = [];
  comp_body = bind "ms" 0 ⨾ (send_msgs "ms" ⨾ end);
}

-- Accepts, and calls pay_back where a match finds True.
abbrev deposit_body : Block toy
deposit_body =
    accept_payment
    ⨾ (bind "b" 1
        ⨾ (match_stmt "b" (
              clause (constructor "False" no_pattern) end
                (clause wildcard (call_proc "pay_back" [] ⨾ end) no_clause))
            ⨾ end))

abbrev deposit : Component toy
deposit = record {
  comp_type = comp_trans;
  comp_name = "Deposit";
  comp_params = [];
  comp_body = deposit_body;
}

abbrev contract : List (Component toy)
contract = pay_back ∷ deposit ∷ []

abbrev state : ContractState toy
state = record { env = []; fields = []; balance = 50 }

abbrev incoming_message : Literal toy
incoming_message = msg (
    entry "_tag" (string_lit "Deposit")
      (entry "_amount" (uint128_lit 100) (entry "_sender" (other 3) no_entry)))

abbrev machine : Machine toy
machine = record { gas = 40; state = tt }

abbrev outcome : Outcome toy
outcome = (record { env = []; fields = []; balance = 120 }, msg (refund 30) ∷ [], [], true)

deposit_run :
    (handle_message toy_services contract state [] incoming_message machine).0 ≡ ok outcome
unfolding handle_message run_transition prepare_for_message preprocess_message get_tag get_amount
    get_value_for_entry tag_of amount_of get_other_entries get_transition_and_procedures
    procedure_and_transition_finder check_message_entries initial_configuration env_bind_each
    env_bind env_lookup stmt_eval stmt_step try_apply_as_procedure lookup bind_all bind_var
    bind_each accept_incoming send_messages scilla_list_to_ocaml validate_outgoing_message
    lookup_procedure try_clauses match_with_pattern match_all patterns_length literals_length
    clauses_length charged stmt_gas_wrap stmt_cost messages_cost charge expression from_r asking
    ◌>>=◌ block_size stmt_size clauses_size procedures_size post_process_msgs message_amount
    total_u128
deposit_run = refl

handle_message-ends_example :
    ((handle_message toy_services contract state [] incoming_message machine).0 ≢ stuck)
    × ((handle_message toy_services contract state [] incoming_message machine).1.gas ≤ 40)
handle_message-ends_example =
    handle_message-ends toy_services toy-SpendsGas contract state [] incoming_message machine

handle_message-balances_example :
    (entries : Entries toy) × (incoming : ℕ) × (amounts : List ℕ) × (incoming_message ≡ msg entries)
    × (get_amount (entries_list entries) ≡ some incoming)
    × (map_m message_amount (msg (refund 30) ∷ []) ≡ some amounts)
    × (120 + sum amounts % u128 ≡ (50 + incoming) % u128)
handle_message-balances_example =
    handle_message-balances toy_services toy-SpendsGas contract state [] incoming_message machine
      outcome deposit_run

handle_message-lets_out_example :
    All Sendable outcome.1
    × All Loggable outcome.2
    × (outcome.0.env ≡ state.env)
    × (outcome.0.fields ≡ state.fields)
handle_message-lets_out_example =
    handle_message-lets_out toy_services toy-SpendsGas contract state [] incoming_message machine
      outcome deposit_run

get_transition_and_procedures-found_example :
    get_transition_and_procedures contract "Deposit" machine
    ≡ (ok (pay_back ∷ [], deposit), machine)
get_transition_and_procedures-found_example =
    get_transition_and_procedures-found "Deposit" (pay_back ∷ []) [] deposit machine ((λ e. cc), tt)
      (record { is_transition = refl; is_named = refl })

abbrev deposit_entries : Env toy
deposit_entries = ("_amount", uint128_lit 100) ∷ ("_sender", other 3) ∷ []

entries_run :
    check_message_entries {k = toy} [] deposit_entries machine ≡ (ok deposit_entries, machine)
unfolding check_message_entries
entries_run = refl

check_message_entries-binds_example :
    All (Bound (("_amount", uint128_lit 1) ∷ []) deposit_entries) ("_amount" ∷ "_sender" ∷ [])
check_message_entries-binds_example =
    check_message_entries-binds (("_amount", uint128_lit 1) ∷ []) deposit_entries deposit_entries []
      machine machine entries_run

refund_amount : map_m (message_amount {k = toy}) (msg (refund 30) ∷ []) ≡ some (30 ∷ [])
unfolding message_amount get_amount get_value_for_entry amount_of
refund_amount = refl

post_process_msgs-decides_example :
    ((30 ≤ 50)
      × (post_process_msgs state (msg (refund 30) ∷ []) machine
          ≡ (ok (record state { balance = 20 }), machine)))
    ⊎ ((50 < 30)
        × (post_process_msgs state (msg (refund 30) ∷ []) machine ≡ (failed failure, machine)))
post_process_msgs-decides_example =
    post_process_msgs-decides state (msg (refund 30) ∷ []) machine (30 ∷ []) refund_amount

abbrev half : ℕ
half = 2 ^ 127

abbrev poor : ContractState toy
poor = record { env = []; fields = []; balance = 0 }

half_amounts :
    map_m (message_amount {k = toy}) (msg (refund half) ∷ msg (refund half) ∷ [])
    ≡ some (half ∷ half ∷ [])
unfolding message_amount get_amount get_value_for_entry amount_of
half_amounts = refl

post_process_msgs-overspends_example :
    post_process_msgs poor (msg (refund half) ∷ msg (refund half) ∷ []) machine ≡ (ok poor, machine)
post_process_msgs-overspends_example =
    post_process_msgs-overspends poor (msg (refund half) ∷ msg (refund half) ∷ []) machine
      (half ∷ half ∷ []) half_amounts 1 (omega arith)

abbrev running : Configuration toy
running = record {
  init_env = [];
  env = ("x", other 5) ∷ [];
  fields = [];
  balance = 50;
  accepted = false;
  blockchain_state = [];
  incoming_funds = 100;
  procedures = [];
  component_stack = [];
  emitted = [];
  events = [];
}

-- A match on the value of `b` that binds `x` in its clause.
abbrev shadowing : Block toy
shadowing = bind "b" 1 ⨾ (match_stmt "b" (clause (binder "x") end no_clause) ⨾ end)

abbrev ran : Configuration toy
ran = record running { env = ("b", adt_value "True" [] no_literal) ∷ ("x", other 5) ∷ [] }

shadowing_run : (stmt_eval toy_services 3 running shadowing machine).0 ≡ ok ran
unfolding stmt_eval stmt_step lookup env_bind env_lookup bind_var bind_each try_clauses
    match_with_pattern match_all clauses_length charged stmt_gas_wrap stmt_cost charge expression
    from_r asking ◌>>=◌
shadowing_run = refl

stmt_eval-scope_example : env_lookup ran.env "x" ≡ env_lookup running.env "x"
stmt_eval-scope_example =
    stmt_eval-scope toy_services "x" 3 running ran shadowing machine
      ((λ e. let met : same "b" "x" ≡ true = (eq_iff "b" "x").1 e in cc), tt) shadowing_run

shadowing_size : block_size shadowing + procedures_size running.procedures < 10
unfolding block_size stmt_size clauses_size procedures_size
shadowing_size = omega arith

stmt_eval-enough_example :
    stmt_eval toy_services 15 running shadowing ≡ stmt_eval toy_services 10 running shadowing
stmt_eval-enough_example =
    stmt_eval-enough toy_services toy-SpendsGas 10 5 running shadowing shadowing_size
