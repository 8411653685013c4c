-- ===== src/Contract/Handled.antt =====
-- src/lang/eval/Eval.ml: what handle_message leaves of a contract's money and what it lets out.
use Prim.Native.String.{String}
use mathlib.Core.List.{append-nil}
use mathlib.Core.Path.{subst}
use scilla.Base.{
  zero_add, ℕ, suc, ◌+◌, ◌%◌, ◌<◌, ltb, ◌≡◌, refl, sym, ap, ◌∙◌, List, [], ◌∷◌, some, inl, inr, All,
  arith, Bool-cases, if◌then◌else◌,
}
use scilla.Contract.Syntax.{
  Kinds, Literal, Entries, Env, Component, string_lit, uint128_lit, msg, adt_value, other,
  entries_list,
}
use scilla.Contract.Exec.{Services, map_m}
use scilla.Contract.Configuration.{u128, Configuration}
use scilla.Contract.Evaluator.{block_size, procedures_size}
use scilla.Contract.Messages.{
  ContractState, Prepared, Outcome, get_amount, preprocess_message, get_transition_and_procedures,
  check_message_entries, prepare_for_message, message_amount, total_u128, post_process_msgs,
  initial_configuration, run_transition, handle_message,
}
use scilla.Contract.Entries.{Sendable, Loggable}
use scilla.Contract.Rules.{
  Judges, Anything, SpendsGas, if-Judges, pure-Judges, fail-Judges, from_r-Judges, bind-Judges,
  any-Judges, from_any-Judges,
}
use scilla.Contract.Progress.{Money, Ran}
use scilla.Contract.Steps.{stmt_eval-Ran}

-- The amounts as numbers, without wrapping.
abbrev pub sum : List ℕ → ℕ
sum [] = 0
sum (a ∷ amounts) = a + sum amounts

wrapped_sum : (z a s : ℕ) → ((z + a) % u128 + s) % u128 ≡ (z + (a + s)) % u128
wrapped_sum z a s = omega arith

total_u128-sum_from :
    (z : ℕ) (amounts : List ℕ) → z < u128 → total_u128 z amounts ≡ (z + sum amounts) % u128
unfolding total_u128
total_u128-sum_from z [] h = omega arith
total_u128-sum_from z (a ∷ amounts) h =
    total_u128-sum_from ((z + a) % u128) amounts (omega arith) ∙ wrapped_sum z a (sum amounts)

pub total_u128-sum : (amounts : List ℕ) → total_u128 0 amounts ≡ sum amounts % u128
total_u128-sum amounts =
    total_u128-sum_from 0 amounts (omega arith) ∙ ap (λ (s : ℕ). s % u128) (zero_add (sum amounts))

module _ {k : Kinds} where
  -- What has been paid out of a state.
  pub record PaidOut (before : ContractState k) (outs : List (Literal k)) (c : ContractState k)
      : Type 0 where
    pub amounts : List ℕ
    pub amounts_sent : map_m message_amount outs ≡ some amounts
    pub balance_paid : c.balance + sum amounts % u128 ≡ before.balance
    pub env_kept : c.env ≡ before.env
    pub fields_kept : c.fields ≡ before.fields

  post_process_msgs-PaidOut :
      (c : ContractState k) (outs : List (Literal k))
      → Judges (PaidOut c outs) (post_process_msgs c outs)
  unfolding post_process_msgs
  post_process_msgs-PaidOut c outs =
      bind-Judges {P = λ amounts. map_m message_amount outs ≡ some amounts} _ _
        (from_r-Judges _ (λ amounts e. e))
        (λ amounts e. elim (Bool-cases (ltb c.balance (total_u128 0 amounts))) [
          | inl t ↦ rw t fail-Judges
          | inr t ↦ rw t (
              pure-Judges (record {
                amounts = amounts;
                amounts_sent = e;
                balance_paid = ground (arith, total_u128-sum amounts);
                env_kept = refl;
                fields_kept = refl;
              }))
        ])

  -- What a message brings.
  pub record Carries (m : Literal k) (p : Prepared k) : Type 0 where
    pub entries : Entries k
    pub is_message : m ≡ msg entries
    pub amount_carried : get_amount (entries_list entries) ≡ some p.incoming_amount

  preprocess_message-amount :
      (es : Env k) → Judges (λ m. get_amount es ≡ some m.1) (preprocess_message es)
  unfolding preprocess_message
  preprocess_message-amount es = from_any-Judges _ (λ tag.
      bind-Judges {P = λ a. get_amount es ≡ some a} _ _ (from_r-Judges _ (λ a e. e))
        (λ a e. pure-Judges e))

  get_transition_and_procedures-any :
      (contr : List (Component k)) (tag : String)
      → Judges Anything (get_transition_and_procedures contr tag)
  unfolding get_transition_and_procedures
  get_transition_and_procedures-any contr tag = from_any-Judges _ (λ t. pure-Judges tt)

  check_message_entries-any :
      (ps : List (String × k.Typ)) (es : Env k) → Judges Anything (check_message_entries ps es)
  unfolding check_message_entries
  check_message_entries-any ps es = if-Judges _ fail-Judges (pure-Judges tt)

  prepare_for_message-Carries :
      (contr : List (Component k)) (m : Literal k)
      → Judges (Carries m) (prepare_for_message contr m)
  unfolding prepare_for_message
  prepare_for_message-Carries contr (msg es) =
      bind-Judges {P = λ m. get_amount (entries_list es) ≡ some m.1} _ _
        (preprocess_message-amount (entries_list es))
        (λ m a. any-Judges _ (get_transition_and_procedures-any contr m.0) (λ found.
          any-Judges _ (check_message_entries-any found.1.comp_params m.2)
            (λ tenv. pure-Judges (record { entries = es; is_message = refl; amount_carried = a }))))
  prepare_for_message-Carries contr (string_lit s) = fail-Judges
  prepare_for_message-Carries contr (uint128_lit n) = fail-Judges
  prepare_for_message-Carries contr (adt_value n ts ls) = fail-Judges
  prepare_for_message-Carries contr (other o) = fail-Judges

  -- What a handled message leaves: the money of the contract is what it was, with the incoming amount where
  -- that was accepted, less what the messages send.
  pub record Handled (cstate : ContractState k) (m : Literal k) (o : Outcome k) : Type 0 where
    pub prepared : Prepared k
    pub carries : Carries m prepared
    pub amounts : List ℕ
    pub amounts_sent : map_m message_amount o.1 ≡ some amounts
    pub money :
        o.0.balance + sum amounts % u128
        ≡ (if o.3 then (cstate.balance + prepared.incoming_amount) % u128 else cstate.balance)
    pub sendable : All Sendable o.1
    pub loggable : All Loggable o.2
    pub env_kept : o.0.env ≡ cstate.env
    pub fields_kept : o.0.fields ≡ cstate.fields

  initial-Money :
      (cstate : ContractState k) (bstate : Env k) (p : Prepared k) (c' : Configuration k)
      → Money (initial_configuration cstate bstate p) c'
      → c'.balance
        ≡ (if c'.accepted then (cstate.balance + p.incoming_amount) % u128 else cstate.balance)
  unfolding initial_configuration
  initial-Money cstate bstate p c' (inl h) = rw (h.accepted_held, h.balance_held) refl
  initial-Money cstate bstate p c' (inr h) = rw (h.accepted_set, h.balance_gains) refl

  enough_fuel :
      (cstate : ContractState k) (bstate : Env k) (p : Prepared k)
      → block_size p.transition.comp_body
          + procedures_size (initial_configuration cstate bstate p).procedures
        < suc (block_size p.transition.comp_body + procedures_size p.tprocedures)
  unfolding initial_configuration
  enough_fuel cstate bstate p = omega arith

  sent_only :
      (cstate : ContractState k) (bstate : Env k) (p : Prepared k) (c' : Configuration k)
      → Ran (initial_configuration cstate bstate p) c'
      → All Sendable c'.emitted × All Loggable c'.events × (c'.fields ≡ cstate.fields)
  unfolding initial_configuration
  sent_only cstate bstate p c' r = (
    subst (All Sendable) (sym r.sends.emitted_grows) r.sends.sent_sendable,
    subst (All Loggable) (sym (r.logs.events_grow ∙ append-nil r.logs.logged))
        r.logs.logged_loggable,
    r.keeps.fields_kept,
  )

module _ {k : Kinds} (services : Services k) (spends : SpendsGas services) where
  handled :
      (cstate : ContractState k) (bstate : Env k) (m : Literal k) (p : Prepared k)
      → Carries m p
      → Judges (Handled cstate m) (run_transition services cstate bstate p)
  unfolding run_transition
  handled cstate bstate m p carries =
      bind-Judges {P = Ran (initial_configuration cstate bstate p)} _ _
        (stmt_eval-Ran services spends
          (suc (block_size p.transition.comp_body + procedures_size p.tprocedures))
          (initial_configuration cstate bstate p) p.transition.comp_body
          (enough_fuel cstate bstate p))
        (λ c' r.
          let money = initial-Money cstate bstate p c' r.money in
          let (sendable, loggable, fields) = sent_only cstate bstate p c' r in
          bind-Judges
            {P = PaidOut (record { env = cstate.env; fields = c'.fields; balance = c'.balance })
              c'.emitted}
            _ _ (post_process_msgs-PaidOut _ _)
            (λ cstate'' paid. pure-Judges (record {
              prepared = p;
              carries = carries;
              amounts = paid.amounts;
              amounts_sent = paid.amounts_sent;
              money = paid.balance_paid ∙ money;
              sendable = sendable;
              loggable = loggable;
              env_kept = paid.env_kept;
              fields_kept = paid.fields_kept ∙ fields;
            })))

  pub handle_message-Judges :
      (contr : List (Component k)) (cstate : ContractState k) (bstate : Env k) (m : Literal k)
      → Judges (Handled cstate m) (handle_message services contr cstate bstate m)
  unfolding handle_message
  handle_message-Judges contr cstate bstate m =
      bind-Judges {P = Carries m} _ _ (prepare_for_message-Carries contr m)
        (handled cstate bstate m)
