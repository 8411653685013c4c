-- ===== src/Contract/Theorems.antt =====
-- src/lang/eval/Eval.ml: what handle_message guarantees to the caller of a contract.
use mathlib.Core.Path.{subst}
use scilla.Base.{ℕ, ◌+◌, ◌%◌, ◌≤◌, ◌≡◌, ◌≢◌, List, some, All, if◌then◌else◌}
use scilla.Contract.Syntax.{Kinds, Literal, Entries, Env, Component, msg, entries_list}
use scilla.Contract.Exec.{Answer, ok, stuck, Services, Machine, map_m}
use scilla.Contract.Configuration.{u128}
use scilla.Contract.Messages.{ContractState, Outcome, get_amount, message_amount, handle_message}
use scilla.Contract.Entries.{Sendable, Loggable}
use scilla.Contract.Rules.{OkMeets, Settled, settled, refused, SpendsGas}
use scilla.Contract.Handled.{Handled, handle_message-Judges, sum}

Settled-OkMeets : {A : Type 0} (P : A → Type 0) {r : Answer A} → Settled P r → OkMeets P r
Settled-OkMeets P (settled p) = p
Settled-OkMeets P refused = tt

Settled-not_stuck : {A : Type 0} {P : A → Type 0} {r : Answer A} → Settled P r → r ≢ stuck
Settled-not_stuck (settled p) e = cc
Settled-not_stuck refused e = cc

module _ {k : Kinds} (services : Services k) (spends : SpendsGas services)
    (contr : List (Component k)) (cstate : ContractState k) (bstate : Env k) (m : Literal k)
    (machine : Machine k) where
  -- Where no evaluation of an expression leaves more gas than it was given, the handling of any message, in
  -- any state and by any contract, comes to an end, with a result or an error, and the gas that is left is
  -- no more than was given.
  pub handle_message-ends :
      ((handle_message services contr cstate bstate m machine).0 ≢ stuck)
      × ((handle_message services contr cstate bstate m machine).1.gas ≤ machine.gas)
  handle_message-ends =
      let j = handle_message-Judges services spends contr cstate bstate m in
      (Settled-not_stuck (j.answers machine), j.gas_falls machine)

  result_Handled :
      (o : Outcome k)
      → (handle_message services contr cstate bstate m machine).0 ≡ ok o
      → Handled cstate m o
  result_Handled o e = subst (OkMeets (Handled cstate m)) e (
      Settled-OkMeets _
        ((handle_message-Judges services spends contr cstate bstate m).answers machine))

  -- Where no evaluation of an expression leaves more gas than it was given and a message has been handled,
  -- the message is a list of entries with an amount, every message that the contract sends has an amount,
  -- and the new balance with the sum of the sent amounts modulo 2^128 is the old balance, with the incoming
  -- amount added modulo 2^128 exactly when the contract reports that it accepted.
  pub handle_message-balances :
      (o : Outcome k)
      → (handle_message services contr cstate bstate m machine).0 ≡ ok o
      → (entries : Entries k) × (incoming : ℕ) × (amounts : List ℕ) × (m ≡ msg entries)
        × (get_amount (entries_list entries) ≡ some incoming)
        × (map_m message_amount o.1 ≡ some amounts)
        × (o.0.balance + sum amounts % u128
            ≡ (if o.3 then (cstate.balance + incoming) % u128 else cstate.balance))
  handle_message-balances o e =
      let h = result_Handled o e in
      (
        h.carries.entries, h.prepared.incoming_amount, h.amounts, h.carries.is_message,
        h.carries.amount_carried, h.amounts_sent, h.money,
      )

  -- Where no evaluation of an expression leaves more gas than it was given and a message has been handled,
  -- every outgoing message has exactly one tag, amount and recipient and no name twice, every event has
  -- exactly one name and no name twice, and the immutable parameters and the fields' types of the contract
  -- are what they were.
  pub handle_message-lets_out :
      (o : Outcome k)
      → (handle_message services contr cstate bstate m machine).0 ≡ ok o
      → All Sendable o.1 × All Loggable o.2 × (o.0.env ≡ cstate.env) × (o.0.fields ≡ cstate.fields)
  handle_message-lets_out o e =
      let h = result_Handled o e in (h.sendable, h.loggable, h.env_kept, h.fields_kept)
