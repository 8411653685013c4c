-- ===== src/Contract/Payments.antt =====
-- src/lang/eval/Eval.ml: post_process_msgs, which takes the amounts of the sent messages off the balance.
use scilla.Base.{
  ℕ, ◌*◌, ◌-◌, ◌%◌, ◌<◌, ◌≤◌, ◌≡◌, refl, ap, ◌∙◌, List, some, arith, lt→ltb, le→ltb, ◌⊎◌, inl, inr,
}
use scilla.Contract.Syntax.{Kinds, Literal}
use scilla.Contract.Exec.{failure, ok, failed, Machine, map_m, ◌>>=◌, from_r}
use scilla.Contract.Configuration.{u128}
use scilla.Contract.Messages.{ContractState, message_amount, post_process_msgs}
use scilla.Contract.Handled.{sum, total_u128-sum}

le_or_lt : (a b : ℕ) → (a ≤ b) ⊎ (b < a)
le_or_lt a b = ground arith

minus_zero : (n : ℕ) → n - 0 ≡ n
minus_zero n = omega arith

module _ {k : Kinds} (cstate : ContractState k) (outs : List (Literal k)) (m : Machine k)
    (amounts : List ℕ) where
  post_process_msgs-pays :
      map_m message_amount outs ≡ some amounts
      → sum amounts % u128 ≤ cstate.balance
      → post_process_msgs cstate outs m
        ≡ (ok (record cstate { balance = cstate.balance - sum amounts % u128 }), m)
  unfolding post_process_msgs ◌>>=◌ from_r
  post_process_msgs-pays e h = rw (e, total_u128-sum amounts, le→ltb _ _ h) refl

  post_process_msgs-refuses :
      map_m message_amount outs ≡ some amounts
      → cstate.balance < sum amounts % u128
      → post_process_msgs cstate outs m ≡ (failed failure, m)
  unfolding post_process_msgs ◌>>=◌ from_r
  post_process_msgs-refuses e h = rw (e, total_u128-sum amounts, lt→ltb _ _ h) refl

  -- For messages that all have an amount, the amounts are taken off the balance where their sum modulo 2^128
  -- is at most the balance, with the rest of the state as it was, and else there is an error.
  pub post_process_msgs-decides :
      map_m message_amount outs ≡ some amounts
      → ((sum amounts % u128 ≤ cstate.balance)
          × (post_process_msgs cstate outs m
              ≡ (ok (record cstate { balance = cstate.balance - sum amounts % u128 }), m)))
        ⊎ ((cstate.balance < sum amounts % u128)
            × (post_process_msgs cstate outs m ≡ (failed failure, m)))
  post_process_msgs-decides e = elim (le_or_lt (sum amounts % u128) cstate.balance) [
    | inl h ↦ inl (h, post_process_msgs-pays e h)
    | inr h ↦ inr (h, post_process_msgs-refuses e h)
  ]

  -- Messages whose amounts add up to a multiple of 2^128 are let out by a contract of any balance, also of
  -- balance 0, and the balance stays what it is.
  pub post_process_msgs-overspends :
      map_m message_amount outs ≡ some amounts
      → (n : ℕ) → sum amounts ≡ n * u128
      → post_process_msgs cstate outs m ≡ (ok cstate, m)
  post_process_msgs-overspends e n multiple =
      let none_left : sum amounts % u128 ≡ 0 = omega arith in
      post_process_msgs-pays e (omega arith)
      ∙ ap (λ (x : ℕ). (ok (record cstate { balance = cstate.balance - x }), m)) none_left
      ∙ ap (λ (b : ℕ). (ok (record cstate { balance = b }), m)) (minus_zero cstate.balance)
