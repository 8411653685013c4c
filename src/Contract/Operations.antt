-- ===== src/Contract/Operations.antt =====
-- src/lang/eval/Eval.ml and EvalUtil.ml: what each operation of a configuration answers to a statement.
use Prim.Native.String.{String}
use text.Mathlib.Text.{◌==◌ as same}
use mathlib.Core.Bool.{not}
use scilla.Base.{
  ◌+◌, ◌≤◌, ◌≡◌, ap, Bool, true, false, List, [], ◌∷◌, ◌++◌, Option, none, some, inl, inr, All,
  arith, le→leb, Bool-cases, Option-cases,
}
use scilla.Contract.Syntax.{
  Kinds, Literal, Env, Block, Clauses, Component, string_lit, uint128_lit, msg, adt_value, other,
  no_clause, clause,
}
use scilla.Contract.Exec.{Services}
use scilla.Contract.Lists.{filter, exists, zip}
use scilla.Contract.Configuration.{
  balance_label, Configuration, store_field, load_field, map_update as update_map,
  map_get as get_map, bind_var, bind_all, lookup, bc_lookup, accept_incoming, lookup_procedure,
  validate_outgoing_message, send_messages, create_event,
}
use scilla.Contract.Statements.{match_with_pattern, try_clauses}
use scilla.Contract.Evaluator.{block_size, clauses_size, procedures_size}
use scilla.Contract.Entries.{Sendable, Loggable}
use scilla.Contract.Validation.{
  map_m-All, validate_outgoing_message-Sendable, validate_event-Loggable,
}
use scilla.Contract.Rules.{
  Judges, Anything, pure-Judges, fail-Judges, from_r-Judges, bind-Judges, calling-Judges,
  asking-Judges, any-Judges, from_any-Judges,
}
use scilla.Contract.Progress.{Ran, Ran-env, Ran-send, Ran-log, Ran-accept}

module _ {k : Kinds} where
  call_shrinks :
      (p : Component k) (ps : List (Component k)) (found : Component k × List (Component k))
      → found ≡ (p, ps)
      → block_size found.0.comp_body + procedures_size found.1 ≤ procedures_size (p ∷ ps)
  unfolding procedures_size
  call_shrinks p ps found e = rw e (omega arith)

  pub lookup_procedure-shrinks :
      (ps : List (Component k)) (n : String) (found : Component k × List (Component k))
      → lookup_procedure ps n ≡ some found
      → block_size found.0.comp_body + procedures_size found.1 ≤ procedures_size ps
  unfolding lookup_procedure procedures_size
  lookup_procedure-shrinks [] n found e = let bad : ⊥ = cc in elim bad [ ]
  lookup_procedure-shrinks (p ∷ ps) n found e = elim (Bool-cases (same p.comp_name n)) [
    | inl s ↦ call_shrinks p ps found (ground arith)
    | inr s ↦ omega (arith, lookup_procedure-shrinks ps n found (ground arith))
  ]

  pub send_messages-Ran :
      (conf : Configuration k) (ms : Literal k) → Judges (λ r. Ran conf r.0) (send_messages conf ms)
  unfolding send_messages
  send_messages-Ran conf ms = bind-Judges {P = Anything} _ _ (from_r-Judges _ (λ a e. tt)) (λ ls' u.
      bind-Judges {P = All Sendable} _ _
        (from_r-Judges _
          (map_m-All Sendable validate_outgoing_message validate_outgoing_message-Sendable ls'))
        (λ ls p. pure-Judges (Ran-send conf ls p)))

  pub create_event-Ran :
      (conf : Configuration k) (l : Literal k) → Judges (λ r. Ran conf r.0) (create_event conf l)
  unfolding create_event
  create_event-Ran conf (msg es) =
      bind-Judges {P = Loggable} _ _
        (from_r-Judges _ (λ event. validate_event-Loggable (msg es) event))
        (λ event p. pure-Judges (Ran-log conf event p))
  create_event-Ran conf (string_lit s) = fail-Judges
  create_event-Ran conf (uint128_lit n) = fail-Judges
  create_event-Ran conf (adt_value n ts ls) = fail-Judges
  create_event-Ran conf (other o) = fail-Judges

  pub bind_all-env :
      (c c' : Configuration k) (ks : List String) (vs : List (Literal k))
      → bind_all c ks vs ≡ some c'
      → (e : Env k) × (c' ≡ record c { env = e })
  unfolding bind_all
  bind_all-env c c' ks vs h = elim (Option-cases (zip ks vs)) [
    | inl n ↦ let bad : ⊥ = ground arith in elim bad [ ]
    | inr (kvs, z) ↦ (kvs ++ filter (λ z. not (exists (λ x. same z.0 x) ks)) c.env, ground arith)
  ]

  pub lookup-any : (conf : Configuration k) (n : String) → Judges Anything (lookup conf n)
  unfolding lookup
  lookup-any conf n = from_r-Judges _ (λ a e. tt)

  pub bc_lookup-any : (conf : Configuration k) (n : String) → Judges Anything (bc_lookup conf n)
  unfolding bc_lookup
  bc_lookup-any conf n = from_r-Judges _ (λ a e. tt)

  pub Ran-bind :
      (conf : Configuration k) (x : String) (v : Literal k) → Ran conf (bind_var conf x v)
  unfolding bind_var
  Ran-bind conf x v = Ran-env conf _

  pub accept_incoming-Ran : (conf : Configuration k) → Judges (Ran conf) (accept_incoming conf)
  unfolding accept_incoming
  accept_incoming-Ran conf =
      rw (le→leb 0 conf.incoming_funds (omega arith)) (pure-Judges (Ran-accept conf))

module _ {k : Kinds} (services : Services k) where
  pub try_clauses-shrinks :
      (v : Literal k) (cs : Clauses k) (branch : Block k × Env k)
      → try_clauses services v cs ≡ some branch
      → block_size branch.0 ≤ clauses_size cs
  unfolding try_clauses clauses_size
  try_clauses-shrinks v no_clause branch e = let bad : ⊥ = cc in elim bad [ ]
  try_clauses-shrinks v (clause p b cs) branch e =
      elim (Option-cases (match_with_pattern services v p)) [
        | inl n ↦
            let rest : try_clauses services v cs ≡ some branch = ground arith in
            omega (arith, try_clauses-shrinks v cs branch rest)
        | inr (bnds, r) ↦
            let q : (b, bnds) ≡ branch = ground arith in
            let size : block_size b ≡ block_size branch.0 =
              ap (λ (z : Block k × Env k). block_size z.0) q in
            omega arith
      ]

  pub store_field-any : (i : String) (l : Literal k) → Judges Anything (store_field services i l)
  unfolding store_field
  store_field-any i l = calling-Judges _

  pub load_field-any :
      (conf : Configuration k) (r : String) → Judges Anything (load_field services conf r)
  unfolding load_field
  load_field-any conf r = elim (Bool-cases (same r balance_label)) [
    | inl b ↦ rw b (pure-Judges tt)
    | inr b ↦
        rw b (any-Judges _ (calling-Judges _) (λ fetched. from_any-Judges _ (λ v. pure-Judges tt)))
  ]

  pub get_map-any :
      (conf : Configuration k) (m : String) (klist : List (Literal k)) (b : Bool)
      → Judges Anything (get_map services conf m klist b)
  unfolding get_map
  get_map-any conf m klist true =
      any-Judges _ (calling-Judges _)
        (λ vopt. from_any-Judges _ (λ field. from_any-Judges _ (λ vt. from_r-Judges _ (λ a e. tt))))
  get_map-any conf m klist false =
      any-Judges _ (asking-Judges _) (λ found. from_r-Judges _ (λ a e. tt))

  pub update_map-any :
      (m : String) (klist : List (Literal k)) (v : Option (Literal k))
      → Judges Anything (update_map services m klist v)
  unfolding update_map
  update_map-any m klist none = calling-Judges _
  update_map-any m klist (some v) = calling-Judges _
