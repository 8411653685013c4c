-- ===== src/Contract/Configuration.antt =====
-- src/lang/eval/EvalUtil.ml: environments, the configuration that a statement runs in, and its operations.
use Prim.Native.String.{String}
use text.Mathlib.Text.{◌==◌ as same}
use scilla.Base.{
  ℕ, ◌+◌, ◌^◌, ◌%◌, Bool, true, false, not, ◌&&◌, List, [], ◌∷◌, ◌++◌, Option, none, some, length,
  leb, ◌==◌, if◌then◌else◌,
}
use scilla.Contract.Syntax.{
  Kinds, Literal, uint128_lit, msg, adt_value, no_literal, literal, Env, Component, StmtContext,
  entries_list, g_load, g_map_get, g_send_msgs, g_create_evnt,
}
use scilla.Contract.Exec.{
  Services, Exec, failure, pure, fail, from_r, calling, asking, map_m, ◌>>=◌,
}
use scilla.Contract.Lists.{filter, find, exists, for_all, count, zip, named}

-- The range of Uint128.
abbrev pub u128 : ℕ
u128 = 2 ^ 128

abbrev pub tag_label : String
tag_label = "_tag"

abbrev pub amount_label : String
amount_label = "_amount"

abbrev pub sender_label : String
sender_label = "_sender"

abbrev pub recipient_label : String
recipient_label = "_recipient"

abbrev pub eventname_label : String
eventname_label = "_eventname"

abbrev pub balance_label : String
balance_label = "_balance"

module _ {k : Kinds} where
  -- Env.bind and Env.lookup
  unfoldable pub env_bind : Env k → String → Literal k → Env k
  env_bind e n v = (n, v) ∷ filter (λ z. not (named n z)) e

  unfoldable pub env_lookup : Env k → String → Option (Literal k)
  env_lookup e n = elim (find (named n) e) [ none ↦ none | some z ↦ some z.1 ]

  -- The value of a map wrapped in an Option of Scilla.
  unfoldable pub wrap_option :
      k.Typ → Option (Literal k) × StmtContext k → Option (Literal k × StmtContext k)
  wrap_option vt (some v, g_map_get i (some lo)) = some (
    adt_value "Some" (vt ∷ []) (literal v no_literal),
    g_map_get i (some (adt_value "Some" (vt ∷ []) (literal lo no_literal))),
  )
  wrap_option vt (none, g_map_get i none) = some (
    adt_value "None" (vt ∷ []) no_literal,
    g_map_get i (some (adt_value "None" (vt ∷ []) no_literal)),
  )
  wrap_option vt _ = none

  unfoldable pub wrap_bool : Bool × StmtContext k → Option (Literal k × StmtContext k)
  wrap_bool (true, g_map_get i (some _)) =
      let l = adt_value "True" [] no_literal in some (l, g_map_get i (some l))
  wrap_bool (false, g_map_get i none) =
      let l = adt_value "False" [] no_literal in some (l, g_map_get i (some l))
  wrap_bool _ = none

module _ (k : Kinds) where
  pub record Configuration : Type 0 where
    pub init_env : Env k
    pub env : Env k
    pub fields : List (String × k.Typ)
    pub balance : ℕ
    pub accepted : Bool
    pub blockchain_state : Env k
    pub incoming_funds : ℕ
    pub procedures : List (Component k)
    pub component_stack : List String
    pub emitted : List (Literal k)
    pub events : List (Literal k)

-- The names of a message's entries are all different.
abbrev pub uniq_entries {ℓ} : {A : Type ℓ} → List (String × A) → Bool
uniq_entries m = for_all (λ e. count (λ e'. same e.0 e'.0) m == 1) m

module _ {k : Kinds} (services : Services k) where
  -- Configuration.store
  unfoldable pub store_field : String → Literal k → Exec k (StmtContext k)
  store_field i l = calling (services.update i [] l)

  -- Configuration.load
  unfoldable pub load_field : Configuration k → String → Exec k (Literal k × StmtContext k)
  load_field st i =
      if same i balance_label
      then pure (uint128_lit st.balance, g_load (uint128_lit st.balance))
      else do fetched ← calling (services.fetch i []); v ← from_r fetched.0; pure (v, fetched.1)

  unfoldable pub map_update :
      String → List (Literal k) → Option (Literal k) → Exec k (StmtContext k)
  map_update m klist (some v) = calling (services.update m klist v)
  map_update m klist none = calling (services.remove m klist)

  unfoldable pub map_get :
      Configuration k → String → List (Literal k) → Bool → Exec k (Literal k × StmtContext k)
  unfolding wrap_option wrap_bool
  map_get st m klist true = do
    vopt ← calling (services.fetch m klist)
    field ← from_r (find (named m) st.fields)
    vt ← from_r (services.map_access_type field.1 (length klist))
    from_r (wrap_option vt vopt)
  map_get st m klist false = do
    found ← asking (services.is_member m klist)
    from_r (wrap_bool found)

module _ {k : Kinds} where
  -- Configuration.bind
  unfoldable pub bind_var : Configuration k → String → Literal k → Configuration k
  unfolding env_bind
  bind_var st n v = record st { env = env_bind st.env n v }

  unfoldable pub bind_all :
      Configuration k → List String → List (Literal k) → Option (Configuration k)
  bind_all st ks vs = elim (zip ks vs) [
    | none ↦ none
    | some kvs ↦
        some (record st { env = kvs ++ filter (λ z. not (exists (λ x. same z.0 x) ks)) st.env })
  ]

  unfoldable pub lookup : Configuration k → String → Exec k (Literal k)
  unfolding env_lookup
  lookup st n = from_r (env_lookup st.env n)

  unfoldable pub bc_lookup : Configuration k → String → Exec k (Literal k)
  unfolding env_lookup
  bc_lookup st n = from_r (env_lookup st.blockchain_state n)

  unfoldable pub accept_incoming : Configuration k → Exec k (Configuration k)
  accept_incoming st =
      let incoming = st.incoming_funds in
      if leb 0 incoming
      then pure (record st {
        balance = (st.balance + incoming) % u128;
        accepted = true;
        incoming_funds = 0;
      })
      else fail failure

  -- A procedure, and those that it can call itself.
  unfoldable pub lookup_procedure :
      List (Component k) → String → Option (Component k × List (Component k))
  lookup_procedure [] n = none
  lookup_procedure (p ∷ ps) n = if same p.comp_name n then some (p, ps) else lookup_procedure ps n

  unfoldable pub validate_outgoing_message : Literal k → Option (Literal k)
  validate_outgoing_message (msg es) =
      let m = entries_list es in
      if exists (named tag_label) m
        && (exists (named amount_label) m && (exists (named recipient_label) m && uniq_entries m))
      then some (msg es)
      else none
  validate_outgoing_message _ = none

  -- Datatypes.scilla_list_to_ocaml
  unfoldable pub scilla_list_to_ocaml : Literal k → Option (List (Literal k))
  scilla_list_to_ocaml (adt_value n ts no_literal) = if same n "Nil" then some [] else none
  scilla_list_to_ocaml (adt_value n ts (literal h (literal t no_literal))) =
      let rest = scilla_list_to_ocaml t in
      if same n "Cons" then elim rest [ none ↦ none | some ls ↦ some (h ∷ ls) ] else none
  scilla_list_to_ocaml _ = none

  unfoldable pub send_messages :
      Configuration k → Literal k → Exec k (Configuration k × StmtContext k)
  unfolding validate_outgoing_message scilla_list_to_ocaml
  send_messages conf ms = do
    ls' ← from_r (scilla_list_to_ocaml ms)
    ls ← from_r (map_m validate_outgoing_message ls')
    pure (record conf { emitted = conf.emitted ++ ls }, g_send_msgs ls)

  unfoldable pub validate_event : Literal k → Option (Literal k)
  validate_event (msg es) =
      let m = entries_list es in
      if exists (named eventname_label) m && uniq_entries m then some (msg es) else none
  validate_event _ = none

  unfoldable pub create_event :
      Configuration k → Literal k → Exec k (Configuration k × StmtContext k)
  unfolding validate_event
  create_event conf (msg es) = do
    event ← from_r (validate_event (msg es))
    pure (record conf { events = event ∷ conf.events }, g_create_evnt event)
  create_event conf _ = fail failure
