-- ===== src/Contract/Parameters.antt =====
-- src/lang/eval/Eval.ml: check_message_entries, and the environment that handle_message builds of the entries.
use Prim.Native.String.{String}
use text.Mathlib.Text.{◌==◌ as same}
use text.Mathlib.TextEquality.{eq_iff}
use mathlib.Core.Path.{subst}
use scilla.Base.{
  ◌≡◌, refl, ap, ◌∙◌, Bool, true, false, not, ◌&&◌, List, [], ◌∷◌, Option, none, some, inl, inr,
  All, arith, Bool-cases, if◌then◌else◌,
}
use scilla.Contract.Syntax.{Kinds, Literal, Env}
use scilla.Contract.Exec.{failure, ok, Machine, pure, fail}
use scilla.Contract.Lists.{find, exists, for_all, count, named}
use scilla.Contract.Configuration.{amount_label, sender_label, env_bind, env_lookup, uniq_entries}
use scilla.Contract.Statements.{comp_param_names}
use scilla.Contract.Messages.{check_message_entries, env_bind_each}
use scilla.Contract.Entries.{Distinct, uniq_entries-Distinct}
use scilla.Contract.Scopes.{find-bind}

first_two : (a b c : Bool) → (a && (b && c)) ≡ true → (a ≡ true) × (b ≡ true)
first_two a b c h = ground arith

module _ {k : Kinds} where
  Distinct-rest : (x : String × Literal k) (bs : Env k) → Distinct (x ∷ bs) → Distinct bs
  Distinct-rest x bs d n = ground (arith, d n)

  absent-find : (n : String) (bs : Env k) → count (named n) bs ≡ 0 → find (named n) bs ≡ none
  absent-find n [] h = refl
  absent-find n (b ∷ bs) h = ground (arith, absent-find n bs)

  first_only :
      (x : String × Literal k) (bs : Env k) → Distinct (x ∷ bs) → find (named x.0) bs ≡ none
  first_only x bs d = absent-find x.0 bs (ground (arith, d x.0, (eq_iff x.0 x.0).1 refl))

  kept-bind_each :
      (e bs : Env k) (n : String)
      → find (named n) bs ≡ none
      → find (named n) (env_bind_each e bs) ≡ find (named n) e
  unfolding env_bind_each env_bind
  kept-bind_each e [] n h = refl
  kept-bind_each e (b ∷ bs) n h = elim (Bool-cases (same b.0 n)) [
    | inl s ↦ let bad : ⊥ = ground (arith, s) in elim bad [ ]
    | inr s ↦
        kept-bind_each (env_bind e b.0 b.1) bs n (ground (arith, s))
        ∙ find-bind b.0 n b.1 e (λ q. let met : same b.0 n ≡ true = (eq_iff b.0 n).1 q in cc)
  ]

  first_bound :
      (e bs : Env k) (b : String × Literal k) (n : String)
      → Distinct (b ∷ bs)
      → same b.0 n ≡ true
      → find (named n) (env_bind_each e (b ∷ bs)) ≡ some b
  unfolding env_bind_each env_bind
  first_bound e bs b n d s =
      kept-bind_each (env_bind e b.0 b.1) bs n
        (subst (λ x. find (named x) bs ≡ none) ((eq_iff b.0 n).0 s) (first_only b bs d))
      ∙ ground (arith, s)

  found-bind_each :
      (e bs : Env k) (n : String) (z : String × Literal k)
      → Distinct bs
      → find (named n) bs ≡ some z
      → find (named n) (env_bind_each e bs) ≡ some z
  unfolding env_bind_each
  found-bind_each e [] n z d h = let bad : ⊥ = cc in elim bad [ ]
  found-bind_each e (b ∷ bs) n z d h = elim (Bool-cases (same b.0 n)) [
    | inl s ↦
        let same_entry : some b ≡ some z = ground (arith, s, h) in
        first_bound e bs b n d s ∙ same_entry
    | inr s ↦
        found-bind_each (env_bind e b.0 b.1) bs n z (Distinct-rest b bs d) (ground (arith, s, h))
  ]

  exists-find :
      (n : String) (bs : Env k)
      → exists (named n) bs ≡ true
      → (z : String × Literal k) × (find (named n) bs ≡ some z)
  exists-find n [] h = let bad : ⊥ = cc in elim bad [ ]
  exists-find n (b ∷ bs) h = elim (Bool-cases (same b.0 n)) [
    | inl s ↦ (b, ground (arith, s))
    | inr s ↦ let (z, f) = exists-find n bs (ground (arith, s)) in (z, ground (arith, s, f))
  ]

  -- A parameter means in the environment what it means in the message.
  abbrev pub Bound : Env k → Env k → String → Type 0
  Bound e entries p =
      (v : Literal k) × (env_lookup entries p ≡ some v)
      × (env_lookup (env_bind_each e entries) p ≡ some v)

  parameter-Bound :
      (e entries : Env k) (p : String)
      → Distinct entries
      → exists (named p) entries ≡ true
      → Bound e entries p
  unfolding env_lookup
  parameter-Bound e entries p d h =
      let (z, f) = exists-find p entries h in
      let value = λ (o : Option (String × Literal k)). elim o as (λ _. Option (Literal k)) [
        | none ↦ none
        | some z ↦ some z.1
      ] in
      (z.1, ap value f, ap value (found-bind_each e entries p z d f))

  parameters-Bound :
      (e entries : Env k) (ps : List String)
      → Distinct entries
      → for_all (λ p. exists (named p) entries) ps ≡ true
      → All (Bound e entries) ps
  parameters-Bound e entries [] d h = tt
  parameters-Bound e entries (p ∷ ps) d h =
      (parameter-Bound e entries p d (ground arith), parameters-Bound e entries ps d (ground arith))

  tests_passed :
      (b : Bool) (entries accepted : Env k) (m m' : Machine k)
      → (if not b then fail {k = k} failure else pure entries) m ≡ (ok accepted, m')
      → (b ≡ true) × (entries ≡ accepted)
  tests_passed true entries accepted m m' h = (refl, cc)
  tests_passed false entries accepted m m' h = let bad : ⊥ = cc in elim bad [ ]

  -- Where the entries of a message are accepted for a transition, the environment that binds them over any
  -- other gives the amount, the sender and every parameter of the transition the value that the message has
  -- for it.
  pub check_message_entries-binds :
      (e entries accepted : Env k) (params : List (String × k.Typ)) (m m' : Machine k)
      → check_message_entries params entries m ≡ (ok accepted, m')
      → All (Bound e accepted) (amount_label ∷ sender_label ∷ comp_param_names params)
  unfolding check_message_entries
  check_message_entries-binds e entries accepted params m m' h =
      let (passed, same_entries) = tests_passed _ entries accepted m m' h in
      let tparams = amount_label ∷ sender_label ∷ comp_param_names params in
      let (all_there, uniq) =
        first_two (for_all (λ p. exists (named p) entries) tparams) (uniq_entries entries)
          (for_all (λ e. exists (λ p. same e.0 p) tparams) entries) passed in
      subst
        (λ (es : Env k). All (Bound e es) (amount_label ∷ sender_label ∷ comp_param_names params))
        same_entries
        (parameters-Bound e entries tparams (uniq_entries-Distinct entries uniq) all_there)
