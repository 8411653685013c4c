-- ===== src/Contract/Validation.antt =====
-- src/lang/eval/EvalUtil.ml: what validate_outgoing_message and validate_event let through.
use mathlib.Core.Path.{subst}
use scilla.Base.{
  ◌≡◌, refl, sym, Bool, true, ◌&&◌, List, [], ◌∷◌, Option, none, some, All, arith, if◌then◌else◌,
}
use scilla.Contract.Syntax.{
  Kinds, Literal, string_lit, uint128_lit, msg, adt_value, other, entries_list,
}
use scilla.Contract.Exec.{map_m}
use scilla.Contract.Lists.{exists, named}
use scilla.Contract.Configuration.{
  eventname_label, uniq_entries, validate_outgoing_message, validate_event,
}
use scilla.Contract.Entries.{Sendable, Loggable, uniq_entries-Once, uniq_entries-Distinct}

both_tests : (a b : Bool) → (a && b) ≡ true → (a ≡ true) × (b ≡ true)
both_tests a b h = ground arith

all_tests :
    (a b c d : Bool)
    → (a && (b && (c && d))) ≡ true
    → (a ≡ true) × (b ≡ true) × (c ≡ true) × (d ≡ true)
all_tests a b c d h = ground arith

some-both :
    {B : Type 0} (o : Option B) (r : Option (List B)) (ys : List B)
    → (elim o as (λ _. Option (List B)) [
      | none ↦ none
      | some b ↦ elim r as (λ _. Option (List B)) [ none ↦ none | some bs ↦ some (b ∷ bs) ]
    ])
      ≡ some ys
    → (b : B) × (bs : List B) × (o ≡ some b) × (r ≡ some bs) × (ys ≡ b ∷ bs)
some-both none r ys e = let bad : ⊥ = cc in elim bad [ ]
some-both (some b) none ys e = let bad : ⊥ = cc in elim bad [ ]
some-both (some b) (some bs) ys e = (b, bs, refl, refl, cc)

module _ {A B : Type 0} where
  -- The results of an elementwise operation all meet what each of its results meets.
  pub map_m-All :
      (P : B → Type 0) (f : A → Option B)
      → ((a : A) (b : B) → f a ≡ some b → P b)
      → (xs : List A) (ys : List B) → map_m f xs ≡ some ys
      → All P ys
  map_m-All P f h [] ys e = let p : [] ≡ ys = cc in subst (All P) p tt
  map_m-All P f h (a ∷ xs) ys e =
      let (b, bs, p, q, r) = some-both (f a) (map_m f xs) ys e in
      subst (All P) (sym r) (h a b p, map_m-All P f h xs bs q)

module _ {k : Kinds} where
  some-left :
      {l l' : Literal k} (b : Bool) → (if b then some l else none) ≡ some l' → (b ≡ true) × (l ≡ l')
  some-left b e = ground arith

  pub validate_outgoing_message-Sendable :
      (l l' : Literal k) → validate_outgoing_message l ≡ some l' → Sendable l'
  unfolding validate_outgoing_message
  validate_outgoing_message-Sendable (msg es) l' e =
      let m = entries_list es in
      let (tests, p) = some-left _ e in
      let (t, a, r, u) = all_tests _ _ _ _ tests in
      record {
        entries = es;
        is_message = sym p;
        tag_once = uniq_entries-Once _ m t u;
        amount_once = uniq_entries-Once _ m a u;
        recipient_once = uniq_entries-Once _ m r u;
        distinct = uniq_entries-Distinct m u;
      }
  validate_outgoing_message-Sendable (string_lit s) l' e = let bad : ⊥ = cc in elim bad [ ]
  validate_outgoing_message-Sendable (uint128_lit n) l' e = let bad : ⊥ = cc in elim bad [ ]
  validate_outgoing_message-Sendable (adt_value n ts ls) l' e = let bad : ⊥ = cc in elim bad [ ]
  validate_outgoing_message-Sendable (other o) l' e = let bad : ⊥ = cc in elim bad [ ]

  pub validate_event-Loggable : (l l' : Literal k) → validate_event l ≡ some l' → Loggable l'
  unfolding validate_event
  validate_event-Loggable (msg es) l' e =
      let m = entries_list es in
      let (tests, p) = some-left (exists (named eventname_label) m && uniq_entries m) e in
      let (n, u) = both_tests _ _ tests in
      record {
        entries = es;
        is_message = sym p;
        name_once = uniq_entries-Once _ m n u;
        distinct = uniq_entries-Distinct m u;
      }
  validate_event-Loggable (string_lit s) l' e = let bad : ⊥ = cc in elim bad [ ]
  validate_event-Loggable (uint128_lit n) l' e = let bad : ⊥ = cc in elim bad [ ]
  validate_event-Loggable (adt_value n ts ls) l' e = let bad : ⊥ = cc in elim bad [ ]
  validate_event-Loggable (other o) l' e = let bad : ⊥ = cc in elim bad [ ]
