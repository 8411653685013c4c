-- ===== src/Contract/Entries.antt =====
-- What src/lang/eval/EvalUtil.ml asks of outgoing messages and of events, said of the names of their entries.
use Prim.Native.String.{String}
use text.Mathlib.Text.{◌==◌ as same}
use text.Mathlib.TextEquality.{eq_iff}
use scilla.Base.{
  ◌≤◌, ◌≡◌, ◌≢◌, refl, sym, ◌∙◌, Bool, true, false, List, [], ◌∷◌, inl, inr, arith, ◌==◌, ==_iff,
  Bool-cases,
}
use mathlib.Core.Path.{subst}
use scilla.Contract.Syntax.{Kinds, Literal, Entries, msg, entries_list}
use scilla.Contract.Lists.{exists, for_all, count, named}
use scilla.Contract.Configuration.{
  tag_label, amount_label, recipient_label, eventname_label, uniq_entries,
}

-- No name occurs twice.
abbrev pub Distinct {ℓ} : {A : Type ℓ} → List (String × A) → Type 0
Distinct m = (n : String) → count (named n) m ≤ 1

-- A name occurs exactly once.
abbrev pub Once {ℓ} : {A : Type ℓ} → String → List (String × A) → Type 0
Once n m = count (named n) m ≡ 1

module _ {k : Kinds} where
  pub record Sendable (l : Literal k) : Type 0 where
    pub entries : Entries k
    pub is_message : l ≡ msg entries
    pub tag_once : Once tag_label (entries_list entries)
    pub amount_once : Once amount_label (entries_list entries)
    pub recipient_once : Once recipient_label (entries_list entries)
    pub distinct : Distinct (entries_list entries)

  pub record Loggable (l : Literal k) : Type 0 where
    pub entries : Entries k
    pub is_message : l ≡ msg entries
    pub name_once : Once eventname_label (entries_list entries)
    pub distinct : Distinct (entries_list entries)

pub other_name : (s t : String) → s ≢ t → same t s ≡ false
other_name s t n = elim (Bool-cases (same t s)) [
  | inl e ↦ let bad : ⊥ = n (sym ((eq_iff t s).0 e)) in elim bad [ ]
  | inr e ↦ e
]

same_sym : (s t : String) → same s t ≡ same t s
same_sym s t = ground (arith, eq_iff s t, eq_iff t s)

module _ {ℓ} {A : Type ℓ} where
  count-named :
      (n : String) (m : List (String × A))
      → count (λ (e : String × A). same n e.0) m ≡ count (named n) m
  count-named n [] = refl
  count-named n (e ∷ m) = rw (same_sym n e.0, count-named n m) refl

  -- The test on every element holds of one with the name.
  found-for_all :
      (Q : String × A → Bool) (n : String) (m : List (String × A))
      → exists (named n) m ≡ true
      → for_all Q m ≡ true
      → (e : String × A) × (e.0 ≡ n) × (Q e ≡ true)
  found-for_all Q n [] h q = let no_entry : ⊥ = cc in elim no_entry [ ]
  found-for_all Q n (e ∷ m) h q = elim (Bool-cases (same e.0 n)) [
    | inl s ↦ (e, (eq_iff e.0 n).0 s, ground arith)
    | inr s ↦ found-for_all Q n m (ground arith) (ground arith)
  ]

  count-absent :
      (n : String) (m : List (String × A)) → exists (named n) m ≡ false → count (named n) m ≡ 0
  count-absent n [] h = refl
  count-absent n (e ∷ m) h = ground (arith, count-absent n m)

  pub uniq_entries-Once :
      (n : String) (m : List (String × A))
      → exists (named n) m ≡ true
      → uniq_entries m ≡ true
      → Once n m
  uniq_entries-Once n m h u =
      let (e, p, q) =
        found-for_all (λ (e : String × A). count (λ (e' : String × A). same e.0 e'.0) m == 1) n m h
          u in
      subst (λ s. Once s m) p (sym (count-named e.0 m) ∙ (==_iff _ 1).0 q)

  pub uniq_entries-Distinct : (m : List (String × A)) → uniq_entries m ≡ true → Distinct m
  uniq_entries-Distinct m u n = elim (Bool-cases (exists (named n) m)) [
    | inl h ↦ omega (arith, uniq_entries-Once n m h u)
    | inr h ↦ omega (arith, count-absent n m h)
  ]
