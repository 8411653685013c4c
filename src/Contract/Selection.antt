-- ===== src/Contract/Selection.antt =====
-- src/lang/eval/Eval.ml: which transition a message runs, and which procedures it and they can call.
use Prim.Native.String.{String}
use text.Mathlib.Text.{◌==◌ as same}
use text.Mathlib.TextEquality.{eq_iff}
use mathlib.Core.List.{append_assoc, append-nil}
use mathlib.Core.Path.{ap₂}
use scilla.Base.{
  ◌≡◌, ◌≢◌, refl, sym, ap, ◌∙◌, List, [], ◌∷◌, ◌++◌, some, ◌⊎◌, inl, inr, All, arith, Bool-cases,
}
use scilla.Contract.Syntax.{Kinds, ComponentType, Component, comp_trans, comp_proc}
use scilla.Contract.Exec.{ok, Machine, after, ◌>>=◌, from_r}
use scilla.Contract.Configuration.{lookup_procedure}
use scilla.Contract.Entries.{other_name}
use scilla.Contract.Messages.{procedure_and_transition_finder, get_transition_and_procedures}

ComponentType-cases : (x : ComponentType) → (x ≡ comp_trans) ⊎ (x ≡ comp_proc)
ComponentType-cases comp_trans = inl refl
ComponentType-cases comp_proc = inr refl

module _ {k : Kinds} where
  -- The procedures among some components, the last one first.
  abbrev pub procedures_backwards : List (Component k) → List (Component k)
  procedures_backwards [] = []
  procedures_backwards (c ∷ cs) = elim c.comp_type [
    | comp_proc ↦ procedures_backwards cs ++ (c ∷ [])
    | comp_trans ↦ procedures_backwards cs
  ]

  -- A component is no transition of a name.
  abbrev pub Passed : String → Component k → Type 0
  Passed tag c = c.comp_type ≡ comp_trans → c.comp_name ≢ tag

  -- A component is the transition of a name.
  pub record TransitionOf (tag : String) (t : Component k) : Type 0 where
    pub is_transition : t.comp_type ≡ comp_trans
    pub is_named : t.comp_name ≡ tag

  finder-hit :
      (tag : String) (acc rest : List (Component k)) (c : Component k)
      → TransitionOf tag c
      → procedure_and_transition_finder tag acc (c ∷ rest) ≡ (acc, some c)
  unfolding procedure_and_transition_finder
  finder-hit tag acc rest c f = simp (f.is_transition, (eq_iff tag c.comp_name).1 (sym f.is_named))

  finder-proc :
      (tag : String) (acc rest : List (Component k)) (c : Component k)
      → c.comp_type ≡ comp_proc
      → procedure_and_transition_finder tag acc (c ∷ rest)
        ≡ procedure_and_transition_finder tag (c ∷ acc) rest
  unfolding procedure_and_transition_finder
  finder-proc tag acc rest c e = simp (e)

  finder-pass :
      (tag : String) (acc rest : List (Component k)) (c : Component k)
      → c.comp_type ≡ comp_trans
      → c.comp_name ≢ tag
      → procedure_and_transition_finder tag acc (c ∷ rest)
        ≡ procedure_and_transition_finder tag acc rest
  unfolding procedure_and_transition_finder
  finder-pass tag acc rest c e n = simp (e, other_name c.comp_name tag n)

  passes_trans :
      (c : Component k) (cs : List (Component k))
      → c.comp_type ≡ comp_trans
      → procedures_backwards (c ∷ cs) ≡ procedures_backwards cs
  passes_trans c cs e = simp (e)

  passes_proc :
      (c : Component k) (cs : List (Component k))
      → c.comp_type ≡ comp_proc
      → procedures_backwards (c ∷ cs) ≡ procedures_backwards cs ++ (c ∷ [])
  passes_proc c cs e = simp (e)

  finder-found :
      (tag : String) (acc before after : List (Component k)) (t : Component k)
      → All (Passed tag) before
      → TransitionOf tag t
      → procedure_and_transition_finder tag acc (before ++ (t ∷ after))
        ≡ (procedures_backwards before ++ acc, some t)
  finder-found tag acc [] after t p f = finder-hit tag acc after t f
  finder-found tag acc (c ∷ before) after t (n, p) f = elim (ComponentType-cases c.comp_type) [
    | inl e ↦
        finder-pass tag acc (before ++ (t ∷ after)) c e (n e)
        ∙ finder-found tag acc before after t p f
        ∙ ap (λ (ps : List (Component k)). (ps ++ acc, some t)) (sym (passes_trans c before e))
    | inr e ↦
        finder-proc tag acc (before ++ (t ∷ after)) c e
        ∙ finder-found tag (c ∷ acc) before after t p f
        ∙ ap (λ (ps : List (Component k)). (ps, some t))
            (sym (
              ap (λ (ps : List (Component k)). ps ++ acc) (passes_proc c before e)
              ∙ append_assoc (procedures_backwards before) (c ∷ []) acc))
  ]

  -- Where a component is the transition of a tag and none before it is, the contract runs that transition for
  -- the tag, with the procedures before it in scope, the last one first, and changes neither the gas nor
  -- the state of StateService.
  pub get_transition_and_procedures-found :
      (tag : String) (before after : List (Component k)) (t : Component k) (m : Machine k)
      → All (Passed tag) before
      → TransitionOf tag t
      → get_transition_and_procedures (before ++ (t ∷ after)) tag m
        ≡ (ok (procedures_backwards before, t), m)
  unfolding get_transition_and_procedures ◌>>=◌ from_r
  get_transition_and_procedures-found tag before after t m p f =
      rw (finder-found tag [] before after t p f) (
        ap (λ (ps : List (Component k)). (ok (ps, t), m))
          (append-nil (procedures_backwards before)))

  -- A procedure found by its name is the first of that name, and those that it can call are the ones after
  -- it in the list.
  pub lookup_procedure-first :
      (ps : List (Component k)) (n : String) (p : Component k) (rest : List (Component k))
      → lookup_procedure ps n ≡ some (p, rest)
      → (front : List (Component k)) × (ps ≡ front ++ (p ∷ rest))
        × (p.comp_name ≡ n)
        × All (λ q. q.comp_name ≢ n) front
  unfolding lookup_procedure
  lookup_procedure-first [] n p rest e = let bad : ⊥ = cc in elim bad [ ]
  lookup_procedure-first (q ∷ ps) n p rest e = elim (Bool-cases (same q.comp_name n)) [
    | inl s ↦
        let e' : (q, ps) ≡ (p, rest) = ground arith in
        (
          [],
          ap₂ (λ (c : Component k) (l : List (Component k)). c ∷ l)
              (ap (λ (z : Component k × List (Component k)). z.0) e')
              (ap (λ (z : Component k × List (Component k)). z.1) e'),
          sym (ap (λ (z : Component k × List (Component k)). z.0.comp_name) e')
              ∙ (eq_iff q.comp_name n).0 s,
          tt,
        )
    | inr s ↦
        let (front, a, b, c) = lookup_procedure-first ps n p rest (ground arith) in
        (
          q ∷ front,
          ap (λ (l : List (Component k)). q ∷ l) a,
          b,
          (λ d. cc ((eq_iff q.comp_name n).1 d), c),
        )
  ]
