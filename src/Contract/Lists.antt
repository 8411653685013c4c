-- ===== src/Contract/Lists.antt =====
-- What the evaluator of src/lang/eval uses of OCaml's lists.
use Prim.Native.String.{String}
use text.Mathlib.Text.{◌==◌ as same}
use scilla.Base.{ℕ, suc, Bool, true, false, ◌&&◌, List, [], ◌∷◌, Option, none, some, if◌then◌else◌}

module _ {ℓ} {A : Type ℓ} where
  abbrev pub filter : (A → Bool) → List A → List A
  filter p [] = []
  filter p (a ∷ xs) = let rest = filter p xs in if p a then a ∷ rest else rest

  abbrev pub find : (A → Bool) → List A → Option A
  find p [] = none
  find p (a ∷ xs) = if p a then some a else find p xs

  abbrev pub exists : (A → Bool) → List A → Bool
  exists p [] = false
  exists p (a ∷ xs) = if p a then true else exists p xs

  abbrev pub for_all : (A → Bool) → List A → Bool
  for_all p [] = true
  for_all p (a ∷ xs) = p a && for_all p xs

  abbrev pub count : (A → Bool) → List A → ℕ
  count p [] = 0
  count p (a ∷ xs) = let rest = count p xs in if p a then suc rest else rest

-- `List.zip`, of two lists of one length.
abbrev pub zip {ℓ κ} : {A : Type ℓ} {B : Type κ} → List A → List B → Option (List (A × B))
zip [] [] = some []
zip (a ∷ xs) (b ∷ bs) = elim (zip xs bs) [ none ↦ none | some ps ↦ some ((a, b) ∷ ps) ]
zip _ _ = none

-- Whether an entry has a name.
abbrev pub named {ℓ} : {A : Type ℓ} → String → String × A → Bool
named n e = same e.0 n
