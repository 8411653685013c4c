-- ===== src/Base/Outcomes.antt =====
-- How a piece of C++ can end, and the two monads of the model: `Outcome` for code that touches no
-- outside state, `Run W` for code that calls a library with a state of its own.
use mathlib.Core.Path.{◌≡◌, refl, ap}
use mathlib.Core.Logic.{◌≢◌}
use mathlib.Core.Bool.{Bool, true, false, not}
use scilla.Base.Tests.{if◌then◌else◌}

-- `thrown` is a C++ exception that leaves the function, `aborted` a call of abort(), `undefined`
-- undefined behaviour (a null pointer handed on, an access outside a buffer), and `stuck` a loop
-- that has used up the model's fuel.
pub data Outcome {ℓ} (A : Type ℓ) : Type ℓ where
  done : A → Outcome A
  thrown : Outcome A
  aborted : Outcome A
  undefined : Outcome A
  stuck : Outcome A

pub done-injective {ℓ} : {A : Type ℓ} {a b : A} → done a ≡ done b → a ≡ b
done-injective e = cc

abbrev pub bind {ℓ κ} : {A : Type ℓ} {B : Type κ} → Outcome A → (A → Outcome B) → Outcome B
bind (done a) f = f a
bind thrown f = thrown
bind aborted f = aborted
bind undefined f = undefined
bind stuck f = stuck

-- Inversion of a step that came to an end.
pub bind-eq-done {ℓ κ} :
    {A : Type ℓ} {B : Type κ} (x : Outcome A) (f : A → Outcome B) {b : B}
    → bind x f ≡ done b
    → (a : A) × (x ≡ done a) × (f a ≡ done b)
bind-eq-done (done a) f e = (a, refl, e)
bind-eq-done thrown f e = cc
bind-eq-done aborted f e = cc
bind-eq-done undefined f e = cc
bind-eq-done stuck f e = cc

abbrev pub Run : Type 0 → Type 0 → Type 0
Run W A = W → Outcome (A × W)

abbrev pub pure : {W A : Type 0} → A → Run W A
pure a w = done (a, w)

abbrev pub lift : {W A : Type 0} → Outcome A → Run W A
lift m w = bind m λ a. done (a, w)

-- A library call that always returns.
abbrev pub call : {W A : Type 0} → (W → A × W) → Run W A
call f w = done (f w)

infixl 5 ◌>>=◌
abbrev pub ◌>>=◌ : {W A B : Type 0} → Run W A → (A → Run W B) → Run W B
◌>>=◌ m f w = bind (m w) λ p. f p.0 p.1

-- A test whose failure answers `y`, in a run that answered something else.
pub passed :
    {W A : Type 0} (b : Bool) (x : Run W A) (y a : A) (w w' : W)
    → y ≢ a
    → (if not b then pure y else x) w ≡ done (a, w')
    → (b ≡ true) × (x w ≡ done (a, w'))
passed true x y a w w' ne e = (refl, e)
passed false x y a w w' ne e = absurd (ne (ap (λ p. p.0) (done-injective e)))

pub passed_over :
    {W A : Type 0} (b : Bool) (x : Run W A) (y a : A) (w w' : W)
    → y ≢ a
    → (if b then pure y else x) w ≡ done (a, w')
    → (b ≡ false) × (x w ≡ done (a, w'))
passed_over true x y a w w' ne e = absurd (ne (ap (λ p. p.0) (done-injective e)))
passed_over false x y a w w' ne e = (refl, e)

pub lift-eq-done :
    {W A B : Type 0} (x : Outcome A) (f : A → Run W B) (w : W) (b : B × W)
    → (lift x >>= f) w ≡ done b
    → (a : A) × (x ≡ done a) × (f a w ≡ done b)
lift-eq-done (done a) f w b e = (a, refl, e)
lift-eq-done thrown f w b e = cc
lift-eq-done aborted f w b e = cc
lift-eq-done undefined f w b e = cc
lift-eq-done stuck f w b e = cc
