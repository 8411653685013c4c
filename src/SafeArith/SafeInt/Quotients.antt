-- ===== src/SafeArith/SafeInt/Quotients.antt =====
-- The test of a product of signed integers: dividing it gives the factor back just if it fits.
use mathlib.Core.Path.{ap₂, subst}
use native.Mathlib.Decide.{dec_lt}
use native.Mathlib.Nat.{
  pow-suc, mul-pos, zero-div, one-le-pow, mod-eq_of_lt, mul-div_cancel, le-div_iff_mul-le,
  div-le_self,
}
use scilla.Base.{
  ℕ, zero, suc, ◌+◌, ◌-◌, ◌*◌, ◌/◌, ◌^◌, ◌≤◌, ◌<◌, ◌≡◌, ◌≢◌, inl, inr, refl, sym, ap, ◌∙◌, Bool,
  true, false, not, ◌==◌, if◌then◌else◌, arith, lt→ltb, le→ltb, Bool-cases,
}
use scilla.SafeArith.SafeUint.Exact.{factor_pos}
use scilla.SafeArith.Integers.{pos, to_int, to_word, is_neg, magnitude, signed, differ, quot}

-- A sign and a magnitude that k + 1 bits can hold.
abbrev pub Fits : ℕ → Bool → ℕ → Type 0
Fits k false n = n < 2 ^ k
Fits k true n = n ≤ 2 ^ k

word_signed :
    (k : ℕ) (s : Bool) (n : ℕ)
    → n ≤ 2 ^ k
    → to_word k (signed s n) ≡ (if s then if n == 0 then 0 else 2 ^ suc k - n else n)
word_signed k false n small = mod-eq_of_lt (omega (arith, pow-suc 2 k, one-le-pow k 2))
word_signed k true zero small = mod-eq_of_lt (omega (arith, pow-suc 2 k, one-le-pow k 2))
word_signed k true (suc n) small =
    let same = mod-eq_of_lt {n = n} {m = 2 ^ suc k} (omega (arith, pow-suc 2 k, one-le-pow k 2)) in
    ground arith

-- Words go there and back.
pub int_word :
    (k : ℕ) (s : Bool) (n : ℕ) → Fits k s n → to_int k (to_word k (signed s n)) ≡ signed s n
int_word k false n h =
    let double = pow-suc 2 k in rw (word_signed k false n (omega arith)) (ground arith)
int_word k true zero h =
    let double = pow-suc 2 k in
    let positive = one-le-pow k 2 in rw (word_signed k true 0 (omega arith)) (ground arith)
int_word k true (suc n) h =
    let double = pow-suc 2 k in rw (word_signed k true (suc n) h) (ground arith)

signed_zero : (s : Bool) → signed s 0 ≡ pos 0
signed_zero false = refl
signed_zero true = refl

magnitude-signed : (s : Bool) (n : ℕ) → magnitude (signed s n) ≡ n
magnitude-signed false n = refl
magnitude-signed true zero = refl
magnitude-signed true (suc n) = refl

pub is_neg-signed : (s : Bool) (n : ℕ) → 0 < n → is_neg (signed s n) ≡ s
is_neg-signed false n h = refl
is_neg-signed true zero h = absurd (omega arith)
is_neg-signed true (suc n) h = refl

quot-signed :
    (s t : Bool) (a b : ℕ)
    → 0 < a
    → 0 < b
    → quot (signed s a) (signed t b) ≡ signed (differ s t) (a / b)
quot-signed s t a b pos_a pos_b =
    rw
      (magnitude-signed s a, magnitude-signed t b, is_neg-signed s a pos_a, is_neg-signed t b pos_b)
      refl

differ-differ : (s t : Bool) → differ (differ s t) t ≡ s
differ-differ false false = refl
differ-differ false true = refl
differ-differ true false = refl
differ-differ true true = refl

-- A product that fits gives its first factor back.
pub Fits-back :
    (k : ℕ) (s t : Bool) (a b : ℕ)
    → 0 < b
    → (s ≡ true → 0 < a)
    → Fits k (differ s t) (a * b)
    → quot (to_int k (to_word k (signed (differ s t) (a * b)))) (signed t b) ≡ signed s a
Fits-back k s t zero b pos_b proper h =
    let start : signed (differ s t) (0 * b) ≡ pos 0 =
      ap (signed (differ s t)) (omega arith) ∙ signed_zero (differ s t) in
    ap (λ z. quot (to_int k (to_word k z)) (signed t b)) start
    ∙ ap (λ z. quot z (signed t b)) (int_word k false 0 (one-le-pow k 2 (omega arith)))
    ∙ ap (signed (is_neg (signed t b))) (zero-div (magnitude (signed t b)))
    ∙ signed_zero (is_neg (signed t b))
    ∙ sym (signed_zero s)
Fits-back k s t (suc a) b pos_b proper h =
    let exact : suc a * b / b ≡ suc a = mul-div_cancel (suc a) pos_b in
    let product : 0 < suc a * b = mul-pos (omega arith) pos_b in
    ap (λ z. quot z (signed t b)) (int_word k (differ s t) (suc a * b) h)
    ∙ quot-signed (differ s t) t (suc a * b) b product pos_b
    ∙ ap₂ signed (differ-differ s t) exact

differ-true : (s : Bool) → differ true s ≡ not s
differ-true false = refl
differ-true true = refl

Fits-le : (k : ℕ) (s : Bool) (n : ℕ) → Fits k s n → n ≤ 2 ^ k
Fits-le k false n h = omega arith
Fits-le k true n h = h

lowest_not : (k a : ℕ) → Fits k false a → a ≢ 2 ^ k
lowest_not k a fit = omega arith

-- The magnitude and the sign of a word.
int-signed :
    (k w : ℕ) → w < 2 ^ suc k → (s : Bool) × (n : ℕ) × (to_int k w ≡ signed s n) × Fits k s n
int-signed k w small =
    let double = pow-suc 2 k in
    elim (dec_lt w (2 ^ k)) [
      | yes below ↦ (false, w, rw (lt→ltb w (2 ^ k) below) refl, below)
      | no above ↦
          (true, suc (2 ^ suc k - 1 - w), rw (le→ltb w (2 ^ k) (omega arith)) refl, omega arith)
    ]

-- The word of a sign and a magnitude, on numbers.
abbrev word : ℕ → Bool → ℕ → ℕ
word h false n = n
word h true n = if n == 0 then 0 else h + h - n

word-signed : (k : ℕ) (s : Bool) (n : ℕ) → n ≤ 2 ^ k → to_word k (signed s n) ≡ word (2 ^ k) s n
word-signed k false n small = word_signed k false n small
word-signed k true n small = let double = pow-suc 2 k in word_signed k true n small ∙ ground arith

word_magnitude : (h m n : ℕ) (s t : Bool) → m ≤ h → n ≤ h → word h s m ≡ word h t n → m ≡ n
word_magnitude h m n false false hm hn e = e
word_magnitude h m n false true hm hn e = ground arith
word_magnitude h m n true false hm hn e = ground arith
word_magnitude h m n true true hm hn e = ground arith

word_clash : (h n : ℕ) (s : Bool) → 0 < n → n ≤ h → word h (not s) n ≡ word h s n → n ≡ h
word_clash h n false nonzero hn e = ground arith
word_clash h n true nonzero hn e = ground arith

-- A product that does not fit, but is at most the magnitude of some word.
at_most :
    (k : ℕ) (s t σ : Bool) (p c : ℕ)
    → ¬ Fits k (differ s t) p
    → p ≤ c
    → Fits k σ c
    → (t ≡ s) × (σ ≡ true) × (p ≡ 2 ^ k)
at_most k false false false p c unfit le fit = absurd (unfit (omega arith))
at_most k false false true p c unfit le fit =
    (refl, refl, elim (dec_lt p (2 ^ k)) [ yes h ↦ absurd (unfit h) | no h ↦ omega arith ])
at_most k true true false p c unfit le fit = absurd (unfit (omega arith))
at_most k true true true p c unfit le fit =
    (refl, refl, elim (dec_lt p (2 ^ k)) [ yes h ↦ absurd (unfit h) | no h ↦ omega arith ])
at_most k false true σ p c unfit le fit = absurd (unfit (omega (arith, Fits-le k σ c fit)))
at_most k true false σ p c unfit le fit = absurd (unfit (omega (arith, Fits-le k σ c fit)))

-- One that does not fit does not give it back, but for the lowest number by a negative one.
pub not_Fits-back :
    (k : ℕ) (s t : Bool) (a b w : ℕ)
    → w < 2 ^ suc k
    → 0 < b
    → Fits k s a
    → (s ≡ true → t ≡ true → a ≢ 2 ^ k)
    → ¬ Fits k (differ s t) (a * b)
    → to_word k (quot (to_int k w) (signed t b)) ≢ to_word k (signed s a)
not_Fits-back k s t a b w small pos_b fit_a special unfit e =
    let (σ, c, ec, fit_c) = int-signed k w small in
    let ρ = differ (is_neg (signed σ c)) (is_neg (signed t b)) in
    let h = 2 ^ k in
    let la = Fits-le k s a fit_a in
    let lc = Fits-le k σ c fit_c in
    let lq : c / b ≤ h = omega (arith, div-le_self c b) in
    let shape : to_word k (signed ρ (c / b)) ≡ to_word k (signed s a) =
      ap (to_word k) (
        ap (signed ρ) (ap₂ (λ m n. m / n) (sym (magnitude-signed σ c)) (sym (magnitude-signed t b)))
        ∙ ap (λ z. quot z (signed t b)) (sym ec))
      ∙ e in
    let words = sym (word-signed k ρ (c / b) lq) ∙ shape ∙ word-signed k s a la in
    let equal : c / b ≡ a = word_magnitude h (c / b) a ρ s lq la words in
    let below : a * b ≤ c = (le-div_iff_mul-le {k = b} {x = a} {y = c} pos_b).0 (omega arith) in
    let (e_t, e_σ, full) = at_most k s t σ (a * b) c unfit below fit_c in
    let positive = one-le-pow k 2 in
    let pos_c : 0 < c = omega arith in
    let pos_a : 0 < a = factor_pos a b (omega arith) in
    let sign_c : is_neg (signed σ c) ≡ true = is_neg-signed σ c pos_c ∙ e_σ in
    let sign_b : is_neg (signed t b) ≡ s = is_neg-signed t b pos_b ∙ e_t in
    let opposite : ρ ≡ not s = ap₂ differ sign_c sign_b ∙ differ-true s in
    let lowest : a ≡ h =
      word_clash h a s pos_a la (ap₂ (word h) (sym opposite) (sym equal) ∙ words) in
    elim (Bool-cases s) [
      | inl yes_s ↦ special yes_s (e_t ∙ yes_s) lowest
      | inr no_s ↦ lowest_not k a (subst (λ s. Fits k s a) no_s fit_a) lowest
    ]
