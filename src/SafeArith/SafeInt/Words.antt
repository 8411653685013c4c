-- ===== src/SafeArith/SafeInt/Words.antt =====
-- The product of words of two's complement is that of the integers.
use native.Mathlib.Decide.{dec_lt}
use native.Mathlib.Nat.{
  one-le-pow, mod-lt, mul_comm, add-mod-mod, mod-add-mod, mul-add, mul-mod_right, suc-mod, zero-mod,
}
use scilla.Base.{
  ℕ, zero, suc, ◌+◌, ◌-◌, ◌*◌, ◌%◌, ◌^◌, ◌<◌, ◌≡◌, refl, sym, ap, ◌∙◌, ltb, ◌==◌, if◌then◌else◌,
  arith, lt→ltb, le→ltb,
}
use scilla.SafeArith.Integers.{◌*ℤ◌, to_int, to_word, neg}
use scilla.SafeArith.SafeUint.Exact.{mod_once}

-- The remainder of the opposite number.
abbrev pub opposite : ℕ → ℕ → ℕ
opposite m p = if p % m == 0 then 0 else m - p % m

opposite_unique : (m p c : ℕ) → c < m → (c + p) % m ≡ 0 → c ≡ opposite m p
opposite_unique m p c small e =
    let p_lt = mod-lt p {m = m} (omega arith) in
    let total : (c + p % m) % m ≡ 0 = add-mod-mod c p m ∙ e in
    let once = sym (mod_once m (c + p % m) (omega arith)) ∙ total in ground arith

-- The word of a negated number.
pub neg-word : (k p : ℕ) → to_word k (neg p) ≡ opposite (2 ^ suc k) p
neg-word k zero = ground (arith, zero-mod (2 ^ suc k))
neg-word k (suc p) =
    let m = 2 ^ suc k in
    let positive = one-le-pow (suc k) 2 in
    let p_lt : p % m < m = mod-lt p {m = m} (omega arith) in
    let once : suc p % m ≡ (if ltb (suc (p % m)) m then suc (p % m) else suc (p % m) - m) =
      suc-mod p m ∙ mod_once m (suc (p % m)) (omega arith) in
    ground arith

-- A factor can be replaced by its opposite.
product_opposite : (m x y y' : ℕ) → 0 < m → y + y' ≡ m → x * y % m ≡ opposite m (x * y')
product_opposite m x y y' positive e =
    let whole : x * y + x * y' ≡ m * x = omega (arith, mul-add x y y', ap (λ t. x * t) e) in
    opposite_unique m (x * y') (x * y % m) (mod-lt (x * y) positive)
      (mod-add-mod (x * y) m (x * y') ∙ ap (λ t. t % m) whole ∙ mul-mod_right m x)

-- The product of two words is, modulo 2 ^ (k + 1), that of the integers.
pub product-word :
    (k x y : ℕ)
    → x < 2 ^ suc k
    → y < 2 ^ suc k
    → x * y % 2 ^ suc k ≡ to_word k (to_int k x *ℤ to_int k y)
product-word k x y hx hy =
    let m = 2 ^ suc k in
    let positive : 0 < m = omega arith in
    let x' = suc (m - 1 - x) in
    let y' = suc (m - 1 - y) in
    let second = product_opposite m x y y' positive (omega arith) in
    let first =
      ap (λ t. t % m) (mul_comm x y)
      ∙ product_opposite m y x x' positive (omega arith)
      ∙ ap (opposite m) (mul_comm y x') in
    let both : x * y' % m ≡ opposite m (x' * y') =
      ap (λ t. t % m) (mul_comm x y')
      ∙ product_opposite m y' x x' positive (omega arith)
      ∙ ap (opposite m) (mul_comm y' x') in
    let small = mod-lt (x' * y') positive in
    elim (dec_lt x (2 ^ k)) [
      | yes px ↦ elim (dec_lt y (2 ^ k)) [
        | yes py ↦ rw (lt→ltb x (2 ^ k) px, lt→ltb y (2 ^ k) py) refl
        | no ny ↦
            rw (lt→ltb x (2 ^ k) px, le→ltb y (2 ^ k) (omega arith))
              (second ∙ sym (neg-word k (x * y')))
      ]
      | no nx ↦ elim (dec_lt y (2 ^ k)) [
        | yes py ↦
            rw (lt→ltb y (2 ^ k) py, le→ltb x (2 ^ k) (omega arith))
              (first ∙ sym (neg-word k (x' * y)))
        | no ny ↦ rw (le→ltb y (2 ^ k) (omega arith), le→ltb x (2 ^ k) (omega arith)) (ground arith)
      ]
    ]
