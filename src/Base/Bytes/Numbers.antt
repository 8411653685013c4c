-- ===== src/Base/Bytes/Numbers.antt =====
-- Big-endian numbers: the bytes of a number are its digits in base 256.
use Prim.Native.Nat.{ℕ, zero, suc, ◌+◌, ◌*◌, ◌/◌, ◌%◌, ◌^◌, ◌≤◌, ◌<◌}
use mathlib.Core.Path.{◌≡◌, refl, sym, ap, ap₂, ◌∙◌}
use mathlib.Core.List.{[], ◌∷◌, ◌++◌}
use native.Mathlib.Omega.{arith}
use native.Mathlib.Nat.{
  pow-suc, mul-le-mul, le_refl, add-mul-div_left, add-mul-mod_self_left, mod-eq_of_lt, mod-lt,
  div-add-mod, div-eq_of_lt,
}
use native.Mathlib.Numerals.{towards_suc}
use scilla.Base.Lists.{length, replicate, All}
use scilla.Base.Bytes.{Bytes, IsByte, be, be_digits}

pub length-be_digits : (n v : ℕ) → length (be_digits n v) ≡ n
unfolding be_digits
length-be_digits zero v = refl
length-be_digits (suc n) v = ap suc (length-be_digits n v)

pub be_digits-IsByte : (n v : ℕ) → All IsByte (be_digits n v)
unfolding be_digits
be_digits-IsByte zero v = tt
be_digits-IsByte (suc n) v = (omega arith, be_digits-IsByte n v)

pub pow_256 : (n : ℕ) → 0 < 256 ^ n
pow_256 zero = omega arith
pow_256 (suc n) = omega (arith, pow-suc 256 n, pow_256 n)

pub pow_bits : (n : ℕ) → 2 ^ (8 * n) ≡ 256 ^ n
pow_bits zero = refl
pow_bits (suc n) =
    let swap : 8 * suc n ≡ 8 * n + 8 = omega arith in
    rw (swap, pow-suc 256 n, ← pow_bits n) (simp towards_suc (simp pow-suc (omega arith)))

pub be-lt : (bs : Bytes) → All IsByte bs → be bs < 256 ^ length bs
unfolding be
be-lt [] h = omega arith
be-lt (b ∷ bs) (hb, hs) =
    let top : b * 256 ^ length bs ≤ 255 * 256 ^ length bs =
      mul-le-mul {n₁ = b} {n₂ = 255} (omega arith) (le_refl _) in
    omega (arith, pow-suc 256 (length bs), be-lt bs hs, top)

-- Only the lowest `n` bytes of the number count.
be_digits-add : (n x k : ℕ) → be_digits n (x + 256 ^ n * k) ≡ be_digits n x
unfolding be_digits
be_digits-add zero x k = refl
be_digits-add (suc n) x k =
    let p = 256 ^ n in
    let low : x + 256 ^ suc n * k ≡ x + p * (256 * k) = rw (pow-suc 256 n) (omega arith) in
    let head : (x + 256 ^ suc n * k) / p % 256 ≡ x / p % 256 =
      rw (low, add-mul-div_left x (256 * k) (pow_256 n)) (omega arith) in
    ap₂ ◌∷◌ head (rw low (be_digits-add n x (256 * k)))

mod_unique : (r m k : ℕ) → r < m → (r + m * k) % m ≡ r
mod_unique r m k h = add-mul-mod_self_left r m k ∙ mod-eq_of_lt h

pub be-be_digits : (n v : ℕ) → be (be_digits n v) ≡ v % 256 ^ n
unfolding be be_digits
be-be_digits zero v = omega arith
be-be_digits (suc n) v =
    let p = 256 ^ n in
    let q = v / p in
    let low : v % p < p = mod-lt v (pow_256 n) in
    let head : q % 256 * p ≤ 255 * p =
      mul-le-mul {n₁ = q % 256} {n₂ = 255} (omega arith) (le_refl _) in
    let value : v ≡ q % 256 * p + v % p + p * 256 * (q / 256) =
      omega (arith, div-add-mod v p, ap (λ (t : ℕ). t * p) (div-add-mod q 256)) in
    rw (length-be_digits n v, be-be_digits n v, pow-suc 256 n)
      (sym (
        ap (λ t. t % (p * 256)) value
        ∙ mod_unique (q % 256 * p + v % p) (p * 256) (q / 256) (omega arith)))

pub be_digits-be : (bs : Bytes) → All IsByte bs → be_digits (length bs) (be bs) ≡ bs
unfolding be be_digits
be_digits-be [] h = refl
be_digits-be (b ∷ bs) (hb, hs) =
    let p = 256 ^ length bs in
    let swap : b * p + be bs ≡ be bs + p * b = omega arith in
    let head : (b * p + be bs) / p % 256 ≡ b =
      rw (swap, add-mul-div_left (be bs) b (pow_256 (length bs)), div-eq_of_lt (be-lt bs hs))
        (omega arith) in
    ap₂ ◌∷◌ head (rw (swap, be_digits-add (length bs) (be bs) b) (be_digits-be bs hs))

pub be-zeros : (k : ℕ) (bs : Bytes) → be (replicate k 0 ++ bs) ≡ be bs
unfolding be
be-zeros zero bs = refl
be-zeros (suc k) bs = omega (arith, be-zeros k bs)
