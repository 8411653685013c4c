-- ===== src/SafeArith/SafeInt/Sums.antt =====
-- The checked sum and difference of signed integers answer the exact result, or raise the exception of
-- the side on which it does not fit.
use native.Mathlib.Nat.{pow-suc, one-le-pow}
use scilla.Base.{ℕ, suc, ◌+◌, ◌-◌, ◌^◌, ◌≡◌, ◌∙◌, ltb, if◌then◌else◌, arith}
use scilla.SafeArith.{map, IntRep}
use scilla.SafeArith.Integers.{ℤ, ◌+ℤ◌, ◌-ℤ◌, to_int, fit_int}
use scilla.SafeArith.Signed.{IsSigned}
use scilla.SafeArith.SafeUint.Exact.{mod_once}
use scilla.SafeArith.SafeInt.{add, sub}

-- A number against 0, in two's complement with 2 ^ k = h.
module _ {r : IntRep} {k : ℕ} (h : IsSigned r k) where
  open r use {T}
  open h use {value, value-lt, value-zero, value-add, value-sub, compare-value}

  abbrev pub int : T → ℤ
  int a = to_int k (value a)

  -- `add` answers the sum of the two integers if it lies from - 2 ^ k to 2 ^ k - 1, and else raises
  -- IntOverflow above and IntUnderflow below. The functor's argument is two's complement of k + 1 bits.
  pub add_exact_int : (a b : T) → map int (add r a b) ≡ fit_int k (int a +ℤ int b)
  unfolding add
  add_exact_int a b =
      let c = r.add a b in
      let la = value-lt a in
      let lb = value-lt b in
      let m = 2 ^ suc k in
      let double : m ≡ 2 ^ k + 2 ^ k = omega (arith, pow-suc 2 k) in
      let positive = one-le-pow k 2 in
      let e : value c
          ≡ (if ltb (value a + value b) m then value a + value b else value a + value b - m) =
        value-add a b ∙ mod_once m (value a + value b) (omega arith) in
      rw (compare-value a r.zero, compare-value b r.zero, compare-value c r.zero, value-zero)
        (ground arith)

  -- `sub` answers the difference of the integers.
  pub sub_exact_int : (a b : T) → map int (sub r a b) ≡ fit_int k (int a -ℤ int b)
  unfolding sub
  sub_exact_int a b =
      let c = r.sub a b in
      let la = value-lt a in
      let lb = value-lt b in
      let m = 2 ^ suc k in
      let double : m ≡ 2 ^ k + 2 ^ k = omega (arith, pow-suc 2 k) in
      let positive = one-le-pow k 2 in
      let total = value a + m - value b in
      let e : value c ≡ (if ltb total m then total else total - m) =
        value-sub a b ∙ mod_once m total (omega arith) in
      rw (compare-value a r.zero, compare-value b r.zero, compare-value c r.zero, value-zero)
        (ground arith)
