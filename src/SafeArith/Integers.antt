-- ===== src/SafeArith/Integers.antt =====
-- Integers over the native numbers, and the integer that a word of two's complement stands for.
use Prim.Native.Nat
use Prim.Native.Nat.{Ordering}
use scilla.Base.{
  ℕ, zero, suc, ◌+◌, ◌-◌, ◌*◌, ◌/◌, ◌%◌, ◌^◌, Bool, true, false, ltb, leb, if◌then◌else◌,
}
use scilla.SafeArith.{Checked, returned, raised, int_overflow, int_underflow}

-- `negsuc n` is - (n + 1).
pub data ℤ : Type 0 where
  pos : ℕ → ℤ
  negsuc : ℕ → ℤ

abbrev pub is_neg : ℤ → Bool
is_neg (pos n) = false
is_neg (negsuc n) = true

abbrev pub magnitude : ℤ → ℕ
magnitude (pos n) = n
magnitude (negsuc n) = suc n

abbrev pub neg : ℕ → ℤ
neg zero = pos zero
neg (suc n) = negsuc n

abbrev pub signed : Bool → ℕ → ℤ
signed false n = pos n
signed true n = neg n

abbrev pub differ : Bool → Bool → Bool
differ false t = t
differ true true = false
differ true false = true

-- The difference of two numbers.
abbrev pub minus : ℕ → ℕ → ℤ
minus m n = if leb n m then pos (m - n) else negsuc (n - m - 1)

infixl 70 ◌+ℤ◌ ◌-ℤ◌
infixl 80 ◌*ℤ◌
abbrev pub ◌+ℤ◌ : ℤ → ℤ → ℤ
pos m +ℤ pos n = pos (m + n)
pos m +ℤ negsuc n = minus m (suc n)
negsuc m +ℤ pos n = minus n (suc m)
negsuc m +ℤ negsuc n = negsuc (suc (m + n))

abbrev pub ◌-ℤ◌ : ℤ → ℤ → ℤ
pos m -ℤ pos n = minus m n
pos m -ℤ negsuc n = pos (m + suc n)
negsuc m -ℤ pos n = negsuc (m + n)
negsuc m -ℤ negsuc n = minus n m

abbrev pub ◌*ℤ◌ : ℤ → ℤ → ℤ
x *ℤ y = signed (differ (is_neg x) (is_neg y)) (magnitude x * magnitude y)

-- Division that rounds to 0, and its remainder.
abbrev pub quot : ℤ → ℤ → ℤ
quot x y = signed (differ (is_neg x) (is_neg y)) (magnitude x / magnitude y)

abbrev pub remainder : ℤ → ℤ → ℤ
remainder x y = signed (is_neg x) (magnitude x % magnitude y)

abbrev pub compare_int : ℤ → ℤ → Ordering
compare_int (pos m) (pos n) = Nat.compare m n
compare_int (pos m) (negsuc n) = Ordering.gt
compare_int (negsuc m) (pos n) = Ordering.lt
compare_int (negsuc m) (negsuc n) = Nat.compare n m

-- The integer that a word of k + 1 bits stands for, and the word of an integer.
abbrev pub to_int : ℕ → ℕ → ℤ
to_int k n = if ltb n (2 ^ k) then pos n else negsuc (2 ^ suc k - 1 - n)

abbrev pub to_word : ℕ → ℤ → ℕ
to_word k (pos n) = n % 2 ^ suc k
to_word k (negsuc n) = 2 ^ suc k - 1 - n % 2 ^ suc k

-- An integer from - 2 ^ k to 2 ^ k - 1; or an overflow, or an underflow.
abbrev pub fit_int : ℕ → ℤ → Checked ℤ
fit_int k (pos n) = if ltb n (2 ^ k) then returned (pos n) else raised int_overflow
fit_int k (negsuc n) = if ltb n (2 ^ k) then returned (negsuc n) else raised int_underflow
