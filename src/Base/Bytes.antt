-- ===== src/Base/Bytes.antt =====
-- Byte vectors: the part of std::vector<uint8_t> that the sources use, big-endian numbers, and
-- writing a block of bytes into a vector.
use Prim.Native.Nat.{ℕ, zero, suc, ◌+◌, ◌-◌, ◌*◌, ◌/◌, ◌%◌, ◌^◌, ◌<◌}
use mathlib.Core.List.{List, [], ◌∷◌, ◌++◌}
use mathlib.Core.Option.{none, some}
use scilla.Base.Tests.{ltb, leb, if◌then◌else◌}
use scilla.Base.Outcomes.{Outcome, done, thrown, undefined}
use scilla.Base.Lists.{length, get_elem?, take, drop, replicate}
pub mod Laws
pub mod Numbers

abbrev pub Bytes : Type 0
Bytes = List ℕ

abbrev pub IsByte : ℕ → Type 0
IsByte b = b < 256

-- The range of `unsigned int`, of `uint16_t` and of `size_t`.
abbrev pub u32 : ℕ
u32 = 2 ^ 32

-- The first `unsigned int` that is negative as an `int`.
abbrev pub int_sign : ℕ
int_sign = 2 ^ 31

abbrev pub u16 : ℕ
u16 = 2 ^ 16

abbrev pub u64 : ℕ
u64 = 2 ^ 64

-- `v.at(i)`, which checks the index.
unfoldable pub at : Bytes → ℕ → Outcome ℕ
at v i = elim (get_elem? v i) [ none ↦ thrown | some b ↦ done b ]

-- `v.resize(n)`: cut, or padded by zeros.
unfoldable pub resize : ℕ → Bytes → Bytes
resize n v = take n v ++ replicate (n - length v) 0

-- The vector after it has been made long enough for `n` bytes.
abbrev pub grow : ℕ → Bytes → Bytes
grow n v = if ltb (length v) n then resize n v else v

-- The `n` bytes that stand from `o` on.
abbrev pub slice : ℕ → ℕ → Bytes → Bytes
slice o n v = take n (drop o v)

-- `v` with `bs` written over it from `o` on.
abbrev pub splice : ℕ → Bytes → Bytes → Bytes
splice o bs v = take o v ++ (bs ++ drop (o + length bs) v)

-- A write, and a read, through a raw pointer or an iterator, which nothing checks.
unfoldable pub write : ℕ → Bytes → Bytes → Outcome Bytes
write o bs v = if leb (o + length bs) (length v) then done (splice o bs v) else undefined

unfoldable pub read : ℕ → ℕ → Bytes → Outcome Bytes
read o n v = if leb (o + n) (length v) then done (slice o n v) else undefined

-- The number that the bytes are, highest first.
unfoldable pub be : Bytes → ℕ
be [] = 0
be (b ∷ bs) = b * 256 ^ length bs + be bs

-- The lowest `n` bytes of `v`, highest first.
unfoldable pub be_digits : ℕ → ℕ → Bytes
be_digits zero v = []
be_digits (suc n) v = (v / 256 ^ n % 256) ∷ be_digits n v
