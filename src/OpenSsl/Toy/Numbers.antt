-- ===== src/OpenSsl/Toy/Numbers.antt =====
-- Facts about the stand-in's numbers and group.
use native.Mathlib.Nat.{pow-suc}
use Prim.Native.Nat.add
use Prim.Native.Nat.mul
use scilla.Base.{ℕ, zero, suc, ◌+◌, ◌*◌, ◌/◌, ◌^◌, ◌≤◌, ◌<◌, ◌≡◌, refl, sym, ap, ◌∙◌, arith}
use scilla.OpenSsl.Toy.{Element, neutral, once, twice, plus, times, byte_count}

pub byte_count-le : (fuel n k : ℕ) → n < 256 ^ k → byte_count fuel n ≤ k
unfolding byte_count
byte_count-le zero n k h = omega arith
byte_count-le (suc fuel) n zero h = ground arith
byte_count-le (suc fuel) n (suc k) h =
    let power = pow-suc 256 k in ground (arith, byte_count-le fuel (n / 256) k)

pub lt-byte_count : (fuel n : ℕ) → n ≤ fuel → n < 256 ^ byte_count fuel n
unfolding byte_count
lt-byte_count zero n h = ground arith
lt-byte_count (suc fuel) n h =
    let power = pow-suc 256 (byte_count fuel (n / 256)) in
    ground (arith, lt-byte_count fuel (n / 256))

pub plus-neutral : (x : Element) → plus x neutral ≡ x
unfolding plus
plus-neutral neutral = refl
plus-neutral once = refl
plus-neutral twice = refl

plus_assoc : (x y z : Element) → plus (plus x y) z ≡ plus x (plus y z)
unfolding plus
plus_assoc neutral y z = refl
plus_assoc once y z = ground arith
plus_assoc twice y z = ground arith

pub times-neutral : (a : ℕ) → times a neutral ≡ neutral
unfolding times plus
times-neutral zero = refl
times-neutral (suc a) = times-neutral a

pub times-add : (a b : ℕ) (x : Element) → times (a + b) x ≡ plus (times a x) (times b x)
unfolding times
times-add zero b x = rw (add.zero b) (unfold plus in refl)
times-add (suc a) b x =
    rw (add.suc a b) (ap (plus x) (times-add a b x) ∙ sym (plus_assoc x (times a x) (times b x)))

pub times-mul : (a b : ℕ) (x : Element) → times (a * b) x ≡ times a (times b x)
unfolding times
times-mul zero b x = rw (mul.zero b)
times-mul (suc a) b x =
    let step : suc a * b ≡ b + a * b = omega arith in
    rw (step, times-add b (a * b) x) (ap (plus (times b x)) (times-mul a b x))
