-- ===== src/OpenSsl/Toy.antt =====
-- A small stand-in for OpenSSL, which shows that the documented behaviour can be met: numbers are
-- naturals, the group has three elements, the digest is a checksum, and the random numbers count up.
mod Numbers
pub mod Meets
use scilla.Base.{
  ℕ, zero, suc, ◌+◌, ◌-◌, ◌*◌, ◌/◌, ◌%◌, Bool, true, false, Option, none, some, [], ◌∷◌, ◌++◌,
  replicate, ltb, ◌==◌, if◌then◌else◌,
}
use scilla.Base.Bytes.{Bytes, be, be_digits}
use scilla.OpenSsl.{OpenSsl}
use scilla.OpenSsl.Documented.{Meaning}
use Prim.Native.Nat.{compare}

pub data Element : Type 0 where
  neutral once twice : Element

unfoldable pub plus : Element → Element → Element
plus neutral y = y
plus once neutral = once
plus once once = twice
plus once twice = neutral
plus twice neutral = twice
plus twice once = neutral
plus twice twice = once

unfoldable pub times : ℕ → Element → Element
unfolding plus
times zero x = neutral
times (suc n) x = plus x (times n x)

unfoldable pub encode : Element → Bytes
encode neutral = 0 ∷ []
encode once = 2 ∷ replicate 32 1
encode twice = 3 ∷ replicate 32 1

-- How many bytes a number has, on fuel.
unfoldable pub byte_count : ℕ → ℕ → ℕ
byte_count zero n = 0
byte_count (suc fuel) n = elim (n == 0) [ true ↦ 0 | false ↦ suc (byte_count fuel (n / 256)) ]

unfoldable pub total : Bytes → ℕ
total [] = 0
total (b ∷ bs) = b + total bs

unfoldable pub decode : ℕ → Option Element
unfolding be encode
decode n =
    if n == be (encode neutral)
    then some neutral
    else if n == be (encode once)
    then some once
    else if n == be (encode twice)
    then some twice
    else none

unfoldable pub is_neutral : Element → Bool
is_neutral neutral = true
is_neutral _ = false

unfoldable pub product : ℕ → Option (Element × ℕ) → Element
unfolding times
product n none = times n once
product n (some (p, k)) = plus (times n once) (times k p)

abbrev pub toy : OpenSsl
toy = record {
  World = ℕ;
  Bignum = ℕ;
  Group = Unit;
  Point = Element;
  Sha256 = Bytes;
  bn_new = λ w. (some 0, w);
  bn_ctx_new = λ w. (some tt, w);
  bn_copy = λ d b w. ((true, b), w);
  bn_bin2bn = λ bs w. (some (be bs), w);
  bn_bin2bn_negative = λ w. (none, w);
  bn_bin2bn_into = λ bs d w. ((true, be bs), w);
  bn_num_bytes = λ b. byte_count b b;
  bn_bn2bin = λ b. be_digits (byte_count b b) b;
  bn_cmp = compare;
  bn_is_zero = λ b. b == 0;
  bn_is_negative = λ b. false;
  bn_rand_range = λ d n w. ((true, w % n), w + 1);
  bn_generate_dsa_nonce = λ d n key msg w. ((true, w % n), w + 1);
  bn_nnmod = λ d a n w. ((true, a % n), w);
  bn_nnmod_survives = λ a n. true;
  bn_mod_mul = λ d a b n w. ((true, a * b % n), w);
  bn_mod_sub = λ d a b n w. ((true, (a + n - b % n) % n), w);
  ec_group_new_by_curve_name = λ w. (some tt, w);
  ec_group_get_order = λ g d w. ((true, 3), w);
  ec_point_new = λ g w. (some neutral, w);
  ec_point_copy = λ d p w. ((true, p), w);
  ec_point_mul = λ g d n o w. ((true, product n o), w);
  ec_point_is_at_infinity = λ g p. is_neutral p;
  ec_point_point2oct = λ g p w. (encode p, w);
  ec_point_point2bn = λ g p w. (some (be (encode p)), w);
  ec_point_bn2point = λ g n w. (decode n, w);
  sha256_init = [];
  sha256_update = λ c bs. c ++ bs;
  sha256_final = λ c. be_digits 32 (total c);
}

abbrev pub toy_meaning : Meaning toy
toy_meaning = record {
  magnitude = λ b. b;
  Element = Element;
  infinity = neutral;
  plus = plus;
  times = times;
  generator = once;
  order = 3;
  element = λ p. p;
  encode = encode;
  absorbed = λ c. c;
  digest = λ bs. be_digits 32 (total bs);
  survives = λ x n. true;
}
