-- ===== src/OpenSsl/Toy/Meets.antt =====
-- The stand-in meets the documented behaviour, and none of its calls fails.
use mathlib.Core.Option.{some-injective}
use mathlib.Core.Path.{ap₂}
use native.Mathlib.Nat.{le_refl, mod-lt, mod-eq_of_lt}
use Prim.Native.Nat.{compare}
use scilla.Base.{
  ℕ, zero, suc, ◌+◌, ◌-◌, ◌*◌, ◌%◌, ◌^◌, ◌<◌, ◌≡◌, ◌≢◌, ◌↔◌, refl, sym, ap, ◌∙◌, true, some, length,
  All, arith, ◌==◌,
}
use scilla.Base.Bytes.{IsByte, be}
use scilla.Base.Bytes.Numbers.{be-be_digits, be_digits-IsByte, length-be_digits}
use scilla.OpenSsl.Documented.{Holds, IsCyclic, IsBignum, IsCurve, Documented}
use scilla.OpenSsl.Reliable.{IsReliable}
use scilla.OpenSsl.Toy.{
  Element, neutral, once, twice, plus, times, encode, byte_count, decode, is_neutral, product, toy,
  toy_meaning,
}
use scilla.OpenSsl.Toy.Numbers.{
  byte_count-le, lt-byte_count, plus-neutral, times-neutral, times-add, times-mul,
}

pub toy_holds : (n : ℕ) → Holds toy_meaning n n
toy_holds n = record { not_negative = refl; value = refl }

held : {b n : ℕ} → b ≡ n → Holds toy_meaning b n
held e = record { not_negative = refl; value = e }

ap₃ : (f : ℕ → ℕ → ℕ → ℕ) {a b c x y z : ℕ} → a ≡ x → b ≡ y → c ≡ z → f a b c ≡ f x y z
ap₃ f p q r = λ i. f (p i) (q i) (r i)

drawn :
    (w b n : ℕ) → Holds toy_meaning b n → 0 < n → (k : ℕ) × Holds toy_meaning (w % b) k × (k < n)
drawn w b n h pos = (w % b, toy_holds (w % b), rw h.value (mod-lt w pos))

toy-IsCyclic : IsCyclic toy_meaning
toy-IsCyclic = record {
  order_pos = omega arith;
  order_fits = omega arith;
  plus-infinity = plus-neutral;
  times-infinity = times-neutral;
  times-add = times-add;
  times-mul = times-mul;
  times-order = unfold times plus in refl;
  times-ne-infinity = ne_neutral;
}
  where
    ne_neutral : (a : ℕ) → 0 < a → a < 3 → times a once ≢ neutral
    ne_neutral zero h k = absurd (omega arith)
    ne_neutral (suc zero) h k = λ e. unfold times plus in cc e
    ne_neutral (suc (suc zero)) h k = λ e. unfold times plus in cc e
    ne_neutral (suc (suc (suc a))) h k = absurd (omega arith)

-- The three encodings are different numbers.
encode_distinct : (x y : Element) → be (encode x) ≡ be (encode y) → x ≡ y
unfolding be encode
encode_distinct neutral neutral e = refl
encode_distinct neutral once e = absurd (omega arith)
encode_distinct neutral twice e = absurd (omega arith)
encode_distinct once neutral e = absurd (omega arith)
encode_distinct once once e = refl
encode_distinct once twice e = absurd (omega arith)
encode_distinct twice neutral e = absurd (omega arith)
encode_distinct twice once e = absurd (omega arith)
encode_distinct twice twice e = refl

encode_bytes : (x : Element) → All IsByte (encode x)
unfolding encode
encode_bytes neutral = omega arith
encode_bytes once = omega arith
encode_bytes twice = omega arith

encode_bounded : (x : Element) → be (encode x) < 256 ^ 33
unfolding be encode
encode_bounded neutral = omega arith
encode_bounded once = omega arith
encode_bounded twice = omega arith

encode_length : (x : Element) → x ≢ neutral → length (encode x) ≡ 33
unfolding encode
encode_length neutral h = absurd (h refl)
encode_length once h = refl
encode_length twice h = refl

-- `decode` undoes the encoding.
decode_lem : (n : ℕ) (p : Element) → decode n ≡ some p → be (encode p) ≡ n
unfolding decode
decode_lem n p e = ground arith

decode_total : (b : ℕ) (x : Element) → b ≡ be (encode x) → (p : Element) × (decode b ≡ some p)
unfolding decode be encode
decode_total b neutral e = (neutral, ground arith)
decode_total b once e = (once, ground arith)
decode_total b twice e = (twice, ground arith)

neutral_test : (x : Element) → (is_neutral x ≡ true) ↔ (x ≡ neutral)
unfolding is_neutral
neutral_test neutral = (λ e. refl, λ e. refl)
neutral_test once = (λ e. cc, λ e. cc)
neutral_test twice = (λ e. cc, λ e. cc)

toy-IsBignum : IsBignum toy toy_meaning
toy-IsBignum = record {
  copy = λ d b n w h e. h;
  bin2bn = λ bs b w h e. record { not_negative = refl; value = sym (some-injective _ _ e) };
  bin2bn_into = λ bs d w h e. toy_holds (be bs);
  num_bytes = λ b n k h lt. byte_count-le b b k (rw (h.value) lt);
  length-bn2bin = λ b. length-be_digits (byte_count b b) b;
  bn2bin-IsByte = λ b. be_digits-IsByte (byte_count b b) b;
  be-bn2bin = λ b n h.
      be-be_digits (byte_count b b) b ∙ mod-eq_of_lt (lt-byte_count b b (le_refl b)) ∙ h.value;
  cmp = λ a b x y h k. ap₂ compare h.value k.value;
  is_zero = λ b n h. ap (λ t. t == 0) h.value;
  rand_range = λ d b n w h pos e. drawn w b n h pos;
  dsa_nonce = λ d b key msg n w h pos e. drawn w b n h pos;
  nnmod = λ d a b x n w h k pos e. held (ap₂ (λ s t. s % t) h.value k.value);
  mod_mul = λ d a b c x y n w h k l pos e. held (ap₃ (λ s t u. s * t % u) h.value k.value l.value);
  mod_sub = λ d a b c x y n w h k l pos e.
      held (ap₃ (λ s t u. (s + u - t % u) % u) h.value k.value l.value);
}

toy-IsCurve : IsCurve toy toy_meaning
toy-IsCurve = record {
  get_order = λ g d w e. toy_holds 3;
  point_copy = λ d p w e. refl;
  mul = λ g d b n w h e. unfold product in ap (λ t. times t once) h.value;
  mul_add = λ g d p b c x y w h k e.
      unfold product in ap₂ (λ s t. plus (times s once) (times t p)) h.value k.value;
  at_infinity = λ g p. neutral_test p;
  point2oct = λ g p w e. refl;
  encode_size = encode_length;
  encode-IsByte = encode_bytes;
  encode_fits = encode_bounded;
  encode-injective = encode_distinct;
  point2bn = λ g p b w e. record { not_negative = refl; value = sym (some-injective _ _ e) };
  bn2point = λ g b n p w h lt e. decode_lem b p e ∙ h.value;
  absorbed-init = refl;
  absorbed-update = λ c bs. refl;
  final-digest = λ c. refl;
  digest_size = λ bs. length-be_digits 32 _;
  digest-IsByte = λ bs. be_digits-IsByte 32 _;
}

pub toy-Documented : Documented toy toy_meaning
toy-Documented = record {
  cyclic = toy-IsCyclic;
  bignum = toy-IsBignum;
  curve = toy-IsCurve;
  null_context = record { by_numbers = λ a b x n h k. refl };
}

pub toy-IsReliable : IsReliable toy toy_meaning
toy-IsReliable = record {
  new_some = λ w. (0, refl);
  ctx_some = λ w. refl;
  point_some = λ g w. (neutral, refl);
  read_some = λ bs w. (be bs, refl);
  copied = λ d b w. refl;
  point_copied = λ d p w. refl;
  encoded = λ g p w. (be (encode p), refl);
  decoded = λ g b x w h _. decode_total b x h.value;
  built = λ bs d w. refl;
  reduced = λ d a b n w h pos. refl;
  product_reduced = λ d a b c n w h pos. refl;
  difference_reduced = λ d a b c n w h pos. refl;
  multiplied = λ g d b o w. refl;
  converted = λ g p w h. encode_length p h;
}
