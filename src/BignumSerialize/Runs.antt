-- ===== src/BignumSerialize/Runs.antt =====
-- The theorems on numbers in vectors at concrete inputs, with the stand-in for OpenSSL.
use scilla.Base.{◌⊎◌, none, ℕ, ◌≡◌, refl, Option, some, [], ◌∷◌, done, undefined, arith}
use scilla.Base.Bytes.{Bytes, resize, write, be_digits}
use scilla.OpenSsl.Toy.{toy, toy_meaning, byte_count}
use scilla.OpenSsl.Toy.Meets.{toy_holds, toy-Documented}
use scilla.OpenSsl.Documented.{Holds}
use scilla.BignumSerialize.{get_number, set_number}
use scilla.BignumSerialize.RoundTrip.{
  stored, set_number-stored, get_bignum_wraps, get_bignum-set_bignum,
}

abbrev vector : Bytes
vector = 9 ∷ 9 ∷ 9 ∷ []

set_run : set_number toy vector 1 4 (some 258) 0 ≡ done (9 ∷ 0 ∷ 0 ∷ 1 ∷ 2 ∷ [], 0)
unfolding set_number resize write byte_count be_digits
set_run = refl

set_number-stored_example : set_number toy vector 1 4 (some 258) 0 ≡ done (stored vector 1 4 258, 0)
set_number-stored_example =
    set_number-stored toy-Documented.bignum vector 1 4 258 258 0 (toy_holds 258) (omega arith)
      (omega arith) (omega arith)

get_bignum_wraps_example : get_number toy vector 0xffffffff 2 0 ≡ undefined
get_bignum_wraps_example =
    get_bignum_wraps toy-Documented.bignum vector 0xffffffff 2 0 (omega arith) (omega arith)
      (omega arith) (omega arith)

get_bignum-set_bignum_example :
    (r : Option ℕ) × (w : ℕ) × (get_number toy (9 ∷ 0 ∷ 0 ∷ 1 ∷ 2 ∷ []) 1 4 5 ≡ done (r, w))
    × ((r ≡ none) ⊎ ((b : ℕ) × (r ≡ some b) × Holds toy_meaning b 258))
get_bignum-set_bignum_example =
    get_bignum-set_bignum toy-Documented.bignum vector (9 ∷ 0 ∷ 0 ∷ 1 ∷ 2 ∷ []) 1 4 258 258 0 0 5
      (toy_holds 258) (omega arith) (omega arith) (omega arith) set_run
