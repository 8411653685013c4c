-- ===== src/Serializable/Runs.antt =====
-- Concrete runs, and the theorems at concrete inputs.
use scilla.Base.{◌≡◌, refl, done, thrown, [], ◌∷◌, arith}
use scilla.Base.Bytes.{Bytes, at, resize}
use scilla.Serializable.{
  get_number, get_number_loop, set_number, set_number_loop, set_at, shift_left, shift_right,
}
use scilla.Serializable.Writes.{get_number-set_number, set_number_beyond}

abbrev stream : Bytes
stream = 9 ∷ 1 ∷ 2 ∷ 7 ∷ []

get_number_run : get_number 32 stream 1 2 ≡ done 258
unfolding get_number get_number_loop at shift_left
get_number_run = refl

set_number_run : set_number 32 stream 3 258 2 ≡ done (9 ∷ 1 ∷ 2 ∷ 1 ∷ 2 ∷ [])
unfolding set_number set_number_loop shift_right set_at resize
set_number_run = refl

get_number-set_number_example : get_number 32 (9 ∷ 1 ∷ 2 ∷ 1 ∷ 2 ∷ []) 3 2 ≡ done 258
get_number-set_number_example =
    get_number-set_number 32 stream 3 258 2 (omega arith) (omega arith) (omega arith) (omega arith)
      (omega arith) (omega arith) set_number_run

set_number_beyond_example : set_number 32 stream 5 258 2 ≡ thrown
set_number_beyond_example =
    set_number_beyond 32 stream 5 258 2 (omega arith) (omega arith) (omega arith) (omega arith)
      (omega arith) (omega arith)
