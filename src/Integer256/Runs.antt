-- ===== src/Integer256/Runs.antt =====
-- Runs of Uint256 at concrete numbers, over the words of `Integer256.Toy`.
use mathlib.Core.Option
use scilla.Base.{
  replicate, ℕ, List, [], ◌∷◌, arith, true, ◌≡◌, refl, ◌^◌, ◌-◌, ◌*◌, ◌+◌, none, some,
}
use scilla.Integer256.{Halves, getlow, gethigh, highlow}
use scilla.Integer256.Documented.{whole}
use scilla.Integer256.Toy.{toy, toy_words}
use scilla.Integer256.Uint256.{
  divloop, max_int, mul, divrem, shift_left, add, isset, compare, setbit, logor, zero_256,
}
use scilla.Integer256.Uint256.Text.{of_string, to_string, append_digits, read_chars, read_char}
use scilla.Integer256.Uint256.Text.RoundTrip.{of_string-to_string}
use scilla.Integer256.Int256.Text as Text_int
use scilla.Integer256.Int256.Text.RoundTrip.{of_string-to_string_int}
use scilla.Integer256.Toy.Octets.{toy_octets, toy_octets-IsWordOctets}
use scilla.Integer256.Uint256.Octets.{
  to_bytes_big_endian, to_bytes_little_endian, of_bytes_big_endian, of_bytes_little_endian,
}
use scilla.Integer256.Uint256.Octets.RoundTrip.{of_bytes-to_bytes}
use scilla.Integer256.Uint256.Products.{mul-whole}
use scilla.Integer256.Uint256.Division.{State, start, divloop-State, divrem-whole, numbers}

-- 5 * 2 ^ 128 + 7, and 3 * 2 ^ 128 + 2.
abbrev pub wide : Halves toy
wide = record { high = 5; low = 7 }

abbrev pub narrow : Halves toy
narrow = record { high = 3; low = 2 }

mul-whole_example : whole toy_words (mul toy (max_int toy) wide) ≡ 2 ^ 256 - (5 * 2 ^ 128 + 7)
mul-whole_example = mul-whole toy_words (max_int toy) wide

divloop-State_example :
    State toy_words wide narrow 0
      (divloop toy wide narrow 256 (zero_256 toy) (zero_256 toy)).0
      (divloop toy wide narrow 256 (zero_256 toy) (zero_256 toy)).1
divloop-State_example =
    divloop-State toy_words wide narrow 256 (zero_256 toy) (zero_256 toy) (omega arith)
      (start toy_words wide narrow (λ e. absurd (omega (arith, e))))

of_string-to_string_example :
    (s : List ℕ) × (j : Halves toy) × (to_string toy 257 wide ≡ some s)
    × (of_string toy s ≡ some j)
    × (whole toy_words j ≡ 5 * 2 ^ 128 + 7)
of_string-to_string_example = of_string-to_string toy_words wide

-- The text of 17.
to_string_run : to_string toy 3 (record { high = 0; low = 17 }) ≡ some (49 ∷ 55 ∷ [])
unfolding to_string append_digits divrem compare
to_string_run = refl

of_string_run : of_string toy (49 ∷ 55 ∷ []) ≡ some (record { high = 0; low = 17 })
unfolding of_string read_chars read_char mul add gethigh getlow highlow
of_string_run = refl

of_string_refused : of_string toy (49 ∷ 45 ∷ []) ≡ none
unfolding of_string read_chars read_char
of_string_refused = refl

divrem-whole_example :
    Option.map (numbers toy_words) (divrem toy wide narrow) ≡ some (1, 2 * 2 ^ 128 + 5)
divrem-whole_example = divrem-whole toy_words wide narrow

add_run : add toy (max_int toy) narrow ≡ record { high = 3; low = 1 }
unfolding add
add_run = refl

mul_run : mul toy wide narrow ≡ record { high = 31; low = 14 }
unfolding mul gethigh getlow highlow
mul_run = refl

divrem_run :
    divrem toy (record { high = 0; low = 17 }) (record { high = 0; low = 5 })
    ≡ some (record { high = 0; low = 3 }, record { high = 0; low = 2 })
unfolding divrem compare
divrem_run = refl

divrem_zero_run : divrem toy wide (zero_256 toy) ≡ none
unfolding divrem compare
divrem_zero_run = refl

isset_run : isset toy wide 130 ≡ true
unfolding isset compare setbit logor shift_left
isset_run = refl

-- 2 ^ 255 + 9, which is a negative integer.
abbrev negative : Halves toy
negative = record { high = 2 ^ 127; low = 9 }

of_string-to_string_int_example :
    (s : List ℕ) × (j : Halves toy) × (Text_int.to_string toy 257 negative ≡ some s)
    × (Text_int.of_string toy s ≡ some j)
    × (whole toy_words j ≡ 2 ^ 255 + 9)
of_string-to_string_int_example = of_string-to_string_int toy_words negative

abbrev buffer : List ℕ
buffer = replicate 40 1

of_bytes-to_bytes_example :
    ((buf' : List ℕ) × (j : Halves toy) × (to_bytes_big_endian toy_octets wide buffer 5 ≡ some buf')
      × (of_bytes_big_endian toy_octets buf' 5 ≡ some j)
      × (whole toy_words j ≡ 5 * 2 ^ 128 + 7))
    × ((buf' : List ℕ) × (j : Halves toy) × (to_bytes_little_endian toy_octets wide buffer 5
          ≡ some buf')
        × (of_bytes_little_endian toy_octets buf' 5 ≡ some j)
        × (whole toy_words j ≡ 5 * 2 ^ 128 + 7))
of_bytes-to_bytes_example =
    of_bytes-to_bytes toy_words toy_octets-IsWordOctets wide buffer 5 (omega arith) (omega arith)
