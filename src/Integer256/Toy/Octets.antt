-- ===== src/Integer256/Toy/Octets.antt =====
-- Conversions of the words from and to bytes, as stdint documents them.
use mathlib.Core.List.{reverse}
use mathlib.Core.Path.{subst}
use native.Mathlib.Nat.{mod-eq_of_lt}
use scilla.Base.{
  ℕ, ◌+◌, ◌^◌, ◌≤◌, ◌<◌, refl, ◌∙◌, none, some, length, drop, All, All-take, All-drop, leb, le→leb,
  if◌then◌else◌,
}
use scilla.Base.Bytes.{Bytes, IsByte, be, be_digits, slice, splice}
use scilla.Base.Bytes.Laws.{length-slice}
use scilla.Base.Bytes.Numbers.{be-lt}
use scilla.Integer256.Toy.{toy, toy_words, wrap}
use scilla.Integer256.Uint256.Octets.{WordOctets}
use scilla.Integer256.Uint256.Octets.RoundTrip.{IsWordOctets, length-reverse, reverse-IsByte}

-- The conversions of the words from and to bytes.
abbrev pub toy_octets : WordOctets toy
toy_octets = record {
  to_bytes_big_endian = λ x buf off.
      if leb (off + 16) (length buf) then some (splice off (be_digits 16 (wrap x)) buf) else none;
  to_bytes_little_endian = λ x buf off.
      if leb (off + 16) (length buf)
      then some (splice off (reverse (be_digits 16 (wrap x))) buf)
      else none;
  of_bytes_big_endian =
      λ buf off. if leb (off + 16) (length buf) then some (be (slice off 16 buf)) else none;
  of_bytes_little_endian = λ buf off.
      if leb (off + 16) (length buf) then some (be (reverse (slice off 16 buf))) else none;
}

slice_small :
    (off : ℕ) (buf : Bytes)
    → All IsByte buf
    → off + 16 ≤ length buf
    → be (slice off 16 buf) < 2 ^ 128
slice_small off buf bytes fits =
    let small =
      be-lt (slice off 16 buf)
        (All-take IsByte 16 (drop off buf) (All-drop IsByte off buf bytes)) in
    subst (λ (n : ℕ). be (slice off 16 buf) < 256 ^ n) (length-slice off 16 buf fits) small

reversed_small :
    (off : ℕ) (buf : Bytes)
    → All IsByte buf
    → off + 16 ≤ length buf
    → be (reverse (slice off 16 buf)) < 2 ^ 128
reversed_small off buf bytes fits =
    let small = be-lt (reverse (slice off 16 buf)) (
      reverse-IsByte (slice off 16 buf)
        (All-take IsByte 16 (drop off buf) (All-drop IsByte off buf bytes))) in
    subst (λ (n : ℕ). be (reverse (slice off 16 buf)) < 256 ^ n)
      (length-reverse (slice off 16 buf) ∙ length-slice off 16 buf fits) small

pub toy_octets-IsWordOctets : IsWordOctets toy_words toy_octets
toy_octets-IsWordOctets = record {
  to_bytes_big_endian-splice = λ x buf off fits. rw (le→leb _ _ fits) refl;
  to_bytes_little_endian-splice = λ x buf off fits. rw (le→leb _ _ fits) refl;
  of_bytes_big_endian-slice = λ buf off bytes fits. (
    be (slice off 16 buf),
    rw (le→leb _ _ fits) refl,
    mod-eq_of_lt (slice_small off buf bytes fits),
  );
  of_bytes_little_endian-slice = λ buf off bytes fits. (
    be (reverse (slice off 16 buf)),
    rw (le→leb _ _ fits) refl,
    mod-eq_of_lt (reversed_small off buf bytes fits),
  );
}
