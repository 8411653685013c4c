-- ===== src/Integer256/Uint256/Octets.antt =====
-- src/lang/base/Integer256.ml: the conversions of Uint256 from and to bytes, which Int256 takes over.
pub mod RoundTrip
use scilla.Base.{ℕ, ◌+◌, Option, none, some}
use scilla.Base.Bytes.{Bytes}
use scilla.Integer256.{Uint128, Halves}

-- The conversions of `Stdint.Uint128`. A buffer that changes is given back; `none` is the exception
-- Invalid_argument of a range that is not inside it.
pub record WordOctets (u : Uint128) : Type 0 where
  pub to_bytes_big_endian : u.Word → Bytes → ℕ → Option Bytes
  pub to_bytes_little_endian : u.Word → Bytes → ℕ → Option Bytes
  pub of_bytes_big_endian : Bytes → ℕ → Option u.Word
  pub of_bytes_little_endian : Bytes → ℕ → Option u.Word

module _ {u : Uint128} (b : WordOctets u) where
  unfoldable pub to_bytes_big_endian : Halves u → Bytes → ℕ → Option Bytes
  to_bytes_big_endian ui buf off = elim (b.to_bytes_big_endian ui.high buf off) [
    | none ↦ none
    | some buf' ↦ b.to_bytes_big_endian ui.low buf' (off + 16)
  ]

  unfoldable pub to_bytes_little_endian : Halves u → Bytes → ℕ → Option Bytes
  to_bytes_little_endian ui buf off = elim (b.to_bytes_little_endian ui.low buf off) [
    | none ↦ none
    | some buf' ↦ b.to_bytes_little_endian ui.high buf' (off + 16)
  ]

  unfoldable pub of_bytes_big_endian : Bytes → ℕ → Option (Halves u)
  of_bytes_big_endian buff off = elim (b.of_bytes_big_endian buff off) [
    | none ↦ none
    | some high ↦ elim (b.of_bytes_big_endian buff (off + 16)) [
      | none ↦ none
      | some low ↦ some (record { high = high; low = low })
    ]
  ]

  unfoldable pub of_bytes_little_endian : Bytes → ℕ → Option (Halves u)
  of_bytes_little_endian buff off = elim (b.of_bytes_little_endian buff off) [
    | none ↦ none
    | some low ↦ elim (b.of_bytes_little_endian buff (off + 16)) [
      | none ↦ none
      | some high ↦ some (record { high = high; low = low })
    ]
  ]
