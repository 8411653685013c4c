-- ===== src/Sha2.antt =====
-- src/cpp/Sha2.h: the class template `SHA2`, with its parameter `SIZE` as a field.
pub mod Digests
use scilla.Base.{ℕ, ◌/◌, length, replicate, ◌==◌, if◌then◌else◌, Outcome, done, bind}
use scilla.Base.Bytes.{Bytes, read, splice}
use scilla.OpenSsl.{OpenSsl}

abbrev pub hash_variant_256 : ℕ
hash_variant_256 = 256

pub record Sha2 (ssl : OpenSsl) : Type 0 where
  pub size : ℕ
  pub m_context : ssl.Sha256
  pub output : Bytes

module _ (ssl : OpenSsl) where
  open ssl use {sha256_init, sha256_update, sha256_final}

  unfoldable pub reset : Sha2 ssl → Sha2 ssl
  reset sha2 = record sha2 { m_context = sha256_init }

  unfoldable pub new : ℕ → Sha2 ssl
  unfolding reset
  new size =
      reset (record { size = size; m_context = sha256_init; output = replicate (size / 8) 0 })

  unfoldable pub update : Sha2 ssl → Bytes → Sha2 ssl
  update sha2 input =
      if length input == 0
      then sha2
      else record sha2 { m_context = sha256_update sha2.m_context input }

  -- A range that ends behind the input is only logged, and then read.
  unfoldable pub update_range : Sha2 ssl → Bytes → ℕ → ℕ → Outcome (Sha2 ssl)
  update_range sha2 input offset size =
      bind (read offset size input)
        λ part. done (record sha2 { m_context = sha256_update sha2.m_context part })

  -- The digest is put over the first bytes of `output`.
  unfoldable pub finalize : Sha2 ssl → Sha2 ssl
  finalize sha2 =
      if sha2.size == hash_variant_256
      then record sha2 { output = splice 0 (sha256_final sha2.m_context) sha2.output }
      else sha2
