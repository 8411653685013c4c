-- ===== src/Schnorr.antt =====
-- src/cpp/Schnorr.cpp: key generation, and the part that signing and verifying have in common. The
-- loops of the file run on fuel, and `stuck` says that it was used up.
pub mod Transcript
pub mod Valid
pub mod Keys
pub mod Sign
pub mod Verify
pub mod RoundTrip
mod Runs
use scilla.Base.{
  ℕ, ◌%◌, not, Option, none, some, length, replicate, ◌==◌, if◌then◌else◌, Run, pure, lift, call,
  ◌>>=◌,
}
use scilla.Base.Bytes.{Bytes, splice}
use scilla.OpenSsl.{OpenSsl, deref}
use scilla.Curve.{Curve}
use scilla.Sha2
use scilla.Sha2.{Sha2}
use scilla.PrivKey
use scilla.PrivKey.{PrivKey}
use scilla.PubKey
use scilla.PubKey.{PubKey}

abbrev pub pubkey_compressed_size_bytes : ℕ
pubkey_compressed_size_bytes = 33

module _ (ssl : OpenSsl) (curve : Curve ssl) where
  open ssl use {World, Group, Point, ec_point_point2oct}

  unfoldable pub gen_key_pair : ℕ → Run World (PrivKey ssl × PubKey ssl)
  gen_key_pair fuel = do
    privkey ← PrivKey.new ssl fuel curve
    pubkey ← PubKey.from_priv_key ssl curve privkey
    privkey' ← PrivKey.copy ssl privkey
    pubkey' ← PubKey.copy ssl curve pubkey
    -- `make_pair` copies the two temporaries into its result: the classes declare no move.
    first ← PrivKey.copy ssl privkey'
    second ← PubKey.copy ssl curve pubkey'
    pure (first, second)

  -- What `Sign` and `Verify` do alike: hash the octets of the commitment, those of the public key and
  -- the message. `none` is a conversion that failed; the buffer is cleared between its two uses.
  unfoldable pub transcript :
      Sha2 ssl → Bytes → Group → Point → PubKey ssl → Bytes → ℕ → ℕ → Run World (Option (Sha2 ssl))
  transcript sha2 buf group q pubkey message offset size = do
    octets ← call (ec_point_point2oct group q)
    if not (length octets == pubkey_compressed_size_bytes) then pure none else do
      let hashed = Sha2.update ssl sha2 (splice 0 octets buf)
      let cleared = replicate pubkey_compressed_size_bytes 0
      p ← deref pubkey.m_P
      octets' ← call (ec_point_point2oct group p)
      if not (length octets' == pubkey_compressed_size_bytes) then pure none else do
        let hashed' = Sha2.update ssl hashed (splice 0 octets' cleared)
        hashed'' ← lift (Sha2.update_range ssl hashed' message offset size)
        pure (some (Sha2.finalize ssl hashed''))
