-- ===== src/Sha2/Digests.antt =====
-- The digest of a `SHA2` object is that of all the bytes that it was given since it was reset.
use mathlib.Core.List.{append-nil}
use mathlib.Core.Path.{subst, ap₂}
use scilla.Base.{
  ℕ, ◌+◌, ◌≤◌, ◌≡◌, refl, sym, ap, ◌∙◌, [], ◌∷◌, ◌++◌, length, length-replicate, arith, ◌==◌, done,
  ==_iff, true, false, done-injective, bind-eq-done,
}
use scilla.Base.Bytes.{Bytes, read, slice, splice}
use scilla.Base.Bytes.Laws.{splice_whole, read-slice, read-eq-slice}
use scilla.OpenSsl.{OpenSsl}
use scilla.OpenSsl.Documented.{Meaning, IsCurve}
use scilla.Sha2.{Sha2, hash_variant_256, reset, new, update, update_range, finalize}

-- A SHA-256 object with a buffer for the digest that has taken in `bs`.
pub record Has {ssl : OpenSsl} (m : Meaning ssl) (sha2 : Sha2 ssl) (bs : Bytes) : Type 0 where
  pub sha256 : sha2.size ≡ hash_variant_256
  pub room : length sha2.output ≡ 32
  pub taken : m.absorbed sha2.m_context ≡ bs

module _ {ssl : OpenSsl} {m : Meaning ssl} (laws : IsCurve ssl m) where
  open laws use {absorbed-init, absorbed-update, final-digest, digest_size}

  pub new-Has : Has m (new ssl hash_variant_256) []
  unfolding new reset
  new-Has = record { sha256 = refl; room = length-replicate {A = ℕ} 32 0; taken = absorbed-init }

  pub reset-Has : {sha2 : Sha2 ssl} {bs : Bytes} → Has m sha2 bs → Has m (reset ssl sha2) []
  unfolding reset
  reset-Has h = record { sha256 = h.sha256; room = h.room; taken = absorbed-init }

  pub update-Has :
      {sha2 : Sha2 ssl} {bs : Bytes} (input : Bytes)
      → Has m sha2 bs
      → Has m (update ssl sha2 input) (bs ++ input)
  unfolding update
  update-Has {bs} [] h = record {
    sha256 = h.sha256;
    room = h.room;
    taken = h.taken ∙ sym (append-nil bs);
  }
  update-Has {sha2} {bs} (b ∷ input) h =
      let some_byte : (length (b ∷ input) == 0) ≡ false = ground arith in
      let all : m.absorbed (ssl.sha256_update sha2.m_context (b ∷ input)) ≡ bs ++ b ∷ input =
        absorbed-update sha2.m_context (b ∷ input) ∙ ap (λ t. t ++ b ∷ input) h.taken in
      rw some_byte (record { sha256 = h.sha256; room = h.room; taken = all })

  pub update_range-Has :
      {sha2 : Sha2 ssl} {bs : Bytes} (input : Bytes) (offset size : ℕ) {sha2' : Sha2 ssl}
      → Has m sha2 bs
      → update_range ssl sha2 input offset size ≡ done sha2'
      → Has m sha2' (bs ++ slice offset size input)
  unfolding update_range
  update_range-Has {sha2} {bs} input offset size {sha2'} h e =
      let (part, readable, same) = bind-eq-done (read offset size input) _ e in
      let new_context = ssl.sha256_update sha2.m_context part in
      let after : Sha2 ssl = record sha2 { m_context = new_context } in
      let all : m.absorbed new_context ≡ bs ++ slice offset size input =
        absorbed-update sha2.m_context part
        ∙ ap₂ ◌++◌ h.taken (read-eq-slice offset size input part readable).0 in
      let new_Has : Has m after (bs ++ slice offset size input) = record {
        sha256 = h.sha256;
        room = h.room;
        taken = all;
      } in
      subst (λ t. Has m t (bs ++ slice offset size input)) (done-injective same) new_Has

  -- The output of a finalized object.
  pub finalize-digest :
      {sha2 : Sha2 ssl} {bs : Bytes}
      → Has m sha2 bs
      → ((finalize ssl sha2).output ≡ m.digest bs) × Has m (finalize ssl sha2) bs
  unfolding finalize
  finalize-digest {sha2} {bs} h =
      let right : (sha2.size == hash_variant_256) ≡ true = (==_iff sha2.size 256).1 h.sha256 in
      let final : ssl.sha256_final sha2.m_context ≡ m.digest bs =
        final-digest sha2.m_context ∙ ap m.digest h.taken in
      let whole : splice 0 (m.digest bs) sha2.output ≡ m.digest bs =
        splice_whole (m.digest bs) sha2.output (digest_size bs ∙ sym h.room) in
      rw (right, final, whole)
        (refl, record { sha256 = h.sha256; room = digest_size bs; taken = h.taken })

  -- A range inside the input is taken in.
  pub update_range_total :
      (sha2 : Sha2 ssl) (input : Bytes) (offset size : ℕ)
      → offset + size ≤ length input
      → (out : Sha2 ssl) × (update_range ssl sha2 input offset size ≡ done out)
  unfolding update_range
  update_range_total sha2 input offset size inside = (
    record sha2 { m_context = ssl.sha256_update sha2.m_context (slice offset size input) },
    rw (read-slice offset size input inside),
  )
