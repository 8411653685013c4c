-- ===== src/Schnorr/Transcript.antt =====
-- The hash of commitment, public key and message.
use mathlib.Core.Path.{subst₂}
use mathlib.Core.Option.{some-injective}
use scilla.Base.{
  ℕ, ◌+◌, ◌≤◌, ◌≡◌, ◌≢◌, sym, ap, ◌∙◌, true, none, some, [], ◌++◌, length, replicate,
  length-replicate, ◌==◌, ==_iff, done, done-injective, lift-eq-done, passed,
}
use scilla.Base.Bytes.{Bytes, slice, splice}
use scilla.Base.Bytes.Laws.{splice_whole}
use scilla.OpenSsl.{OpenSsl}
use scilla.OpenSsl.Documented.{Meaning, IsCurve}
use scilla.OpenSsl.Reliable.{IsReliable}
use scilla.Curve.{Curve}
use scilla.Sha2
use scilla.Sha2.{Sha2}
use scilla.Sha2.Digests.{Has, update-Has, update_range-Has, update_range_total, finalize-digest}
use scilla.Schnorr.{transcript}

-- The bytes that are hashed.
abbrev pub hashed_bytes : {ssl : OpenSsl} (m : Meaning ssl) → m.Element → m.Element → Bytes → Bytes
hashed_bytes m q p message = m.encode q ++ m.encode p ++ message

module _ {ssl : OpenSsl} {m : Meaning ssl} (laws : IsCurve ssl m) (curve : Curve ssl) where
  open ssl use {World, Group, Point, ec_point_point2oct}

  -- The buffer after the octets were written into it, where all 33 came.
  octets-encode :
      (g : Group) (p : Point) (w : World) (buf : Bytes)
      → length buf ≡ 33
      → length (ec_point_point2oct g p w).0 ≡ 33
      → splice 0 (ec_point_point2oct g p w).0 buf ≡ m.encode (m.element p)
  octets-encode g p w buf hb e = splice_whole _ buf (e ∙ sym hb) ∙ laws.point2oct g p w e

  pub transcript-digest :
      (sha2 : Sha2 ssl) (buf : Bytes) (g : Group) (q p : Point) (message : Bytes) (offset size : ℕ)
      (w w' : World) (out : Sha2 ssl)
      → Has m sha2 []
      → length buf ≡ 33
      → transcript ssl curve sha2 buf g q (record { m_P = some p }) message offset size w
        ≡ done (some out, w')
      → let bytes = hashed_bytes m (m.element q) (m.element p) (slice offset size message) in
        (out.output ≡ m.digest bytes) × Has m out bytes
  unfolding transcript
  transcript-digest sha2 buf g q p message offset size w w' out fresh hb e =
      let o = ec_point_point2oct g q w in
      let (n, e₁) = passed (length o.0 == 33) _ none (some out) o.1 w' (λ h. cc) e in
      let o' = ec_point_point2oct g p o.1 in
      let (n', e₂) = passed (length o'.0 == 33) _ none (some out) o'.1 w' (λ h. cc) e₁ in
      let first = octets-encode g q w buf hb ((==_iff _ 33).0 n) in
      let cleared : Bytes = replicate 33 0 in
      let second =
        octets-encode g p o.1 cleared (length-replicate {A = ℕ} 33 0) ((==_iff _ 33).0 n') in
      let hashed =
        update-Has laws (splice 0 o'.0 cleared) (update-Has laws (splice 0 o.0 buf) fresh) in
      let (sha2', ranged, end) = lift-eq-done _ _ o'.1 (some out, w') e₂ in
      let taken = update_range-Has laws message offset size hashed ranged in
      let bytes : (splice 0 o.0 buf ++ splice 0 o'.0 cleared) ++ slice offset size message
          ≡ hashed_bytes m (m.element q) (m.element p) (slice offset size message) =
        rw (first, second) in
      let same : Sha2.finalize ssl sha2' ≡ out =
        some-injective _ _ (ap (λ r. r.0) (done-injective end)) in
      subst₂ (λ t b. (t.output ≡ m.digest b) × Has m t b) same bytes (finalize-digest laws taken)

  -- The hash is built if no call fails, the two points are finite and the range is in the message.
  pub transcript_total :
      (reliable : IsReliable ssl m) (sha2 : Sha2 ssl) (buf : Bytes) (g : Group) (q p : Point)
      (message : Bytes) (offset size : ℕ) (w : World)
      → m.element q ≢ m.infinity
      → m.element p ≢ m.infinity
      → offset + size ≤ length message
      → (out : Sha2 ssl) × (w' : World) × (transcript ssl curve sha2 buf g q
            (record { m_P = some p })
            message
            offset
            size
            w
          ≡ done (some out, w'))
  unfolding transcript
  transcript_total reliable sha2 buf g q p message offset size w hq hp inside =
      let o = ec_point_point2oct g q w in
      let o' = ec_point_point2oct g p o.1 in
      let first : (length o.0 == 33) ≡ true = (==_iff _ 33).1 (reliable.converted g q w hq) in
      let second : (length o'.0 == 33) ≡ true = (==_iff _ 33).1 (reliable.converted g p o.1 hp) in
      let hashed =
        Sha2.update ssl (Sha2.update ssl sha2 (splice 0 o.0 buf))
          (splice 0 o'.0 (replicate 33 0)) in
      let (after, ranged) = update_range_total laws hashed message offset size inside in
      (Sha2.finalize ssl after, o'.1, rw (first, second, ranged))
