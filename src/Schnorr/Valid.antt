-- ===== src/Schnorr/Valid.antt =====
-- What a signature promises, in terms of the group: the specification that `Sign` and `Verify` meet.
use native.Mathlib.Decide.{dec_lt}
use native.Mathlib.Nat.{mod-eq_of_lt, mod-lt, div-add-mod, mod-eq-sub-mod}
use scilla.Base.{ℕ, ◌+◌, ◌-◌, ◌*◌, ◌/◌, ◌%◌, ◌<◌, ◌≡◌, ◌≢◌, sym, ap, ◌∙◌, ◌++◌, arith, Bool}
use scilla.Base.Bytes.{Bytes, be}
use scilla.OpenSsl.{OpenSsl}
use scilla.OpenSsl.Documented.{Meaning, IsCyclic}

-- s = k - x, taken modulo n, gives s + x = k up to a multiple of n.
sub_mod : (k x n : ℕ) → k < n → (b : ℕ) × ((k + n - x % n) % n + x ≡ k + b * n)
sub_mod k x n h =
    let low : x % n < n = mod-lt x (omega arith) in
    let whole : n * (x / n) + x % n ≡ x = div-add-mod x n in
    elim (dec_lt k (x % n)) [
      | yes less ↦
          let wrap : (k + n - x % n) % n ≡ k + n - x % n = mod-eq_of_lt (omega arith) in
          (x / n + 1, omega (arith, wrap, whole))
      | no more ↦
          let down : (k + n - x % n) % n ≡ (k + n - x % n - n) % n = mod-eq-sub-mod (omega arith) in
          let wrap : (k + n - x % n - n) % n ≡ k + n - x % n - n = mod-eq_of_lt (omega arith) in
          (x / n, omega (arith, down, wrap, whole))
    ]

module _ {ssl : OpenSsl} (m : Meaning ssl) where
  open m use {Element, infinity, plus, times, generator, order, encode, digest, survives}

  -- H(Q, kpub, m)
  abbrev pub hash_number : Element → Element → Bytes → ℕ
  hash_number q p message = be (digest (encode q ++ encode p ++ message))

  -- r = H(Q, kpub, m), modulo the order
  abbrev pub challenge : Element → Element → Bytes → ℕ
  challenge q p message = hash_number q p message % order

  -- Whether BN_nnmod, with NULL for its BN_CTX, returns from the reduction of that number.
  abbrev pub reduces : Element → Element → Bytes → Bool
  reduces q p message = survives (hash_number q p message) order

  -- Q = sG + r * kpub
  abbrev pub commitment : ℕ → ℕ → Element → Element
  commitment r s p = plus (times s generator) (times r p)

  -- (r, s) is a signature of the message by the key `p`.
  pub record IsValid (r s : ℕ) (p : Element) (message : Bytes) : Type 0 where
    pub r_pos : 0 < r
    pub r_lt : r < order
    pub s_pos : 0 < s
    pub s_lt : s < order
    pub finite : commitment r s p ≢ infinity
    pub agrees : challenge (commitment r s p) p message ≡ r

  module _ (c : IsCyclic m) where
    open c use {
      order_pos, plus-infinity, times-infinity, times-add, times-mul, times-order,
      times-ne-infinity,
    }

    -- Multiples of the order do not count.
    times-order_mul : (a b : ℕ) → times (a + b * order) generator ≡ times a generator
    times-order_mul a b =
        times-add a (b * order) generator
        ∙ rw (times-mul b order generator, times-order, times-infinity b)
            (plus-infinity (times a generator))

    -- The response of `Sign` gives back the commitment.
    pub commitment-response :
        (k r d : ℕ)
        → k < order
        → commitment r ((k + order - r * d % order) % order) (times d generator) ≡ times k generator
    commitment-response k r d h =
        let (b, e) = sub_mod k (r * d) order h in
        let s = (k + order - r * d % order) % order in
        ap (plus (times s generator)) (sym (times-mul r d generator))
        ∙ sym (times-add s (r * d) generator)
        ∙ ap (λ t. times t generator) e
        ∙ times-order_mul k b
