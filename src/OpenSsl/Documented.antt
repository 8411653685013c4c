-- ===== src/OpenSsl/Documented.antt =====
-- What the sources rely on of OpenSSL, as its manual states it, and `IsNullContext` for the one call that
-- the manual leaves open.
use Prim.Native.Nat.{compare}
use scilla.Base.{
  ℕ, ◌+◌, ◌-◌, ◌*◌, ◌%◌, ◌^◌, ◌≤◌, ◌<◌, ◌≡◌, ◌≢◌, ◌↔◌, Bool, true, false, none, some, length, All,
  [], ◌++◌, ◌==◌,
}
use scilla.Base.Bytes.{Bytes, IsByte, be}
use scilla.OpenSsl.{OpenSsl}

-- What OpenSSL's values stand for: a BIGNUM has a magnitude (and a sign, which it shows), a point is
-- an element of the group, an octet string encodes an element, a hash context has taken in bytes.
-- `survives x n` says that BN_nnmod of the numbers x and n returns although its BN_CTX is NULL.
pub record Meaning (ssl : OpenSsl) : Type 1 where
  pub magnitude : ssl.Bignum → ℕ
  pub Element : Type 0
  pub infinity : Element
  pub plus : Element → Element → Element
  pub times : ℕ → Element → Element
  pub generator : Element
  pub order : ℕ
  pub element : ssl.Point → Element
  pub encode : Element → Bytes
  pub absorbed : ssl.Sha256 → Bytes
  pub digest : Bytes → Bytes
  pub survives : ℕ → ℕ → Bool

-- A BIGNUM that holds the number `n`.
pub record Holds {ssl : OpenSsl} (m : Meaning ssl) (b : ssl.Bignum) (n : ℕ) : Type 0 where
  pub not_negative : ssl.bn_is_negative b ≡ false
  pub value : m.magnitude b ≡ n

-- The multiples of the generator of secp256k1 are a group of `order` elements.
pub record IsCyclic {ssl : OpenSsl} (m : Meaning ssl) : Type 0 where
  pub order_pos : 0 < m.order
  pub order_fits : m.order < 256 ^ 32
  pub plus-infinity : (x : m.Element) → m.plus x m.infinity ≡ x
  pub times-infinity : (a : ℕ) → m.times a m.infinity ≡ m.infinity
  pub times-add : (a b : ℕ) (x : m.Element) → m.times (a + b) x ≡ m.plus (m.times a x) (m.times b x)
  pub times-mul : (a b : ℕ) (x : m.Element) → m.times (a * b) x ≡ m.times a (m.times b x)
  pub times-order : m.times m.order m.generator ≡ m.infinity
  -- No smaller multiple of the generator is the point at infinity.
  pub times-ne-infinity : (a : ℕ) → 0 < a → a < m.order → m.times a m.generator ≢ m.infinity

module _ (ssl : OpenSsl) (m : Meaning ssl) where
  open ssl use {
    Bignum, World, bn_copy, bn_bin2bn, bn_bin2bn_into, bn_num_bytes, bn_bn2bin, bn_cmp, bn_is_zero,
    bn_rand_range, bn_generate_dsa_nonce, bn_nnmod, bn_mod_mul, bn_mod_sub, Group, Point, Sha256,
    ec_group_get_order, ec_point_copy, ec_point_mul, ec_point_is_at_infinity, ec_point_point2oct,
    ec_point_point2bn, ec_point_bn2point, sha256_init, sha256_update, sha256_final,
  }

  -- BIGNUM arithmetic: each call that reports success has left the documented number.
  pub record IsBignum : Type 1 where
    pub copy :
        (d b : Bignum) (n : ℕ) (w : World)
        → Holds m b n
        → (bn_copy d b w).0.0 ≡ true
        → Holds m (bn_copy d b w).0.1 n
    pub bin2bn :
        (bs : Bytes) (b : Bignum) (w : World)
        → All IsByte bs
        → (bn_bin2bn bs w).0 ≡ some b
        → Holds m b (be bs)
    pub bin2bn_into :
        (bs : Bytes) (d : Bignum) (w : World)
        → All IsByte bs
        → (bn_bin2bn_into bs d w).0.0 ≡ true
        → Holds m (bn_bin2bn_into bs d w).0.1 (be bs)
    pub num_bytes : (b : Bignum) (n k : ℕ) → Holds m b n → n < 256 ^ k → bn_num_bytes b ≤ k
    pub length-bn2bin : (b : Bignum) → length (bn_bn2bin b) ≡ bn_num_bytes b
    pub bn2bin-IsByte : (b : Bignum) → All IsByte (bn_bn2bin b)
    pub be-bn2bin : (b : Bignum) (n : ℕ) → Holds m b n → be (bn_bn2bin b) ≡ n
    pub cmp : (a b : Bignum) (x y : ℕ) → Holds m a x → Holds m b y → bn_cmp a b ≡ compare x y
    pub is_zero : (b : Bignum) (n : ℕ) → Holds m b n → bn_is_zero b ≡ (n == 0)
    pub rand_range :
        (d b : Bignum) (n : ℕ) (w : World)
        → Holds m b n
        → 0 < n
        → (bn_rand_range d b w).0.0 ≡ true
        → (k : ℕ) × Holds m (bn_rand_range d b w).0.1 k × (k < n)
    pub dsa_nonce :
        (d b key : Bignum) (msg : Bytes) (n : ℕ) (w : World)
        → Holds m b n
        → 0 < n
        → (bn_generate_dsa_nonce d b key msg w).0.0 ≡ true
        → (k : ℕ) × Holds m (bn_generate_dsa_nonce d b key msg w).0.1 k × (k < n)
    pub nnmod :
        (d a b : Bignum) (x n : ℕ) (w : World)
        → Holds m a x
        → Holds m b n
        → 0 < n
        → (bn_nnmod d a b w).0.0 ≡ true
        → Holds m (bn_nnmod d a b w).0.1 (x % n)
    pub mod_mul :
        (d a b c : Bignum) (x y n : ℕ) (w : World)
        → Holds m a x
        → Holds m b y
        → Holds m c n
        → 0 < n
        → (bn_mod_mul d a b c w).0.0 ≡ true
        → Holds m (bn_mod_mul d a b c w).0.1 (x * y % n)
    pub mod_sub :
        (d a b c : Bignum) (x y n : ℕ) (w : World)
        → Holds m a x
        → Holds m b y
        → Holds m c n
        → 0 < n
        → (bn_mod_sub d a b c w).0.0 ≡ true
        → Holds m (bn_mod_sub d a b c w).0.1 ((x + n - y % n) % n)

  -- Points, their octets, and the hash. The point at infinity has an encoding of one octet, every
  -- other point one of 33, whose first octet is 2 or 3. Numbers of more than 33 bytes may be other
  -- encodings of a point: nothing is said of them.
  pub record IsCurve : Type 1 where
    pub get_order :
        (g : Group) (d : Bignum) (w : World)
        → (ec_group_get_order g d w).0.0 ≡ true
        → Holds m (ec_group_get_order g d w).0.1 m.order
    pub point_copy :
        (d p : Point) (w : World)
        → (ec_point_copy d p w).0.0 ≡ true
        → m.element (ec_point_copy d p w).0.1 ≡ m.element p
    pub mul :
        (g : Group) (d : Point) (b : Bignum) (n : ℕ) (w : World)
        → Holds m b n
        → (ec_point_mul g d b none w).0.0 ≡ true
        → m.element (ec_point_mul g d b none w).0.1 ≡ m.times n m.generator
    pub mul_add :
        (g : Group) (d p : Point) (b c : Bignum) (x y : ℕ) (w : World)
        → Holds m b x
        → Holds m c y
        → (ec_point_mul g d b (some (p, c)) w).0.0 ≡ true
        → m.element (ec_point_mul g d b (some (p, c)) w).0.1
          ≡ m.plus (m.times x m.generator) (m.times y (m.element p))
    pub at_infinity :
        (g : Group) (p : Point) → (ec_point_is_at_infinity g p ≡ true) ↔ (m.element p ≡ m.infinity)
    pub point2oct :
        (g : Group) (p : Point) (w : World)
        → length (ec_point_point2oct g p w).0 ≡ 33
        → (ec_point_point2oct g p w).0 ≡ m.encode (m.element p)
    pub encode_size : (x : m.Element) → x ≢ m.infinity → length (m.encode x) ≡ 33
    pub encode-IsByte : (x : m.Element) → All IsByte (m.encode x)
    pub encode_fits : (x : m.Element) → be (m.encode x) < 256 ^ 33
    pub encode-injective : (x y : m.Element) → be (m.encode x) ≡ be (m.encode y) → x ≡ y
    pub point2bn :
        (g : Group) (p : Point) (b : Bignum) (w : World)
        → (ec_point_point2bn g p w).0 ≡ some b
        → Holds m b (be (m.encode (m.element p)))
    pub bn2point :
        (g : Group) (b : Bignum) (n : ℕ) (p : Point) (w : World)
        → Holds m b n
        → n < 256 ^ 33
        → (ec_point_bn2point g b w).0 ≡ some p
        → be (m.encode (m.element p)) ≡ n
    pub absorbed-init : m.absorbed sha256_init ≡ []
    pub absorbed-update :
        (c : Sha256) (bs : Bytes) → m.absorbed (sha256_update c bs) ≡ m.absorbed c ++ bs
    pub final-digest : (c : Sha256) → sha256_final c ≡ m.digest (m.absorbed c)
    pub digest_size : (bs : Bytes) → length (m.digest bs) ≡ 32
    pub digest-IsByte : (bs : Bytes) → All IsByte (m.digest bs)

-- Not in the manual, which leaves a BN_CTX that is NULL open: whether BN_nnmod gets along without one is
-- a matter of its two numbers, and of nothing else. Nothing is said of which numbers those are.
pub record IsNullContext (ssl : OpenSsl) (m : Meaning ssl) : Type 0 where
  pub by_numbers :
      (a b : ssl.Bignum) (x n : ℕ)
      → Holds m a x
      → Holds m b n
      → ssl.bn_nnmod_survives a b ≡ m.survives x n

-- The documented behaviour in one record, and that of BN_nnmod without a BN_CTX.
pub record Documented (ssl : OpenSsl) (m : Meaning ssl) : Type 1 where
  pub cyclic : IsCyclic m
  pub bignum : IsBignum ssl m
  pub curve : IsCurve ssl m
  pub null_context : IsNullContext ssl m
