-- ===== src/OpenSsl/Reliable.antt =====
-- A run in which no call of OpenSSL fails. By the manual these calls fail only where memory runs out,
-- a modulus is 0 or a point that is encoded or decoded is the one at infinity. BN_nnmod is meant with
-- an allocated BN_CTX, as the manual wants it.
use scilla.Base.{ℕ, ◌<◌, ◌≡◌, ◌≢◌, Option, true, some, length}
use scilla.Base.Bytes.{Bytes, be}
use scilla.OpenSsl.{OpenSsl}
use scilla.OpenSsl.Documented.{Meaning, Holds}

pub record IsReliable (ssl : OpenSsl) (m : Meaning ssl) : Type 0 where
  pub new_some : (w : ssl.World) → (b : ssl.Bignum) × ((ssl.bn_new w).0 ≡ some b)
  pub ctx_some : (w : ssl.World) → (ssl.bn_ctx_new w).0 ≡ some tt
  pub point_some :
      (g : ssl.Group) (w : ssl.World) → (p : ssl.Point) × ((ssl.ec_point_new g w).0 ≡ some p)
  pub read_some :
      (bs : Bytes) (w : ssl.World) → (b : ssl.Bignum) × ((ssl.bn_bin2bn bs w).0 ≡ some b)
  pub copied : (d b : ssl.Bignum) (w : ssl.World) → (ssl.bn_copy d b w).0.0 ≡ true
  pub point_copied : (d p : ssl.Point) (w : ssl.World) → (ssl.ec_point_copy d p w).0.0 ≡ true
  pub encoded :
      (g : ssl.Group) (p : ssl.Point) (w : ssl.World)
      → (b : ssl.Bignum) × ((ssl.ec_point_point2bn g p w).0 ≡ some b)
  pub decoded :
      (g : ssl.Group) (b : ssl.Bignum) (x : m.Element) (w : ssl.World)
      → Holds m b (be (m.encode x))
      → x ≢ m.infinity
      → (p : ssl.Point) × ((ssl.ec_point_bn2point g b w).0 ≡ some p)
  pub built : (bs : Bytes) (d : ssl.Bignum) (w : ssl.World) → (ssl.bn_bin2bn_into bs d w).0.0 ≡ true
  pub reduced :
      (d a b : ssl.Bignum) (n : ℕ) (w : ssl.World)
      → Holds m b n
      → 0 < n
      → (ssl.bn_nnmod d a b w).0.0 ≡ true
  pub product_reduced :
      (d a b c : ssl.Bignum) (n : ℕ) (w : ssl.World)
      → Holds m c n
      → 0 < n
      → (ssl.bn_mod_mul d a b c w).0.0 ≡ true
  pub difference_reduced :
      (d a b c : ssl.Bignum) (n : ℕ) (w : ssl.World)
      → Holds m c n
      → 0 < n
      → (ssl.bn_mod_sub d a b c w).0.0 ≡ true
  pub multiplied :
      (g : ssl.Group) (d : ssl.Point) (b : ssl.Bignum) (o : Option (ssl.Point × ssl.Bignum))
      (w : ssl.World)
      → (ssl.ec_point_mul g d b o w).0.0 ≡ true
  pub converted :
      (g : ssl.Group) (p : ssl.Point) (w : ssl.World)
      → m.element p ≢ m.infinity
      → length (ssl.ec_point_point2oct g p w).0 ≡ 33
