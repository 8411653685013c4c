-- ===== src/OpenSsl.antt =====
-- The functions of OpenSSL that src/cpp calls, as an interface. OpenSSL is no part of the
-- repository: its types are opaque, and its documented behaviour is the record of
-- `OpenSsl.Documented`.
pub mod Documented
pub mod NullContext
pub mod Reliable
pub mod Toy
use Prim.Native.Nat.{Ordering}
use scilla.Base.{ℕ, Bool, Option, none, some, Outcome, undefined, Run, pure, call, if◌then◌else◌}
use scilla.Base.Bytes.{Bytes}

-- `World` is all that the calls read and change behind the program's back: the allocator and the
-- random number generator. A call that fills a destination takes its old value and returns the new
-- one, which is there on failure too. `Option` is a pointer that may be NULL. Two calls of the sources
-- are not documented: `bn_bin2bn_negative` is BN_bin2bn with a length below 0, and
-- `bn_nnmod_survives` tells whether BN_nnmod returns when it is handed NULL for its BN_CTX, which its
-- manual wants allocated.
pub record OpenSsl : Type 1 where
  pub World : Type 0
  pub Bignum : Type 0
  pub Group : Type 0
  pub Point : Type 0
  pub Sha256 : Type 0
  -- BIGNUM
  pub bn_new : World → Option Bignum × World
  pub bn_ctx_new : World → Option (Unit {0}) × World
  pub bn_copy : Bignum → Bignum → World → (Bool × Bignum) × World
  pub bn_bin2bn : Bytes → World → Option Bignum × World
  pub bn_bin2bn_negative : World → Option Bignum × World
  pub bn_bin2bn_into : Bytes → Bignum → World → (Bool × Bignum) × World
  pub bn_num_bytes : Bignum → ℕ
  pub bn_bn2bin : Bignum → Bytes
  pub bn_cmp : Bignum → Bignum → Ordering
  pub bn_is_zero : Bignum → Bool
  pub bn_is_negative : Bignum → Bool
  pub bn_rand_range : Bignum → Bignum → World → (Bool × Bignum) × World
  pub bn_generate_dsa_nonce : Bignum → Bignum → Bignum → Bytes → World → (Bool × Bignum) × World
  pub bn_nnmod : Bignum → Bignum → Bignum → World → (Bool × Bignum) × World
  pub bn_nnmod_survives : Bignum → Bignum → Bool
  pub bn_mod_mul : Bignum → Bignum → Bignum → Bignum → World → (Bool × Bignum) × World
  pub bn_mod_sub : Bignum → Bignum → Bignum → Bignum → World → (Bool × Bignum) × World
  -- EC_GROUP and EC_POINT. `ec_point_mul` is q = nG, or q = nG + mP where P and m are given, and
  -- `ec_point_point2oct` gives the octets that it writes, compressed: none of them on failure.
  pub ec_group_new_by_curve_name : World → Option Group × World
  pub ec_group_get_order : Group → Bignum → World → (Bool × Bignum) × World
  pub ec_point_new : Group → World → Option Point × World
  pub ec_point_copy : Point → Point → World → (Bool × Point) × World
  pub ec_point_mul :
      Group → Point → Bignum → Option (Point × Bignum) → World → (Bool × Point) × World
  pub ec_point_is_at_infinity : Group → Point → Bool
  pub ec_point_point2oct : Group → Point → World → Bytes × World
  pub ec_point_point2bn : Group → Point → World → Option Bignum × World
  pub ec_point_bn2point : Group → Bignum → World → Option Point × World
  -- SHA256_CTX
  pub sha256_init : Sha256
  pub sha256_update : Sha256 → Bytes → Sha256
  pub sha256_final : Sha256 → Bytes

-- A pointer that is handed on to a function that does not take NULL.
abbrev pub deref : {W A : Type 0} → Option A → Run W A
deref none w = undefined
deref (some a) w = pure a w

-- BN_nnmod with NULL for its BN_CTX.
unfoldable pub bn_nnmod_null :
    (ssl : OpenSsl) → ssl.Bignum → ssl.Bignum → ssl.Bignum → Run ssl.World (Bool × ssl.Bignum)
bn_nnmod_null ssl d a b w =
    if ssl.bn_nnmod_survives a b then call (ssl.bn_nnmod d a b) w else undefined
