-- ===== src/Store/Repository/Paths.antt =====
-- The path of an object names its id.
use omoplata.Prelude.{
  ◌≡◌, refl, ap, sym, ◌∙◌, true, Option, none, some, [], ◌∷◌, All, length, ◌==◌, nat_eq, list_eq,
  eq→eq, eq_self, and-true, arith,
}
use omoplata.Git.Bytes.{Bytes, IsByte}
use omoplata.Git.Oid.{hex_encode, hex_pairs}
use omoplata.Git.Oid.Hex.{hex_pairs-hex_encode}
use omoplata.Store.Ids.{HashAlg, sha256, ObjectId, alg_str}
use omoplata.Store.Ids.RoundTrip.{IsId}
use omoplata.Store.Repository.{object_path, same_id}

pub alg_unique : (a b : HashAlg) → a ≡ b
alg_unique sha256 sha256 = refl

pub id_ext : (a b : ObjectId) → a.digest ≡ b.digest → a ≡ b
id_ext a b same =
    let build : HashAlg → Bytes → ObjectId = λ alg digest. record { alg = alg; digest = digest } in
    ap (λ (x : HashAlg). build x a.digest) (alg_unique a.alg b.alg) ∙ ap (build b.alg) same

pub same_id-eq : (a b : ObjectId) → same_id a b ≡ true → a ≡ b
same_id-eq a b h =
    id_ext a b (
      eq→eq a.digest b.digest
        (and-true (alg_str a.alg == alg_str b.alg) (a.digest == b.digest) h).1)

pub same_id_self : (a : ObjectId) → same_id a a ≡ true
same_id_self a = rw (eq_self (alg_str a.alg), eq_self a.digest)

-- The path gives the digest back.
abbrev path_digest : Bytes → Option Bytes
path_digest (s ∷ h ∷ a ∷ n ∷ i ∷ l ∷ slash ∷ c ∷ d ∷ sep ∷ rest) = hex_pairs (c ∷ d ∷ rest)
path_digest _ = none

path_digest-object_path :
    (alg : HashAlg) (digest : Bytes)
    → All IsByte digest
    → length digest ≡ 32
    → path_digest (object_path (record { alg = alg; digest = digest })) ≡ some digest
unfolding object_path hex_encode alg_str
path_digest-object_path alg [] small all = absurd (omega arith)
path_digest-object_path sha256 (b ∷ digest) small all = hex_pairs-hex_encode (b ∷ digest) small

some-inj : (a b : Bytes) → ◌≡◌ {A = Option Bytes} (some a) (some b) → a ≡ b
some-inj a b h = ground arith

-- Ids with a digest of 32 bytes have different paths.
pub object_path-inj : (a b : ObjectId) → IsId a → IsId b → object_path a ≡ object_path b → a ≡ b
object_path-inj a b (small, all) (small', all') same = id_ext a b (
    some-inj a.digest b.digest (
      sym (path_digest-object_path a.alg a.digest small all)
      ∙ ap path_digest same
      ∙ path_digest-object_path b.alg b.digest small' all'))
