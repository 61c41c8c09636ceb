-- ===== src/Git/Pack/Sizes/RoundTrip.antt =====
-- The encodings of git, and that the readers undo them.
use native.Mathlib.Numerals.{towards_suc}
use native.Mathlib.Nat.{pow-suc}
use omoplata.Prelude.{
  ◌≡◌, ap, ◌∙◌, ℕ, zero, suc, ◌+◌, ◌*◌, ◌/◌, ◌%◌, ◌^◌, ◌<◌, ◌≤◌, some, [], ◌∷◌, ◌++◌, ltb, ltb→lt,
  ok, Bool-cases, inl, inr, arith, if◌then◌else◌,
}
use omoplata.Git.Bytes.{Bytes}
use omoplata.Git.Pack.Sizes.{
  max_object_size, u64_mod, checked_shl, delta_size_loop, read_delta_size,
}

-- Seven bits to a byte, the lowest first; the top bit of a byte says that another one follows.
unfoldable pub size_bytes : ℕ → ℕ → Bytes
size_bytes zero v = v ∷ []
size_bytes (suc k) v =
    let more = size_bytes k (v / 128) in if ltb v 128 then v ∷ [] else (v % 128 + 128) ∷ more

shift_step : (shift : ℕ) → 2 ^ (shift + 7) ≡ 128 * 2 ^ shift
shift_step shift = simp towards_suc (omega arith)

shl-small :
    (v shift : ℕ)
    → shift < 64
    → v * 2 ^ shift < u64_mod
    → checked_shl v shift ≡ some (v * 2 ^ shift)
shl-small v shift lo small =
    let same : v * 2 ^ shift % u64_mod ≡ v * 2 ^ shift = omega arith in ground (arith, same)

last_byte :
    (c size shift bits : ℕ) (rest : Bytes)
    → c < 128
    → checked_shl c shift ≡ some bits
    → delta_size_loop (c ∷ rest) size shift ≡ ok (size + bits, rest)
unfolding delta_size_loop
last_byte c size shift bits rest h e =
    let low : c % 128 ≡ c = omega arith in rw (delta_size_loop, low, e) (ground arith)

further_byte :
    (d size shift bits : ℕ) (rest : Bytes)
    → d < 128
    → checked_shl d shift ≡ some bits
    → size + bits ≤ max_object_size
    → delta_size_loop ((d + 128) ∷ rest) size shift ≡ delta_size_loop rest (size + bits) (shift + 7)
unfolding delta_size_loop
further_byte d size shift bits rest h e small =
    let low : (d + 128) % 128 ≡ d = omega arith in rw (delta_size_loop, low, e) (ground arith)

regroup : (q r p : ℕ) → r * p + q * (128 * p) ≡ (q * 128 + r) * p
regroup q r p = grind arith

-- The value in two parts, scaled.
split_value : (v p : ℕ) → v % 128 * p + v / 128 * (128 * p) ≡ v * p
split_value v p = regroup (v / 128) (v % 128) p ∙ ap (λ (t : ℕ). t * p) (omega arith)

delta_size_loop-size_bytes :
    (k v size shift : ℕ) (rest : Bytes)
    → v < 128 ^ suc k
    → shift + 7 * k < 64
    → size + v * 2 ^ shift ≤ max_object_size
    → delta_size_loop (size_bytes k v ++ rest) size shift ≡ ok (size + v * 2 ^ shift, rest)
unfolding size_bytes
delta_size_loop-size_bytes zero v size shift rest fits lo small =
    last_byte v size shift (v * 2 ^ shift) rest (omega arith)
      (shl-small v shift (omega arith) (omega arith))
delta_size_loop-size_bytes (suc k) v size shift rest fits lo small = elim (Bool-cases (ltb v 128)) [
  | inl one ↦ rw one (
      last_byte v size shift (v * 2 ^ shift) rest (ltb→lt v 128 one)
        (shl-small v shift (omega arith) (omega arith)))
  | inr more ↦
      let p = 2 ^ shift in
      let parts = split_value v p in
      let next = shift_step shift in
      let scaled : v / 128 * 2 ^ (shift + 7) ≡ v / 128 * (128 * p) =
        ap (λ (t : ℕ). v / 128 * t) next in
      rw more (
        further_byte (v % 128) size shift (v % 128 * p) (size_bytes k (v / 128) ++ rest)
          (omega arith) (shl-small (v % 128) shift (omega arith) (omega arith)) (omega arith)
        ∙ delta_size_loop-size_bytes k (v / 128) (size + v % 128 * p) (shift + 7) rest
            (omega (arith, pow-suc 128 (suc k))) (omega arith) (omega arith)
        ∙ ap (λ (t : ℕ). ok (t, rest)) (omega arith))
]

-- A size within the limit is read back from its encoding, and what follows it is left.
pub read_delta_size-size_bytes :
    (v : ℕ) (rest : Bytes)
    → v ≤ max_object_size
    → read_delta_size (size_bytes 8 v ++ rest) ≡ ok (v, rest)
unfolding read_delta_size
read_delta_size-size_bytes v rest small =
    delta_size_loop-size_bytes 8 v 0 0 rest (omega arith) (omega arith) (omega arith)
    ∙ ap (λ (t : ℕ). ok (t, rest)) (omega arith)
