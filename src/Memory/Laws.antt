-- ===== src/Memory/Laws.antt =====
-- What a load sees after a store.
use native.Mathlib.Nat.{pow-suc}
use yijinjing_lite.Prelude.{
  ℕ, zero, suc, ◌+◌, ◌/◌, ◌%◌, ◌^◌, ◌≤◌, ◌<◌, ◌≡◌, refl, ◌⊎◌, List, [], ◌∷◌, length, arith, leb,
  ◌||◌, true,
}
use yijinjing_lite.Memory.Defs.{Memory, poke, write_le, read_le, copy, bytes_at}

-- `b` lies outside the `n` bytes from `a` on.
abbrev pub Outside : ℕ → ℕ → ℕ → Type 0
Outside a n b = (b < a) ⊎ (a + n ≤ b)

pub write_le-Outside : (n : ℕ) (m : Memory) (a v b : ℕ) → Outside a n b → write_le n m a v b ≡ m b
unfolding write_le poke
write_le-Outside zero m a v b h = refl
write_le-Outside (suc n) m a v b h =
    ground (arith, write_le-Outside n (poke m a (v % 256)) (a + 1) (v / 256) b)

pub copy-Outside :
    (m : Memory) (a : ℕ) (xs : List ℕ) (b : ℕ) → Outside a (length xs) b → copy m a xs b ≡ m b
unfolding copy poke
copy-Outside m a [] b h = refl
copy-Outside m a (x ∷ xs) b h = ground (arith, copy-Outside (poke m a x) (a + 1) xs b)

-- Two memories that agree on the bytes of a field give the same value.
pub read_le_agree :
    (n : ℕ) (m m' : Memory) (a : ℕ)
    → ((b : ℕ) → a ≤ b → b < a + n → m b ≡ m' b)
    → read_le n m a ≡ read_le n m' a
unfolding read_le
read_le_agree zero m m' a h = refl
read_le_agree (suc n) m m' a h = omega (
  arith,
  h a (omega arith) (omega arith),
  read_le_agree n m m' (a + 1) (λ b lo hi. h b (omega arith) (omega arith)),
)

pub bytes_at_agree :
    (n : ℕ) (m m' : Memory) (a : ℕ)
    → ((b : ℕ) → a ≤ b → b < a + n → m b ≡ m' b)
    → bytes_at n m a ≡ bytes_at n m' a
unfolding bytes_at
bytes_at_agree zero m m' a h = refl
bytes_at_agree (suc n) m m' a h = cc (
  h a (omega arith) (omega arith),
  bytes_at_agree n m m' (a + 1) (λ b lo hi. h b (omega arith) (omega arith)),
)

pub read_le-write_le :
    (n : ℕ) (m : Memory) (a v : ℕ) → v < 256 ^ n → read_le n (write_le n m a v) a ≡ v
unfolding read_le write_le poke
read_le-write_le zero m a v h = omega arith
read_le-write_le (suc n) m a v h =
    let first = write_le-Outside n (poke m a (v % 256)) (a + 1) (v / 256) a (omega arith) in
    let rest =
      read_le-write_le n (poke m a (v % 256)) (a + 1) (v / 256)
        (let e = pow-suc 256 n in omega arith) in
    ground (arith, first, rest)

pub bytes_at-copy : (m : Memory) (a : ℕ) (xs : List ℕ) → bytes_at (length xs) (copy m a xs) a ≡ xs
unfolding bytes_at copy poke
bytes_at-copy m a [] = refl
bytes_at-copy m a (x ∷ xs) =
    let first = copy-Outside (poke m a x) (a + 1) xs a (omega arith) in
    ground (arith, first, bytes_at-copy (poke m a x) (a + 1) xs)

-- Two fields that do not overlap do not disturb each other.
abbrev pub Apart : ℕ → ℕ → ℕ → ℕ → Type 0
Apart a n b k = (a + n ≤ b) ⊎ (b + k ≤ a)

pub read_le-write_le-Apart :
    (n k : ℕ) (m : Memory) (a b v : ℕ)
    → Apart a n b k
    → read_le n (write_le k m b v) a ≡ read_le n m a
read_le-write_le-Apart n k m a b v h =
    read_le_agree n (write_le k m b v) m a (λ c lo hi. write_le-Outside k m b v c (omega arith))

pub read_le-copy-Apart :
    (n : ℕ) (m : Memory) (a b : ℕ) (xs : List ℕ)
    → Apart a n b (length xs)
    → read_le n (copy m b xs) a ≡ read_le n m a
read_le-copy-Apart n m a b xs h =
    read_le_agree n (copy m b xs) m a (λ c lo hi. copy-Outside m b xs c (omega arith))

pub bytes_at-write_le-Apart :
    (n k : ℕ) (m : Memory) (a b v : ℕ)
    → Apart a n b k
    → bytes_at n (write_le k m b v) a ≡ bytes_at n m a
bytes_at-write_le-Apart n k m a b v h =
    bytes_at_agree n (write_le k m b v) m a (λ c lo hi. write_le-Outside k m b v c (omega arith))

pub bytes_at-copy-Apart :
    (n : ℕ) (m : Memory) (a b : ℕ) (xs : List ℕ)
    → Apart a n b (length xs)
    → bytes_at n (copy m b xs) a ≡ bytes_at n m a
bytes_at-copy-Apart n m a b xs h =
    bytes_at_agree n (copy m b xs) m a (λ c lo hi. copy-Outside m b xs c (omega arith))

-- The same for two fields of one struct, by a test that computes at their offsets.
pub field_apart :
    (n k : ℕ) (m : Memory) (f o o' v : ℕ)
    → (leb (o + n) o' || leb (o' + k) o) ≡ true
    → read_le n (write_le k m (f + o') v) (f + o) ≡ read_le n m (f + o)
field_apart n k m f o o' v h = read_le-write_le-Apart n k m (f + o) (f + o') v (ground arith)
