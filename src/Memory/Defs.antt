-- ===== src/Memory/Defs.antt =====
-- Loads, stores and `memcpy`.
use yijinjing_lite.Prelude.{
  ℕ, zero, suc, ◌+◌, ◌-◌, ◌*◌, ◌/◌, ◌%◌, ◌^◌, List, [], ◌∷◌, Bool, ltb, ◌==◌, if◌then◌else◌,
}

-- The byte at each address.
abbrev pub Memory : Type 0
Memory = ℕ → ℕ

-- *(byte *)a = v
unfoldable pub poke : Memory → ℕ → ℕ → Memory
poke m a v b = if a == b then v else m b

-- A store of an unsigned field of `n` bytes.
unfoldable pub write_le : ℕ → Memory → ℕ → ℕ → Memory
write_le zero m a v = m
write_le (suc n) m a v = write_le n (poke m a (v % 256)) (a + 1) (v / 256)

-- A load of an unsigned field of `n` bytes.
unfoldable pub read_le : ℕ → Memory → ℕ → ℕ
read_le zero m a = 0
read_le (suc n) m a = m a + 256 * read_le n m (a + 1)

-- memcpy(a, bytes, length bytes)
unfoldable pub copy : Memory → ℕ → List ℕ → Memory
copy m a [] = m
copy m a (x ∷ xs) = copy (poke m a x) (a + 1) xs

-- The `n` bytes from `a` on.
unfoldable pub bytes_at : ℕ → Memory → ℕ → List ℕ
bytes_at zero m a = []
bytes_at (suc n) m a = m a ∷ bytes_at n m (a + 1)

-- ADDRESS_ADD: unsigned arithmetic on 64 bits.
unfoldable pub address_add : ℕ → ℕ → ℕ
address_add x delta = (x + delta) % 2 ^ 64

-- An `int` that is added to an address is sign-extended first.
unfoldable pub extend_int : ℕ → ℕ
extend_int w = if ltb w (2 ^ 31) then w else w + (2 ^ 64 - 2 ^ 32)

-- `<` on the two's complement patterns of `w` bits.
unfoldable pub int_lt : ℕ → ℕ → Bool
int_lt a b = ltb ((a + 2 ^ 31) % 2 ^ 32) ((b + 2 ^ 31) % 2 ^ 32)

unfoldable pub short_lt : ℕ → ℕ → Bool
short_lt a b = ltb ((a + 2 ^ 15) % 2 ^ 16) ((b + 2 ^ 15) % 2 ^ 16)

unfoldable pub int64_lt : ℕ → ℕ → Bool
int64_lt a b = ltb ((a + 2 ^ 63) % 2 ^ 64) ((b + 2 ^ 63) % 2 ^ 64)
