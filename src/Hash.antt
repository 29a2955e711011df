-- ===== src/Hash.antt =====
-- include/yijinjing/utils/Hash.hpp: MurmurHash2 on 32-bit words. A key is the list of its bytes,
-- fewer than 2 ^ 31 of them, so that the parameter `len` is the length of the list.
pub mod Bounds
use Prim.Native.Nat.{bit_xor}
use yijinjing_lite.Prelude.{ℕ, ◌+◌, ◌*◌, ◌/◌, ◌%◌, ◌^◌, List, [], ◌∷◌, length}

abbrev m : ℕ
m = 0x5bd1e995

-- a * m on `unsigned int`
times_m : ℕ → ℕ
times_m a = (a * m) % 2 ^ 32

-- *(unsigned int *)data, little-endian
word_of : ℕ → ℕ → ℕ → ℕ → ℕ
word_of a b c d = a + 2 ^ 8 * b + 2 ^ 16 * c + 2 ^ 24 * d

-- k *= m; k ^= k >> r; k *= m;
scramble : ℕ → ℕ
unfolding times_m
scramble k = let k1 = times_m k in times_m (bit_xor k1 (k1 / 2 ^ 24))

-- h *= m; h ^= k;
mix : ℕ → ℕ → ℕ
unfolding times_m scramble
mix h k = bit_xor (times_m h) (scramble k)

-- The words of the key by the loop, then the last bytes by the fall-through cases of the switch.
absorb : ℕ → List ℕ → ℕ
unfolding mix word_of times_m
absorb h (a ∷ b ∷ c ∷ d ∷ rest) = absorb (mix h (word_of a b c d)) rest
absorb h (a ∷ b ∷ c ∷ []) = times_m (bit_xor (bit_xor (bit_xor h (c * 2 ^ 16)) (b * 2 ^ 8)) a)
absorb h (a ∷ b ∷ []) = times_m (bit_xor (bit_xor h (b * 2 ^ 8)) a)
absorb h (a ∷ []) = times_m (bit_xor h a)
absorb h [] = h

-- h ^= h >> 13; h *= m; h ^= h >> 15;
finish : ℕ → ℕ
unfolding times_m
finish h = let h1 = times_m (bit_xor h (h / 2 ^ 13)) in bit_xor h1 (h1 / 2 ^ 15)

unfoldable pub murmur_hash2 : List ℕ → ℕ → ℕ
unfolding absorb finish
murmur_hash2 key seed = finish (absorb (bit_xor seed (length key)) key)
