-- ===== src/Util/Sketch.antt =====
-- The hash of src/util/sketch.h, and the positions that the sketches derive from it.
use Prim.Native.Nat.{bit_xor, bit_or}
use parameter_server.Base.{ℕ, ◌+◌, ◌*◌, ◌/◌, ◌%◌, ◌^◌}

abbrev pub u32_mod : ℕ
u32_mod = 2 ^ 32

-- h += w; h *= m; h ^= (h >> 16)
unfoldable pub hash_round : ℕ → ℕ → ℕ
hash_round h w = let x = ((h + w) % u32_mod) * 0xc6a4a793 % u32_mod in bit_xor x (x / 2 ^ 16)

-- hash(key)
unfoldable pub hash : ℕ → ℕ
unfolding hash_round
hash key =
    hash_round (hash_round (bit_xor 0xbc9f1d34 (8 * 0xc6a4a793 % u32_mod)) (key % u32_mod))
      (key / u32_mod)

-- (h >> 17) | (h << 15)
unfoldable pub delta_of : ℕ → ℕ
delta_of h = bit_or (h / 2 ^ 17) (h * 2 ^ 15 % u32_mod)

-- h += delta
unfoldable pub advance : ℕ → ℕ → ℕ
advance delta h = (h + delta) % u32_mod
