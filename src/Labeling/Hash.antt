-- ===== src/Labeling/Hash.antt =====
-- The hash functions of Labeling/myhash.c, on numbers of 32 bits.
use Prim.Native.Nat.{bit_xor}
use bgpmon.Base.{ℕ, ◌+◌, ◌*◌, ◌/◌, ◌%◌, ◌^◌, List, [], ◌∷◌}

abbrev pub word : ℕ
word = 2 ^ 32

-- One byte of the key: added, then the sum shifted left by 10 and added, then shifted right by 6.
abbrev pub mix : ℕ → ℕ → ℕ
mix hash_val key =
    let a = (hash_val + key) % word in let b = (a + a * 2 ^ 10) % word in bit_xor b (b / 2 ^ 6)

abbrev pub mix_all : List ℕ → ℕ → ℕ
mix_all [] hash_val = hash_val
mix_all (key ∷ keys) hash_val = mix_all keys (mix hash_val key)

abbrev pub finish : ℕ → ℕ
finish hash_val =
    let a = (hash_val + hash_val * 2 ^ 3) % word in
    let b = bit_xor a (a / 2 ^ 11) in (b + b * 2 ^ 15) % word

-- The two functions of the file have the same body.
unfoldable pub prefix_hash : List ℕ → ℕ → ℕ
prefix_hash key table_size = finish (mix_all key 0) % table_size

unfoldable pub attr_hash : List ℕ → ℕ → ℕ
attr_hash key table_size = finish (mix_all key 0) % table_size
