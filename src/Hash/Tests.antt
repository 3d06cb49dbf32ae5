-- ===== src/Hash/Tests.antt =====
-- Hashes of concrete words.
use struct.Base.{ℕ, ◌*◌, ◌/◌, ◌%◌, ◌^◌, ◌<◌, ◌≡◌, refl, arith, none, some}
use struct.Hash.{golden_ratio_prime_64, mix_64, hash_64, hash_32}
use struct.Hash.Laws.{hash_64_lem, hash_32_lem}

hash_64_value : hash_64 3 8 ≡ some 218
unfolding hash_64 mix_64
hash_64_value = refl

no_bits : hash_64 3 0 ≡ none
unfolding hash_64
no_bits = refl

hash_64_lem_example :
    (hash : ℕ) × (hash_64 3 8 ≡ some hash)
    × (hash ≡ 3 * golden_ratio_prime_64 % 2 ^ 64 / 2 ^ 56)
    × (hash < 2 ^ 8)
hash_64_lem_example = hash_64_lem 3 8 (omega arith) (omega arith) (omega arith)

small_hash_32 : (hash : ℕ) × (hash_32 3 8 ≡ some hash) × (hash < 2 ^ 8)
small_hash_32 = hash_32_lem 3 8 (omega arith) (omega arith)
