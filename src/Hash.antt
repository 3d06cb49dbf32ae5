-- ===== src/Hash.antt =====
-- The multiplicative hashes of hash.h, on machine words with their wrap-around written out. The
-- build is for 64-bit longs, `BITS_PER_LONG == 64`.
pub mod Laws
mod Tests
use struct.Base.{ℕ, ◌+◌, ◌-◌, ◌*◌, ◌/◌, ◌%◌, ◌^◌, Option, none, some, leb, ◌&&◌, if◌then◌else◌}
use Prim.Native.Nat.{bit_xor}

abbrev pub golden_ratio_prime_32 : ℕ
golden_ratio_prime_32 = 2654404609

abbrev pub golden_ratio_prime_64 : ℕ
golden_ratio_prime_64 = 11400862456688148481

-- `n <<= s`, `hash += n` and `hash -= n` on `u64`.
abbrev shl : ℕ → ℕ → ℕ
shl n s = n * 2 ^ s % 2 ^ 64

abbrev plus : ℕ → ℕ → ℕ
plus hash n = (hash + n) % 2 ^ 64

abbrev minus : ℕ → ℕ → ℕ
minus hash n = (hash + 2 ^ 64 - n) % 2 ^ 64

unfoldable pub mix_64 : ℕ → ℕ
mix_64 val =
    let n1 = shl val 18 in
    let n2 = shl n1 33 in
    let n3 = shl n2 3 in
    let n4 = shl n3 3 in
    let n5 = shl n4 4 in
    let n6 = shl n5 2 in plus (plus (minus (plus (minus (minus val n1) n2) n3) n4) n5) n6

-- `hash_64`; `>>` by 64 or more, where `bits` is 0 or above 64, is undefined, and `none`.
unfoldable pub hash_64 : (val bits : ℕ) → Option ℕ
hash_64 val bits = if leb 1 bits && leb bits 64 then some (mix_64 val / 2 ^ (64 - bits)) else none

-- `hash_32`; `>>` by 32 or more is undefined too.
unfoldable pub hash_32 : (val bits : ℕ) → Option ℕ
hash_32 val bits =
    if leb 1 bits && leb bits 32
    then some (val * golden_ratio_prime_32 % 2 ^ 32 / 2 ^ (32 - bits))
    else none

-- `hash_ptr`, by `hash_long` of 64-bit longs.
unfoldable pub hash_ptr : (ptr bits : ℕ) → Option ℕ
hash_ptr ptr bits = hash_64 ptr bits

unfoldable pub hash32_ptr : ℕ → ℕ
hash32_ptr ptr = bit_xor ptr (ptr / 2 ^ 32) % 2 ^ 32
