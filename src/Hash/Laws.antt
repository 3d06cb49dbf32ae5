-- ===== src/Hash/Laws.antt =====
-- What the hashes compute, and their ranges.
use struct.Base.{
  ℕ, zero, suc, ◌+◌, ◌-◌, ◌*◌, ◌/◌, ◌%◌, ◌^◌, ◌≤◌, ◌<◌, ◌≡◌, ◌∙◌, refl, sym, ap, subst, arith, some,
  true, leb, ◌&&◌,
}
use native.Mathlib.Nat.{div-lt_iff_lt-mul, pow-suc, one-le-pow}
use struct.Hash.{golden_ratio_prime_32, golden_ratio_prime_64, mix_64, hash_64, hash_32}

-- The shifts and additions of hash_64 multiply by GOLDEN_RATIO_PRIME_64, modulo 2 ^ 64.
mix_64_lem : (val : ℕ) → val < 2 ^ 64 → mix_64 val ≡ val * golden_ratio_prime_64 % 2 ^ 64
unfolding mix_64
mix_64_lem val h = omega arith

pow_add : (b c : ℕ) → 2 ^ b * 2 ^ c ≡ 2 ^ (b + c)
pow_add b zero = let same : b + 0 ≡ b = omega arith in omega (arith, ap (λ e. 2 ^ e) same)
pow_add b (suc c) =
    let same : b + suc c ≡ suc (b + c) = omega arith in
    ap (λ w. 2 ^ b * w) (pow-suc 2 c)
    ∙ omega (arith, pow_add b c, pow-suc 2 (b + c), ap (λ e. 2 ^ e) same)

-- The high bits of a word.
high_bits : (w bits x : ℕ) → bits ≤ w → x < 2 ^ w → x / 2 ^ (w - bits) < 2 ^ bits
high_bits w bits x le lt =
    (div-lt_iff_lt-mul (one-le-pow (w - bits) 2 (omega arith))).1
      (subst (λ p. x < p) (sym (pow_add bits (w - bits) ∙ ap (λ e. 2 ^ e) (omega arith))) lt)

-- For 1 to 64 bits hash_64 has as many of the highest bits of the product of its argument with
-- GOLDEN_RATIO_PRIME_64, modulo 2 ^ 64, which its shifts and additions compute; so it is below
-- 2 ^ bits.
pub hash_64_lem :
    (val bits : ℕ)
    → val < 2 ^ 64
    → 0 < bits
    → bits ≤ 64
    → (hash : ℕ) × (hash_64 val bits ≡ some hash)
      × (hash ≡ val * golden_ratio_prime_64 % 2 ^ 64 / 2 ^ (64 - bits))
      × (hash < 2 ^ bits)
unfolding hash_64
hash_64_lem val bits lt pos le =
    let product = ap (λ m. m / 2 ^ (64 - bits)) (mix_64_lem val lt) in
    let defined : (leb 1 bits && leb bits 64) ≡ true = ground (arith, pos, le) in
    (
      mix_64 val / 2 ^ (64 - bits),
      rw defined refl,
      product,
      subst (λ q. q < 2 ^ bits) (sym product)
          (high_bits 64 bits (val * golden_ratio_prime_64 % 2 ^ 64) le (omega arith)),
    )

-- For 1 to 32 bits hash_32 is below 2 ^ bits.
pub hash_32_lem :
    (val bits : ℕ)
    → 0 < bits
    → bits ≤ 32
    → (hash : ℕ) × (hash_32 val bits ≡ some hash) × (hash < 2 ^ bits)
unfolding hash_32
hash_32_lem val bits pos le =
    let defined : (leb 1 bits && leb bits 32) ≡ true = ground (arith, pos, le) in
    (
      val * golden_ratio_prime_32 % 2 ^ 32 / 2 ^ (32 - bits),
      rw defined refl,
      high_bits 32 bits (val * golden_ratio_prime_32 % 2 ^ 32) le (omega arith),
    )
