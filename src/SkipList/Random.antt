-- ===== src/SkipList/Random.antt =====
-- moxt/skiplist/random.h: the generator of Lehmer, modulo 2^31 - 1, without a division.
use Prim.Native.Nat.{bit_and}
use moxt_cpp.Prelude.{
  ℕ, ◌+◌, ◌-◌, ◌*◌, ◌/◌, ◌%◌, ◌^◌, ◌<◌, ◌≡◌, ◌||◌, Bool, ltb, ◌==◌, if◌then◌else◌, arith,
}
use moxt_cpp.Prelude.Bits.{bit_and_mask}

-- `M`, `A`
abbrev pub modulus : ℕ
modulus = 2_147_483_647

abbrev pub multiplier : ℕ
multiplier = 16_807

-- `Random::Random`
unfoldable pub new_random : ℕ → ℕ
new_random s =
    let seed = bit_and s 0x7fff_ffff in if (seed == 0) || (seed == modulus) then 1 else seed

-- `(product >> 31) + (product & M)`, in uint32_t
unfoldable pub fold : ℕ → ℕ
fold product = (product / 2 ^ 31 + bit_and product modulus) % 2 ^ 32

-- `Next`: the new seed, which is the number returned.
unfoldable pub next : ℕ → ℕ
next seed =
    let folded = fold (seed * multiplier % 2 ^ 64) in
    if ltb modulus folded then folded - modulus else folded

-- `Uniform`, `OneIn`: the number and the new seed.
unfoldable pub uniform : ℕ → ℕ → ℕ × ℕ
uniform n seed = (next seed % n, next seed)

unfoldable pub one_in : ℕ → ℕ → Bool × ℕ
one_in n seed = (next seed % n == 0, next seed)

-- `Skewed`
unfoldable pub skewed : ℕ → ℕ → ℕ × ℕ
skewed max_log seed = let r = uniform (max_log + 1) seed in uniform (2 ^ r.0) r.1

abbrev pub IsSeed : ℕ → Type 0
IsSeed seed = (0 < seed) × (seed < modulus)

fold_lem : (product : ℕ) → product < 2 ^ 46 → fold product ≡ product / 2 ^ 31 + product % 2 ^ 31
unfolding fold
fold_lem product h = rw (bit_and_mask 31 product) (omega arith)

-- No multiple of the modulus comes up: the multiplier is prime to it.
no_multiple : (seed q : ℕ) → IsSeed seed → ¬ (seed * multiplier ≡ q * modulus)
no_multiple seed q h e = omega arith

-- One subtraction of the modulus is enough.
reduced :
    (seed : ℕ)
    → IsSeed seed
    → let folded = seed * multiplier / 2 ^ 31 + seed * multiplier % 2 ^ 31 in
      let result = if ltb modulus folded then folded - modulus else folded in
      (result ≡ seed * multiplier % modulus) × IsSeed result
reduced seed h = ground (arith, no_multiple seed (seed * multiplier / modulus))

-- From a seed between 1 and 2^31 - 2, the next one is the seed times 16807 modulo 2^31 - 1, and
-- lies between 1 and 2^31 - 2 again.
pub next-IsSeed :
    (seed : ℕ) → IsSeed seed → (next seed ≡ seed * multiplier % modulus) × IsSeed (next seed)
unfolding next
next-IsSeed seed h =
    let small : seed * multiplier % 2 ^ 64 ≡ seed * multiplier = omega arith in
    rw (small, fold_lem (seed * multiplier) (omega arith)) (reduced seed h)

-- Every seed that a generator is made from gives one of the numbers between 1 and 2^31 - 2.
pub new_random-IsSeed : (s : ℕ) → IsSeed (new_random s)
unfolding new_random
new_random-IsSeed s = rw (bit_and_mask 31 s) (ground arith)
