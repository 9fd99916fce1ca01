-- ===== src/Files/Pool/Sizes.antt =====
-- file_delegate.rs: about the sizes of the pools.
use doka_one.Prelude.{
  ℕ, zero, suc, ◌+◌, ◌-◌, ◌*◌, ◌/◌, ◌%◌, ◌≤◌, ◌<◌, ◌≡◌, refl, ◌∙◌, List, [], ◌∷◌, length, ok, arith,
  All,
}
use doka_one.Files.Pool.{pool_sizes, compute_pool_size}

unfoldable pub sum : List ℕ → ℕ
sum [] = 0
sum (n ∷ ns) = n + sum ns

length-pool_sizes : (threads q r : ℕ) → length (pool_sizes threads q r) ≡ threads
unfolding pool_sizes
length-pool_sizes zero q r = refl
length-pool_sizes (suc t) q r = omega (arith, length-pool_sizes t q (r - 1))

sum-pool_sizes : (threads q r : ℕ) → r ≤ threads → sum (pool_sizes threads q r) ≡ threads * q + r
unfolding pool_sizes sum
sum-pool_sizes zero q r h = omega arith
sum-pool_sizes (suc t) q zero h = grind (arith, sum-pool_sizes t q 0 (omega arith))
sum-pool_sizes (suc t) q (suc r) h = grind (arith, sum-pool_sizes t q r (omega arith))

pool_sizes-even : (threads q r : ℕ) → All (λ n. (q ≤ n) × (n ≤ q + 1)) (pool_sizes threads q r)
unfolding pool_sizes
pool_sizes-even zero q r = tt
pool_sizes-even (suc t) q r = ((ground arith, ground arith), pool_sizes-even t q (r - 1))

-- With at least one thread, every thread gets a pool, the pools hold all parts and no more, and no
-- two of them differ by more than one part.
pub compute_pool_size-sizes :
    (threads parts : ℕ)
    → 0 < threads
    → (sizes : List ℕ) × (compute_pool_size threads parts ≡ ok sizes)
      × (length sizes ≡ threads)
      × (sum sizes ≡ parts)
      × All (λ n. (parts / threads ≤ n) × (n ≤ parts / threads + 1)) sizes
unfolding compute_pool_size
compute_pool_size-sizes threads parts h = (
  pool_sizes threads (parts / threads) (parts % threads),
  ground arith,
  length-pool_sizes threads (parts / threads) (parts % threads),
  sum-pool_sizes threads (parts / threads) (parts % threads) (grind arith) ∙ grind arith,
  pool_sizes-even threads (parts / threads) (parts % threads),
)
