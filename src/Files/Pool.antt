-- ===== src/Files/Pool.antt =====
-- `compute_pool_size`.
pub mod Sizes
use doka_one.Prelude.{
  ℕ, zero, suc, ◌+◌, ◌-◌, ◌/◌, ◌%◌, List, [], ◌∷◌, ltb, ◌==◌, if◌then◌else◌, Outcome, ok, panic,
  Failure,
}

-- The loop over the threads: `q` each, and one more while `r` lasts.
unfoldable pub pool_sizes : ℕ → ℕ → ℕ → List ℕ
pool_sizes zero q r = []
pool_sizes (suc threads) q r = (q + (if ltb 0 r then 1 else 0)) ∷ pool_sizes threads q (r - 1)

-- A division by zero panics.
unfoldable pub compute_pool_size : ℕ → ℕ → Outcome Failure (List ℕ)
unfolding pool_sizes
compute_pool_size number_of_threads number_of_parts =
    if number_of_threads == 0
    then panic
    else ok (
        pool_sizes number_of_threads (number_of_parts / number_of_threads)
          (number_of_parts % number_of_threads))
