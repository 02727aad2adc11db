-- ===== src/JoinHash/Buckets.antt =====
-- The number of buckets.
use labdb.Prelude.{ℕ, ◌*◌, ◌≤◌, ◌<◌, ◌^◌, ◌≡◌, ◌⊎◌}

-- `nb` is a power of two that `n` fits in, and `n` does not fit in half of it.
pub record IsBucketCount (n nb : ℕ) : Type 0 where
  pub exponent : ℕ
  pub power : nb ≡ 2 ^ exponent
  pub room : n ≤ nb
  pub positive : 1 ≤ nb
  pub least : (nb ≡ 1) ⊎ (nb < n * 2)
