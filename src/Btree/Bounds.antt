-- ===== src/Btree/Bounds.antt =====
-- The binary searches in a node find the one place where the keys pass the wanted key.
use labdb.Prelude.{
  ℕ, zero, suc, ◌+◌, ◌/◌, ◌≤◌, ◌<◌, ◌≡◌, arith, Bool, true, false, leb, ltb, Bool-cases, inl, inr,
  ltb→lt,
}
use labdb.Page.{Page, slot_count}
use labdb.Btree.{
  bound_loop, leaf_key_at, key_at, lower_bound, upper_bound, child_index_for, first_child_for,
}

-- `r` cuts the first `n` indexes into those where the test holds and those where it does not.
pub record Splits (right : ℕ → Bool) (n r : ℕ) : Type 0 where
  pub within : r ≤ n
  pub below : (i : ℕ) → i < r → right i ≡ true
  pub above : (i : ℕ) → r ≤ i → i < n → right i ≡ false

module _ (right : ℕ → Bool) (n : ℕ)
    (down : (i j : ℕ) → i ≤ j → j < n → right j ≡ true → right i ≡ true) where
  up : (i j : ℕ) → i ≤ j → j < n → right i ≡ false → right j ≡ false
  up i j l u e = elim (Bool-cases (right j)) [ inl t ↦ absurd (cc (down i j l u t, e)) | inr f ↦ f ]

  bound_loop-Splits :
      (fuel lo hi : ℕ)
      → hi ≤ lo + fuel
      → lo ≤ hi
      → hi ≤ n
      → ((i : ℕ) → i < lo → right i ≡ true)
      → ((i : ℕ) → hi ≤ i → i < n → right i ≡ false)
      → Splits right n (bound_loop right fuel lo hi)
  unfolding bound_loop
  bound_loop-Splits zero lo hi f l u below above = record {
    within = omega arith;
    below = below;
    above = λ i a b. above i (omega arith) b;
  }
  bound_loop-Splits (suc fuel) lo hi f l u below above = elim (Bool-cases (ltb lo hi)) [
    | inr e ↦
        let done : hi ≤ lo = ground arith in
        rw (bound_loop, e)
          (record { within = omega arith; below = below; above = λ i a b. above i (omega arith) b })
    | inl e ↦
        let mid = (lo + hi) / 2 in
        let go : lo < hi = ltb→lt lo hi e in
        elim (Bool-cases (right mid)) [
          | inl t ↦
              rw (bound_loop, e, t)
                (bound_loop-Splits fuel (mid + 1) hi (omega arith) (omega arith) u
                  (λ i a. down i mid (omega arith) (omega arith) t) above)
          | inr t ↦
              rw (bound_loop, e, t)
                (bound_loop-Splits fuel lo mid (omega arith) (omega arith) (omega arith) below
                  (λ i a b. up mid i a b t))
        ]
  ]

  bound-Splits : Splits right n (bound_loop right n 0 n)
  bound-Splits =
      bound_loop-Splits n 0 n (omega arith) (omega arith) (omega arith)
        (λ i a. absurd (omega arith)) (λ i a b. absurd (omega arith))

abbrev pub IsSorted : (ℕ → ℕ) → ℕ → Type 0
IsSorted keys n = (i j : ℕ) → i ≤ j → j < n → keys i ≤ keys j

-- `r` is the first of `n` indexes whose key is not less than `k`, or `n`.
pub record IsLower (keys : ℕ → ℕ) (n k r : ℕ) : Type 0 where
  pub within : r ≤ n
  pub below : (i : ℕ) → i < r → keys i < k
  pub above : (i : ℕ) → r ≤ i → i < n → k ≤ keys i

-- `r` is the first of `n` indexes whose key is greater than `k`, or `n`.
pub record IsUpper (keys : ℕ → ℕ) (n k r : ℕ) : Type 0 where
  pub within : r ≤ n
  pub below : (i : ℕ) → i < r → keys i ≤ k
  pub above : (i : ℕ) → r ≤ i → i < n → k < keys i

module _ (keys : ℕ → ℕ) (n k : ℕ) (sorted : IsSorted keys n) where
  bound-IsLower : IsLower keys n k (bound_loop (λ mid. ltb (keys mid) k) n 0 n)
  bound-IsLower =
      let s =
        bound-Splits (λ mid. ltb (keys mid) k) n (λ i j l u e. ground (arith, sorted i j l u)) in
      record {
        within = s.within;
        below = λ i a. ground (arith, s.below i a);
        above = λ i a b. ground (arith, s.above i a b);
      }

  bound-IsUpper : IsUpper keys n k (bound_loop (λ mid. leb (keys mid) k) n 0 n)
  bound-IsUpper =
      let s =
        bound-Splits (λ mid. leb (keys mid) k) n (λ i j l u e. ground (arith, sorted i j l u)) in
      record {
        within = s.within;
        below = λ i a. ground (arith, s.below i a);
        above = λ i a b. ground (arith, s.above i a b);
      }

-- In a leaf whose keys are sorted, `lower_bound` is the first index with a key that is not less than
-- `k`, and `upper_bound` the first with a key that is greater; each is the count where there is none.
pub leaf-bounds :
    (p : Page) (k : ℕ)
    → IsSorted (leaf_key_at p) (slot_count p)
    → IsLower (leaf_key_at p) (slot_count p) k (lower_bound p k)
      × IsUpper (leaf_key_at p) (slot_count p) k (upper_bound p k)
unfolding lower_bound upper_bound
leaf-bounds p k sorted = (
  bound-IsLower (leaf_key_at p) (slot_count p) k sorted,
  bound-IsUpper (leaf_key_at p) (slot_count p) k sorted,
)

-- In an internal node whose keys are sorted, `child_index_for` goes past every separator that is not
-- greater than `k`, and `first_child_for` past every one that is less, and neither past another.
pub child-bounds :
    (p : Page) (k : ℕ)
    → IsSorted (key_at p) (slot_count p)
    → IsUpper (key_at p) (slot_count p) k (child_index_for p k)
      × IsLower (key_at p) (slot_count p) k (first_child_for p k)
unfolding child_index_for first_child_for
child-bounds p k sorted = (
  bound-IsUpper (key_at p) (slot_count p) k sorted,
  bound-IsLower (key_at p) (slot_count p) k sorted,
)
