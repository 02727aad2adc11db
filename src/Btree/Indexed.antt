-- ===== src/Btree/Indexed.antt =====
-- Lists of the values of a function at successive indexes, and items put in and taken out.
use labdb.Prelude.{ℕ, zero, suc, ◌+◌, ◌≤◌, ◌<◌, ◌≡◌, refl, arith, ap, ap₂, ◌∙◌, List, [], ◌∷◌, ◌++◌}

-- f i, f (i + 1), …: `n` of them
unfoldable pub listed {ℓ} : {A : Type ℓ} → (ℕ → A) → ℕ → ℕ → List A
listed f i zero = []
listed f i (suc n) = f i ∷ listed f (i + 1) n

module _ {ℓ} {A : Type ℓ} where
  unfoldable pub insert_index : ℕ → A → List A → List A
  insert_index zero x l = x ∷ l
  insert_index (suc i) x [] = x ∷ []
  insert_index (suc i) x (y ∷ l) = y ∷ insert_index i x l

  unfoldable pub remove_index : ℕ → List A → List A
  remove_index i [] = []
  remove_index zero (y ∷ l) = l
  remove_index (suc i) (y ∷ l) = y ∷ remove_index i l

  pub listed-congr :
      (f g : ℕ → A) (a b n : ℕ)
      → ((k : ℕ) → k < n → f (a + k) ≡ g (b + k))
      → listed f a n ≡ listed g b n
  unfolding listed
  listed-congr f g a b zero h = refl
  listed-congr f g a b (suc n) h =
      ap₂ ◌∷◌ (ap f (omega arith) ∙ h 0 (omega arith) ∙ ap g {x = b + 0} {y = b} (omega arith)) (
        listed-congr f g (a + 1) (b + 1) n (λ k u.
          ap f {x = a + 1 + k} {y = a + suc k} (omega arith)
          ∙ h (suc k) (omega arith)
          ∙ ap g {x = b + suc k} {y = b + 1 + k} (omega arith)))

  pub listed-append :
      (f : ℕ → A) (a m n : ℕ) → listed f a (m + n) ≡ listed f a m ++ listed f (a + m) n
  unfolding listed
  listed-append f a zero n =
      ap (listed f a) {x = 0 + n} {y = n} (omega arith)
      ∙ ap (λ (i : ℕ). listed f i n) {x = a} {y = a + 0} (omega arith)
  listed-append f a (suc m) n =
      ap (listed f a) {x = suc m + n} {y = suc (m + n)} (omega arith)
      ∙ ap (λ l. f a ∷ l)
          (listed-append f (a + 1) m n
            ∙ ap (λ (i : ℕ). listed f (a + 1) m ++ listed f i n) {x = a + 1 + m} {y = a + suc m}
                (omega arith))

  -- A list with an item put in at place `i`.
  pub listed-insert_index :
      (f g : ℕ → A) (x : A) (a i n : ℕ)
      → i ≤ n
      → ((k : ℕ) → k < i → g (a + k) ≡ f (a + k))
      → g (a + i) ≡ x
      → ((k : ℕ) → i ≤ k → k < n → g (a + k + 1) ≡ f (a + k))
      → listed g a (suc n) ≡ insert_index i x (listed f a n)
  unfolding listed insert_index
  listed-insert_index f g x a zero n l before here after = ap₂ ◌∷◌ (ap g (omega arith) ∙ here) (
      listed-congr g f (a + 1) a n
        (λ k u. ap g {x = a + 1 + k} {y = a + k + 1} (omega arith) ∙ after k (omega arith) u))
  listed-insert_index f g x a (suc i) zero l before here after = absurd (omega arith)
  listed-insert_index f g x a (suc i) (suc n) l before here after =
      ap₂ ◌∷◌ (ap g (omega arith) ∙ before 0 (omega arith) ∙ ap f {x = a + 0} {y = a} (omega arith))
        (listed-insert_index f g x (a + 1) i n (omega arith)
          (λ k u.
            ap g {x = a + 1 + k} {y = a + suc k} (omega arith)
            ∙ before (suc k) (omega arith)
            ∙ ap f {x = a + suc k} {y = a + 1 + k} (omega arith))
          (ap g {x = a + 1 + i} {y = a + suc i} (omega arith) ∙ here)
          (λ k u v.
            ap g {x = a + 1 + k + 1} {y = a + suc k + 1} (omega arith)
            ∙ after (suc k) (omega arith) (omega arith)
            ∙ ap f {x = a + suc k} {y = a + 1 + k} (omega arith)))

  -- A list with the item at place `i` taken out.
  pub listed-remove_index :
      (f g : ℕ → A) (a i n : ℕ)
      → i ≤ n
      → ((k : ℕ) → k < i → g (a + k) ≡ f (a + k))
      → ((k : ℕ) → i ≤ k → k < n → g (a + k) ≡ f (a + k + 1))
      → listed g a n ≡ remove_index i (listed f a (suc n))
  unfolding listed remove_index
  listed-remove_index f g a zero n l before after =
      listed-congr g f a (a + 1) n
        (λ k u. after k (omega arith) u ∙ ap f {x = a + k + 1} {y = a + 1 + k} (omega arith))
  listed-remove_index f g a (suc i) zero l before after = absurd (omega arith)
  listed-remove_index f g a (suc i) (suc n) l before after =
      ap₂ ◌∷◌ (ap g (omega arith) ∙ before 0 (omega arith) ∙ ap f {x = a + 0} {y = a} (omega arith))
        (listed-remove_index f g (a + 1) i n (omega arith)
          (λ k u.
            ap g {x = a + 1 + k} {y = a + suc k} (omega arith)
            ∙ before (suc k) (omega arith)
            ∙ ap f {x = a + suc k} {y = a + 1 + k} (omega arith))
          (λ k u v.
            ap g {x = a + 1 + k} {y = a + suc k} (omega arith)
            ∙ after (suc k) (omega arith) (omega arith)
            ∙ ap f {x = a + suc k + 1} {y = a + 1 + k + 1} (omega arith)))
