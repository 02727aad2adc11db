-- ===== src/Slotted/Records.antt =====
-- What a page holds, as a map from slot ids to records: the view in which the operations are stated.
use mathlib.Core.Option
use labdb.Prelude.{
  ℕ, zero, suc, ◌+◌, ◌≤◌, ◌<◌, ◌≡◌, ◌≢◌, refl, arith, List, [], ◌∷◌, Option, none, some, ap,
  ltb-true, ltb-false, ==_ne, ltb, ◌==◌, Bool-cases, inl, inr,
}
use mathlib.Core.Path.{ap₂, subst₂}
use native.Mathlib.Nat.{add-zero}
use labdb.Common.{Bytes}
use labdb.Page.{Page, slot_count}
use labdb.Slotted.{Span, slot_off, slot_len, live, read}

-- The `n` bytes of `buf` from `at` on.
unfoldable pub bytes : Bytes → ℕ → ℕ → List ℕ
bytes buf at zero = []
bytes buf at (suc n) = buf at ∷ bytes buf (at + 1) n

unfoldable pub contents : Span → List ℕ
unfolding bytes
contents r = bytes r.buf r.at r.len

-- The bytes of the record under a slot id.
unfoldable pub record_at : Page → ℕ → Option (List ℕ)
unfolding read contents
record_at p slot = Option.map contents (read p slot)

pub bytes-congr :
    (p q : Bytes) (a b n : ℕ)
    → ((k : ℕ) → k < n → p (a + k) ≡ q (b + k))
    → bytes p a n ≡ bytes q b n
unfolding bytes
bytes-congr p q a b zero h = refl
bytes-congr p q a b (suc n) h =
    ap₂ ◌∷◌ (subst₂ (λ x y. p x ≡ q y) (add-zero a) (add-zero b) (h 0 (omega arith))) (
      bytes-congr p q (a + 1) (b + 1) n (λ k u.
        subst₂ (λ x y. p x ≡ q y) {x = a + suc k} (omega arith) (omega arith)
          (h (suc k) (omega arith))))

-- Slot `j` of `q` holds the record that slot `j` of `p` holds, perhaps elsewhere in the page.
pub record SameCell (p q : Page) (j : ℕ) : Type 0 where
  pub used : slot_off q j ≢ 0
  pub sized : slot_len q j ≡ slot_len p j
  pub same : (k : ℕ) → k < slot_len p j → q (slot_off q j + k) ≡ p (slot_off p j + k)

pub record_at-dead : (p : Page) (j : ℕ) → slot_off p j ≡ 0 → record_at p j ≡ none
unfolding record_at
record_at-dead p j e = elim (Bool-cases (ltb j (slot_count p))) [ inl b ↦ rw (e, b) | inr b ↦ rw b ]

pub record_at-beyond : (p : Page) (j : ℕ) → slot_count p ≤ j → record_at p j ≡ none
unfolding record_at
record_at-beyond p j h = rw (ltb-false j (slot_count p) h)

pub record_at-live :
    (p : Page) (j : ℕ)
    → j < slot_count p
    → slot_off p j ≢ 0
    → record_at p j ≡ some (bytes p (slot_off p j) (slot_len p j))
unfolding record_at
record_at-live p j u h = rw (ltb-true j (slot_count p) u, ==_ne (slot_off p j) 0 h)

pub record_at-SameCell :
    (p q : Page) (j : ℕ)
    → slot_off p j ≢ 0
    → j < slot_count p
    → j < slot_count q
    → SameCell p q j
    → record_at q j ≡ record_at p j
record_at-SameCell p q j live u v c =
    rw (record_at-live p j u live, record_at-live q j v c.used, c.sized)
      (ap some (bytes-congr q p (slot_off q j) (slot_off p j) (slot_len p j) c.same))

-- Pages with equally long directories, dead slots dead in both and equal cells, hold the same.
pub record_at-congr :
    (p q : Page) (j : ℕ)
    → slot_count q ≡ slot_count p
    → (slot_off p j ≡ 0 → slot_off q j ≡ 0)
    → (j < slot_count p → slot_off p j ≢ 0 → SameCell p q j)
    → record_at q j ≡ record_at p j
record_at-congr p q j n dead same = elim (Bool-cases (ltb j (slot_count p))) [
  | inr b ↦ rw (record_at-beyond p j (ground arith), record_at-beyond q j (ground arith))
  | inl b ↦ elim (Bool-cases (slot_off p j == 0)) [
    | inl z ↦ rw (record_at-dead p j (ground arith), record_at-dead q j (dead (ground arith)))
    | inr z ↦
        record_at-SameCell p q j (ground arith) (ground arith) (ground arith)
          (same (ground arith) (ground arith))
  ]
]
