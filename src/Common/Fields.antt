-- ===== src/Common/Fields.antt =====
-- Reads after writes: what a field holds after it, or another field, was stored.
use native.Mathlib.Nat.{pow-suc, add-zero}
use mathlib.Core.Path.{subst₂}
use labdb.Prelude.{
  ℕ, zero, suc, ◌+◌, ◌-◌, ◌/◌, ◌%◌, ◌^◌, ◌≤◌, ◌<◌, ◌≡◌, ◌⊎◌, inl, refl, arith, ap, ◌∙◌,
}
use labdb.Common.{Bytes, put, memcpy, load, store}

-- A byte outside of the stored field stays.
pub store-outside : (w : ℕ) (p : Bytes) (o v i : ℕ) → (i < o) ⊎ (o + w ≤ i) → store w p o v i ≡ p i
unfolding store put
store-outside zero p o v i h = refl
store-outside (suc w) p o v i h =
    ground (arith, store-outside w (put p o (v % 256)) (o + 1) (v / 256) i)

-- A field depends on its own bytes only.
pub load-congr :
    (w : ℕ) (p q : Bytes) (o : ℕ)
    → ((i : ℕ) → o ≤ i → i < o + w → p i ≡ q i)
    → load w p o ≡ load w q o
unfolding load
load-congr zero p q o h = refl
load-congr (suc w) p q o h = omega (
  arith,
  h o (omega arith) (omega arith),
  load-congr w p q (o + 1) (λ i l u. h i (omega arith) (omega arith)),
)

-- A field apart from the stored one stays.
pub load-store_apart :
    (w : ℕ) (p : Bytes) (o v w' o' : ℕ)
    → (o' + w' ≤ o) ⊎ (o + w ≤ o')
    → load w' (store w p o v) o' ≡ load w' p o'
load-store_apart w p o v w' o' h =
    load-congr w' (store w p o v) p o' (λ i l u. store-outside w p o v i (omega arith))

-- The stored field reads back, cut to its width.
pub load-store_self : (w : ℕ) (p : Bytes) (o v : ℕ) → v < 256 ^ w → load w (store w p o v) o ≡ v
unfolding load store put
load-store_self zero p o v h = omega arith
load-store_self (suc w) p o v h =
    let q = put p o (v % 256) in
    let fits : v / 256 < 256 ^ w = omega (arith, pow-suc 256 w) in
    ground (
      arith,
      store-outside w q (o + 1) (v / 256) o (inl (omega arith)),
      load-store_self w q (o + 1) (v / 256) fits,
    )

-- A field apart from the target of a copy stays.
pub load-memcpy_apart :
    (w : ℕ) (dst : Bytes) (at : ℕ) (src : Bytes) (from n o : ℕ)
    → (o + w ≤ at) ⊎ (at + n ≤ o)
    → load w (memcpy dst at src from n) o ≡ load w dst o
unfolding memcpy
load-memcpy_apart w dst at src from n o h =
    load-congr w (memcpy dst at src from n) dst o (λ i l u. ground arith)

pub memcpy-inside :
    (dst : Bytes) (at : ℕ) (src : Bytes) (from n i : ℕ)
    → at ≤ i
    → i < at + n
    → memcpy dst at src from n i ≡ src (i - at + from)
unfolding memcpy
memcpy-inside dst at src from n i l u = ground arith

pub memcpy-outside :
    (dst : Bytes) (at : ℕ) (src : Bytes) (from n i : ℕ)
    → (i < at) ⊎ (at + n ≤ i)
    → memcpy dst at src from n i ≡ dst i
unfolding memcpy
memcpy-outside dst at src from n i h = ground arith

-- Two fields are equal that hold the same bytes, wherever they stand.
pub load-shift :
    (w : ℕ) (p q : Bytes) (b o : ℕ)
    → ((k : ℕ) → k < w → p (b + k) ≡ q (o + k))
    → load w p b ≡ load w q o
unfolding load
load-shift zero p q b o h = refl
load-shift (suc w) p q b o h =
    let first : p b ≡ q o =
      subst₂ (λ x y. p x ≡ q y) (add-zero b) (add-zero o) (h 0 (omega arith)) in
    let rest : load w p (b + 1) ≡ load w q (o + 1) = load-shift w p q (b + 1) (o + 1) (λ k u.
      subst₂ (λ x y. p x ≡ q y) {x = b + suc k} (omega arith) (omega arith)
        (h (suc k) (omega arith))) in
    omega arith

-- A field inside the target of a copy is the field that was copied.
pub load-memcpy_inside :
    (w : ℕ) (dst : Bytes) (at : ℕ) (src : Bytes) (from n o o' : ℕ)
    → at ≤ o
    → o + w ≤ at + n
    → o + from ≡ o' + at
    → load w (memcpy dst at src from n) o ≡ load w src o'
load-memcpy_inside w dst at src from n o o' l u e =
    load-shift w (memcpy dst at src from n) src o o' (λ k v.
      memcpy-inside dst at src from n (o + k) (omega arith) (omega arith)
      ∙ ap src {x = o + k - at + from} {y = o' + k} (omega arith))
