-- ===== src/Slotted/Invariant.antt =====
-- The well-formedness of a slotted page, and what the writes of the directory leave alone.
use native.Mathlib.Nat.{le-suc_iff}
use labdb.Prelude.{
  ℕ, zero, suc, ◌+◌, ◌*◌, ◌≤◌, ◌<◌, ◌≡◌, ◌≢◌, ◌⊎◌, inl, inr, refl, arith, if◌then◌else◌, ◌==◌, ◌∙◌,
}
use labdb.Common.{load, store_u16}
use labdb.Common.Fields.{load-congr, store-outside, load-store_apart, load-store_self}
use labdb.Page.{Page, page_size, slot_count, free_start, free_end, frag_bytes}
use labdb.Slotted.{slot_pos, slot_off, slot_len, set_slot}

abbrev pub live_len : Page → ℕ → ℕ
live_len p i = if slot_off p i == 0 then 0 else slot_len p i

-- The bytes of the live cells among the first slots.
unfoldable pub live_bytes : Page → ℕ → ℕ
live_bytes p zero = 0
live_bytes p (suc i) = live_bytes p i + live_len p i

pub live_bytes_mono : (p : Page) (i n : ℕ) → i ≤ n → live_bytes p i ≤ live_bytes p n
unfolding live_bytes
live_bytes_mono p i zero h = let e : i ≡ 0 = omega arith in rw e (omega arith)
live_bytes_mono p i (suc n) h = elim (le-suc_iff.0 h) [
  | inl l ↦ omega (arith, live_bytes_mono p i n l)
  | inr e ↦ rw e (omega arith)
]

-- The sum depends on the slots alone.
pub live_bytes-congr :
    (p q : Page) (n : ℕ)
    → ((j : ℕ) → j < n → live_len p j ≡ live_len q j)
    → live_bytes p n ≡ live_bytes q n
unfolding live_bytes
live_bytes-congr p q zero h = refl
live_bytes-congr p q (suc n) h =
    omega (arith, h n (omega arith), live_bytes-congr p q n (λ j u. h j (omega arith)))

pub record CellFits (p : Page) (s : ℕ) : Type 0 where
  pub above : free_end p ≤ slot_off p s
  pub below : slot_off p s + slot_len p s ≤ page_size

-- The directory ends where `free_start` says, the cells stand in the cell area, and the dead bytes
-- of that area are exactly `frag_bytes`.
pub record IsValid (p : Page) : Type 0 where
  pub start : free_start p ≡ 20 + 4 * slot_count p
  pub room : free_start p ≤ free_end p
  pub end : free_end p ≤ page_size
  pub cells : (s : ℕ) → s < slot_count p → slot_off p s ≢ 0 → CellFits p s
  pub used : free_end p + frag_bytes p + live_bytes p (slot_count p) ≡ page_size

module _ (p : Page) (s off len : ℕ) where
  pub set_slot-outside :
      (i : ℕ) → (i < slot_pos s) ⊎ (slot_pos s + 4 ≤ i) → set_slot p s off len i ≡ p i
  unfolding set_slot
  set_slot-outside i h =
      store-outside 2 (store_u16 p (slot_pos s) off) (slot_pos s + 2) len i (omega arith)
      ∙ store-outside 2 p (slot_pos s) off i (omega arith)

  pub slot_off-set_slot : off < 65536 → slot_off (set_slot p s off len) s ≡ off
  unfolding set_slot
  slot_off-set_slot h =
      load-store_apart 2 (store_u16 p (slot_pos s) off) (slot_pos s + 2) len 2 (slot_pos s)
        (omega arith)
      ∙ load-store_self 2 p (slot_pos s) off h

  pub slot_len-set_slot : len < 65536 → slot_len (set_slot p s off len) s ≡ len
  unfolding set_slot
  slot_len-set_slot h = load-store_self 2 (store_u16 p (slot_pos s) off) (slot_pos s + 2) len h

  pub slot_off-set_slot_ne : (j : ℕ) → j ≢ s → slot_off (set_slot p s off len) j ≡ slot_off p j
  unfolding set_slot
  slot_off-set_slot_ne j h =
      load-store_apart 2 (store_u16 p (slot_pos s) off) (slot_pos s + 2) len 2 (slot_pos j)
        (omega arith)
      ∙ load-store_apart 2 p (slot_pos s) off 2 (slot_pos j) (omega arith)

  pub slot_len-set_slot_ne : (j : ℕ) → j ≢ s → slot_len (set_slot p s off len) j ≡ slot_len p j
  unfolding set_slot
  slot_len-set_slot_ne j h =
      load-store_apart 2 (store_u16 p (slot_pos s) off) (slot_pos s + 2) len 2 (slot_pos j + 2)
        (omega arith)
      ∙ load-store_apart 2 p (slot_pos s) off 2 (slot_pos j + 2) (omega arith)

  pub set_slot-field :
      (w o : ℕ)
      → (o + w ≤ slot_pos s) ⊎ (slot_pos s + 4 ≤ o)
      → load w (set_slot p s off len) o ≡ load w p o
  set_slot-field w o h =
      load-congr w (set_slot p s off len) p o (λ i l u. set_slot-outside i (omega arith))
