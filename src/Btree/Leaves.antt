-- ===== src/Btree/Leaves.antt =====
-- The operations on a leaf are the operations on the list of its entries.
use labdb.Prelude.{
  ℕ, suc, ◌+◌, ◌-◌, ◌*◌, ◌≤◌, ◌<◌, ◌^◌, ◌≡◌, ◌⊎◌, arith, ap, ap₂, sym, ◌∙◌, List, ◌++◌,
}
use labdb.Common.{load, store, memcpy}
use labdb.Common.Fields.{load-store_apart, load-store_self, load-memcpy_apart, load-memcpy_inside}
use labdb.Btree.Indexed.{
  listed, insert_index, remove_index, listed-congr, listed-append, listed-insert_index,
  listed-remove_index,
}
use labdb.Page.{Page, slot_count, set_slot_count}
use labdb.Btree.{
  leaf_max_entries, base, leaf_key_at, value_at, insert_at, erase_at, move_suffix_to, append_from,
}

abbrev pub Entry : Type 0
Entry = ℕ × ℕ

abbrev pub entry_at : Page → ℕ → Entry
entry_at p i = (leaf_key_at p i, value_at p i)

abbrev pub entries : Page → List Entry
entries p = listed (entry_at p) 0 (slot_count p)

-- A leaf's entries keep inside of the page.
abbrev pub FitsLeaf : Page → Type 0
FitsLeaf p = slot_count p ≤ leaf_max_entries

pub count-set : (p : Page) (n : ℕ) → n ≤ 65535 → slot_count (set_slot_count p n) ≡ n
count-set p n h = load-store_self 2 p 6 n (omega arith)

-- An entry's fields lie behind the header.
pub field-count : (p : Page) (n o : ℕ) → 8 ≤ o → load 8 (set_slot_count p n) o ≡ load 8 p o
field-count p n o h = load-store_apart 2 p 6 n 8 o (omega arith)

pub pair-eq : {a b c d : ℕ} → a ≡ c → b ≡ d → ◌≡◌ {A = Entry} (a, b) (c, d)
pair-eq h k = ap₂ (λ (x y : ℕ). (x, y)) h k

module _ (p : Page) (i k v : ℕ) (key : k < 2 ^ 64) (value : v < 2 ^ 64) where
  moved : Page
  moved = memcpy p (base (i + 1)) p (base i) ((slot_count p - i) * 16)

  stored_key : Page
  stored_key = store 8 moved (base i) k

  field-insert_at :
      (o : ℕ) → 20 ≤ o → load 8 (insert_at p i k v) o ≡ load 8 (store 8 stored_key (base i + 8) v) o
  unfolding insert_at stored_key moved
  field-insert_at o h = field-count _ (slot_count p + 1) o (omega arith)

  field_apart :
      (o : ℕ)
      → 20 ≤ o
      → (o + 8 ≤ base i) ⊎ (base (i + 1) ≤ o)
      → load 8 (insert_at p i k v) o ≡ load 8 moved o
  unfolding stored_key
  field_apart o h apart =
      field-insert_at o h
      ∙ load-store_apart 8 stored_key (base i + 8) v 8 o (omega arith)
      ∙ load-store_apart 8 moved (base i) k 8 o (omega arith)

  pub insert_at-before : (j : ℕ) → j < i → entry_at (insert_at p i k v) j ≡ entry_at p j
  unfolding moved
  insert_at-before j u =
      pair-eq
        (field_apart (base j) (omega arith) (omega arith)
          ∙ load-memcpy_apart 8 p (base (i + 1)) p (base i) ((slot_count p - i) * 16) (base j)
              (omega arith))
        (field_apart (base j + 8) (omega arith) (omega arith)
          ∙ load-memcpy_apart 8 p (base (i + 1)) p (base i) ((slot_count p - i) * 16) (base j + 8)
              (omega arith))

  pub insert_at_here : entry_at (insert_at p i k v) i ≡ (k, v)
  unfolding stored_key
  insert_at_here =
      pair-eq
        (field-insert_at (base i) (omega arith)
          ∙ load-store_apart 8 stored_key (base i + 8) v 8 (base i) (omega arith)
          ∙ load-store_self 8 moved (base i) k (omega arith))
        (field-insert_at (base i + 8) (omega arith)
          ∙ load-store_self 8 stored_key (base i + 8) v (omega arith))

  pub insert_at_after :
      (j : ℕ) → i ≤ j → j < slot_count p → entry_at (insert_at p i k v) (j + 1) ≡ entry_at p j
  unfolding moved
  insert_at_after j l u =
      pair-eq
        (field_apart (base (j + 1)) (omega arith) (omega arith)
          ∙ load-memcpy_inside 8 p (base (i + 1)) p (base i) ((slot_count p - i) * 16)
              (base (j + 1)) (base j) (omega arith) (omega arith) (omega arith))
        (field_apart (base (j + 1) + 8) (omega arith) (omega arith)
          ∙ load-memcpy_inside 8 p (base (i + 1)) p (base i) ((slot_count p - i) * 16)
              (base (j + 1) + 8) (base j + 8) (omega arith) (omega arith) (omega arith))

  pub count-insert_at :
      slot_count p < leaf_max_entries → slot_count (insert_at p i k v) ≡ slot_count p + 1
  unfolding insert_at
  count-insert_at h = count-set _ (slot_count p + 1) (omega arith)

  pub header-insert_at : (w o : ℕ) → o + w ≤ 6 → load w (insert_at p i k v) o ≡ load w p o
  unfolding insert_at
  header-insert_at w o h =
      load-store_apart 2 _ 6 (slot_count p + 1) w o (omega arith)
      ∙ load-store_apart 8 _ (base i + 8) v w o (omega arith)
      ∙ load-store_apart 8 _ (base i) k w o (omega arith)
      ∙ load-memcpy_apart w p (base (i + 1)) p (base i) ((slot_count p - i) * 16) o (omega arith)

-- Into a leaf that is not full, which the caller ensures, `insert_at` puts the entry at its place among
-- the entries.
pub entries-insert_at :
    (p : Page) (i k v : ℕ)
    → k < 2 ^ 64
    → v < 2 ^ 64
    → slot_count p < leaf_max_entries
    → i ≤ slot_count p
    → entries (insert_at p i k v) ≡ insert_index i (k, v) (entries p)
unfolding insert_index
entries-insert_at p i k v key value fits l =
    ap (listed (entry_at (insert_at p i k v)) 0) {y = suc (slot_count p)}
      (count-insert_at p i k v key value fits ∙ omega arith)
    ∙ listed-insert_index (entry_at p) (entry_at (insert_at p i k v)) (k, v) 0 i (slot_count p) l
        (λ j u.
          ap (entry_at (insert_at p i k v)) {x = 0 + j} {y = j} (omega arith)
          ∙ insert_at-before p i k v key value j u
          ∙ ap (entry_at p) (omega arith))
        (ap (entry_at (insert_at p i k v)) {x = 0 + i} {y = i} (omega arith)
          ∙ insert_at_here p i k v key value)
        (λ j a b.
          ap (entry_at (insert_at p i k v)) {x = 0 + j + 1} {y = j + 1} (omega arith)
          ∙ insert_at_after p i k v key value j a b
          ∙ ap (entry_at p) (omega arith))

module _ (p : Page) (i : ℕ) where
  closed_up : Page
  closed_up = memcpy p (base i) p (base (i + 1)) ((slot_count p - i - 1) * 16)

  field-erase_at : (o : ℕ) → 20 ≤ o → load 8 (erase_at p i) o ≡ load 8 closed_up o
  unfolding erase_at closed_up
  field-erase_at o h = field-count _ (slot_count p - 1) o (omega arith)

  erase_at-before : (j : ℕ) → j < i → entry_at (erase_at p i) j ≡ entry_at p j
  unfolding closed_up
  erase_at-before j u =
      let n = (slot_count p - i - 1) * 16 in
      pair-eq
        (field-erase_at (base j) (omega arith)
          ∙ load-memcpy_apart 8 p (base i) p (base (i + 1)) n (base j) (omega arith))
        (field-erase_at (base j + 8) (omega arith)
          ∙ load-memcpy_apart 8 p (base i) p (base (i + 1)) n (base j + 8) (omega arith))

  erase_at_after :
      (j : ℕ) → i ≤ j → j + 1 < slot_count p → entry_at (erase_at p i) j ≡ entry_at p (j + 1)
  unfolding closed_up
  erase_at_after j l u =
      let n = (slot_count p - i - 1) * 16 in
      pair-eq
        (field-erase_at (base j) (omega arith)
          ∙ load-memcpy_inside 8 p (base i) p (base (i + 1)) n (base j) (base (j + 1)) (omega arith)
              (omega arith) (omega arith))
        (field-erase_at (base j + 8) (omega arith)
          ∙ load-memcpy_inside 8 p (base i) p (base (i + 1)) n (base j + 8) (base (j + 1) + 8)
              (omega arith) (omega arith) (omega arith))

  count-erase_at : FitsLeaf p → slot_count (erase_at p i) ≡ slot_count p - 1
  unfolding erase_at
  count-erase_at h = count-set _ (slot_count p - 1) (omega arith)

-- From a leaf that is not over full, `erase_at` takes the entry at its place out of the entries.
pub entries-erase_at :
    (p : Page) (i : ℕ)
    → FitsLeaf p
    → i < slot_count p
    → entries (erase_at p i) ≡ remove_index i (entries p)
entries-erase_at p i fits u =
    let n = slot_count p - 1 in
    ap (listed (entry_at (erase_at p i)) 0) (count-erase_at p i fits)
    ∙ listed-remove_index (entry_at p) (entry_at (erase_at p i)) 0 i n (omega arith)
        (λ j v.
          ap (entry_at (erase_at p i)) {x = 0 + j} {y = j} (omega arith)
          ∙ erase_at-before p i j v
          ∙ ap (entry_at p) (omega arith))
        (λ j a b.
          ap (entry_at (erase_at p i)) {x = 0 + j} {y = j} (omega arith)
          ∙ erase_at_after p i j a (omega arith)
          ∙ ap (entry_at p) (omega arith))
    ∙ ap (λ m. remove_index i (listed (entry_at p) 0 m)) {x = suc n} {y = slot_count p}
        (omega arith)

pub entry_at-count : (p : Page) (n j : ℕ) → entry_at (set_slot_count p n) j ≡ entry_at p j
entry_at-count p n j =
    pair-eq (field-count p n (base j) (omega arith)) (field-count p n (base j + 8) (omega arith))

-- A split's two leaves hold the entries between them: the left one those before `from`, in place, and
-- the right one those behind, whatever page it was.
pub entries-move_suffix_to :
    (p r : Page) (from : ℕ)
    → FitsLeaf p
    → from ≤ slot_count p
    → let halves = move_suffix_to p r from in
      (slot_count halves.0 ≡ from)
      × (slot_count halves.1 ≡ slot_count p - from)
      × (entries p ≡ entries halves.0 ++ entries halves.1)
unfolding move_suffix_to
entries-move_suffix_to p r from fits l =
    let n = slot_count p in
    let moved = n - from in
    let copied = memcpy r (base 0) p (base from) (moved * 16) in
    let left = set_slot_count p from in
    let right = set_slot_count copied moved in
    let counts = count-set p from (omega arith) in
    let countr = count-set copied moved (omega arith) in
    (
      counts,
      countr,
      ap (listed (entry_at p) 0) {x = n} {y = from + moved} (omega arith)
          ∙ listed-append (entry_at p) 0 from moved
          ∙ ap₂ ◌++◌
              (listed-congr (entry_at p) (entry_at left) 0 0 from
                  (λ k u. sym (entry_at-count p from (0 + k)))
                ∙ ap (listed (entry_at left) 0) (sym counts))
              (listed-congr (entry_at p) (entry_at right) (0 + from) 0 moved (λ k u. sym (
                  entry_at-count copied moved (0 + k)
                  ∙ pair-eq
                      (load-memcpy_inside 8 r (base 0) p (base from) (moved * 16) (base (0 + k))
                        (base (0 + from + k)) (omega arith) (omega arith) (omega arith))
                      (load-memcpy_inside 8 r (base 0) p (base from) (moved * 16) (base (0 + k) + 8)
                        (base (0 + from + k) + 8) (omega arith) (omega arith) (omega arith))))
                ∙ ap (listed (entry_at right) 0) (sym countr)),
    )

-- A merge's leaf holds the entries of both, where they fit.
pub entries-append_from :
    (p r : Page)
    → slot_count p + slot_count r ≤ leaf_max_entries
    → entries (append_from p r) ≡ entries p ++ entries r
unfolding append_from
entries-append_from p r fits =
    let n = slot_count p in
    let m = slot_count r in
    let copied = memcpy p (base n) r (base 0) (m * 16) in
    let q = set_slot_count copied (n + m) in
    ap (listed (entry_at q) 0) (count-set copied (n + m) (omega arith))
    ∙ listed-append (entry_at q) 0 n m
    ∙ ap₂ ◌++◌
        (listed-congr (entry_at q) (entry_at p) 0 0 n (λ k u.
          entry_at-count copied (n + m) (0 + k)
          ∙ pair-eq
              (load-memcpy_apart 8 p (base n) r (base 0) (m * 16) (base (0 + k)) (omega arith))
              (load-memcpy_apart 8 p (base n) r (base 0) (m * 16) (base (0 + k) + 8)
                (omega arith))))
        (listed-congr (entry_at q) (entry_at r) (0 + n) 0 m (λ k u.
          entry_at-count copied (n + m) (0 + n + k)
          ∙ pair-eq
              (load-memcpy_inside 8 p (base n) r (base 0) (m * 16) (base (0 + n + k)) (base (0 + k))
                (omega arith) (omega arith) (omega arith))
              (load-memcpy_inside 8 p (base n) r (base 0) (m * 16) (base (0 + n + k) + 8)
                (base (0 + k) + 8) (omega arith) (omega arith) (omega arith))))
