-- ===== src/Btree/Branches.antt =====
-- The keys and the children of an internal node behind its operations.
use labdb.Prelude.{
  ℕ, zero, suc, ◌+◌, ◌-◌, ◌*◌, ◌≤◌, ◌<◌, ◌^◌, ◌≡◌, ◌⊎◌, inl, inr, refl, arith, ap, ◌∙◌, Bool-cases,
  ◌==◌, ==→eq,
}
use labdb.Common.{load, store}
use labdb.Common.Fields.{load-store_apart, load-store_self}
use labdb.Page.{Page, slot_count}
use labdb.Btree.{
  internal_max_keys, key_at, child_at, set_key_at, set_child_at, shift_keys_right,
  shift_children_right, insert_child_at,
}

shift_keys_right-apart :
    (p : Page) (lo left w o : ℕ)
    → (o + w ≤ 20 + (lo + 1) * 8) ⊎ (20 + (lo + left + 1) * 8 ≤ o)
    → load w (shift_keys_right p lo left) o ≡ load w p o
unfolding shift_keys_right set_key_at
shift_keys_right-apart p lo zero w o h = refl
shift_keys_right-apart p lo (suc left) w o h =
    let q = set_key_at p (lo + left + 1) (key_at p (lo + left)) in
    shift_keys_right-apart q lo left w o (omega arith)
    ∙ load-store_apart 8 p (20 + (lo + left + 1) * 8) (key_at p (lo + left)) w o (omega arith)

shift_keys_right-inside :
    (p : Page) (lo left i : ℕ)
    → ((j : ℕ) → lo ≤ j → j < lo + left → key_at p j < 2 ^ 64)
    → lo < i
    → i ≤ lo + left
    → key_at (shift_keys_right p lo left) i ≡ key_at p (i - 1)
unfolding shift_keys_right set_key_at
shift_keys_right-inside p lo zero i fits l u = absurd (omega arith)
shift_keys_right-inside p lo (suc left) i fits l u =
    let v = key_at p (lo + left) in
    let q = set_key_at p (lo + left + 1) v in
    let other : (j : ℕ) → j < lo + left + 1 → key_at q j ≡ key_at p j =
      λ j u'. load-store_apart 8 p (20 + (lo + left + 1) * 8) v 8 (20 + j * 8) (omega arith) in
    elim (Bool-cases (i == lo + left + 1)) [
      | inl e ↦
          let last : i ≡ lo + left + 1 = ==→eq i (lo + left + 1) e in
          shift_keys_right-apart q lo left 8 (20 + i * 8) (omega arith)
          ∙ ap (key_at q) last
          ∙ load-store_self 8 p (20 + (lo + left + 1) * 8) v
              (omega (arith, fits (lo + left) (omega arith) (omega arith)))
          ∙ ap (key_at p) (omega arith)
      | inr e ↦
          let u' : i ≤ lo + left = ground arith in
          shift_keys_right-inside q lo left i
            (λ j a b. omega (arith, fits j a (omega arith), other j (omega arith))) l u'
          ∙ other (i - 1) (omega arith)
    ]

shift_children_right-apart :
    (p : Page) (lo left w o : ℕ)
    → (o + w ≤ 2732 + (lo + 1) * 4) ⊎ (2732 + (lo + left + 1) * 4 ≤ o)
    → load w (shift_children_right p lo left) o ≡ load w p o
unfolding shift_children_right set_child_at
shift_children_right-apart p lo zero w o h = refl
shift_children_right-apart p lo (suc left) w o h =
    let q = set_child_at p (lo + left + 1) (child_at p (lo + left)) in
    shift_children_right-apart q lo left w o (omega arith)
    ∙ load-store_apart 4 p (2732 + (lo + left + 1) * 4) (child_at p (lo + left)) w o (omega arith)

shift_children_right-inside :
    (p : Page) (lo left i : ℕ)
    → ((j : ℕ) → lo ≤ j → j < lo + left → child_at p j < 2 ^ 32)
    → lo < i
    → i ≤ lo + left
    → child_at (shift_children_right p lo left) i ≡ child_at p (i - 1)
unfolding shift_children_right set_child_at
shift_children_right-inside p lo zero i fits l u = absurd (omega arith)
shift_children_right-inside p lo (suc left) i fits l u =
    let v = child_at p (lo + left) in
    let q = set_child_at p (lo + left + 1) v in
    let other : (j : ℕ) → j < lo + left + 1 → child_at q j ≡ child_at p j =
      λ j u'. load-store_apart 4 p (2732 + (lo + left + 1) * 4) v 4 (2732 + j * 4) (omega arith) in
    elim (Bool-cases (i == lo + left + 1)) [
      | inl e ↦
          let last : i ≡ lo + left + 1 = ==→eq i (lo + left + 1) e in
          shift_children_right-apart q lo left 4 (2732 + i * 4) (omega arith)
          ∙ ap (child_at q) last
          ∙ load-store_self 4 p (2732 + (lo + left + 1) * 4) v
              (omega (arith, fits (lo + left) (omega arith) (omega arith)))
          ∙ ap (child_at p) (omega arith)
      | inr e ↦
          let u' : i ≤ lo + left = ground arith in
          shift_children_right-inside q lo left i
            (λ j a b. omega (arith, fits j a (omega arith), other j (omega arith))) l u'
          ∙ other (i - 1) (omega arith)
    ]

-- A separator and the child on its right, into a node with room for them.
module _ (p : Page) (c k r : ℕ) (room : slot_count p < internal_max_keys) (at : c ≤ slot_count p)
    (key : k < 2 ^ 64) (child : r < 2 ^ 32)
    (keys : (i : ℕ) → i < slot_count p → key_at p i < 2 ^ 64)
    (children : (i : ℕ) → i ≤ slot_count p → child_at p i < 2 ^ 32) where
  shifted_keys : Page
  shifted_keys = shift_keys_right p c (slot_count p - c)

  shifted : Page
  shifted = shift_children_right shifted_keys (c + 1) (slot_count p - c)

  -- A field that the loops leave alone.
  field_shifted :
      (w o : ℕ)
      → (o + w ≤ 20 + (c + 1) * 8)
        ⊎ ((20 + (slot_count p + 1) * 8 ≤ o) × (o + w ≤ 2732 + (c + 2) * 4))
      → load w shifted o ≡ load w p o
  unfolding shifted shifted_keys
  field_shifted w o h =
      shift_children_right-apart (shift_keys_right p c (slot_count p - c)) (c + 1)
        (slot_count p - c) w o (omega arith)
      ∙ shift_keys_right-apart p c (slot_count p - c) w o (omega arith)

  stored : Page
  stored = store 4 (store 8 shifted (20 + c * 8) k) (2732 + (c + 1) * 4) r

  field-insert_child_at :
      (w o : ℕ) → (o + w ≤ 6) ⊎ (8 ≤ o) → load w (insert_child_at p c k r) o ≡ load w stored o
  unfolding insert_child_at set_key_at set_child_at stored shifted shifted_keys
  field-insert_child_at w o h = load-store_apart 2 _ 6 (slot_count p + 1) w o (omega arith)

  field_stored :
      (w o : ℕ)
      → (o + w ≤ 20 + c * 8)
        ⊎ ((20 + (c + 1) * 8 ≤ o) × ((o + w ≤ 2732 + (c + 1) * 4) ⊎ (2732 + (c + 2) * 4 ≤ o)))
      → load w stored o ≡ load w shifted o
  unfolding stored
  field_stored w o h =
      load-store_apart 4 (store 8 shifted (20 + c * 8) k) (2732 + (c + 1) * 4) r w o (omega arith)
      ∙ load-store_apart 8 shifted (20 + c * 8) k w o (omega arith)

  pub header-insert_child_at :
      (w o : ℕ) → o + w ≤ 6 → load w (insert_child_at p c k r) o ≡ load w p o
  header-insert_child_at w o h =
      field-insert_child_at w o (omega arith)
      ∙ field_stored w o (omega arith)
      ∙ field_shifted w o (omega arith)

  pub count-insert_child_at : slot_count (insert_child_at p c k r) ≡ slot_count p + 1
  unfolding insert_child_at
  count-insert_child_at = load-store_self 2 _ 6 (slot_count p + 1) (omega arith)

  pub key_before : (i : ℕ) → i < c → key_at (insert_child_at p c k r) i ≡ key_at p i
  key_before i u =
      field-insert_child_at 8 (20 + i * 8) (omega arith)
      ∙ field_stored 8 (20 + i * 8) (omega arith)
      ∙ field_shifted 8 (20 + i * 8) (omega arith)

  pub key_here : key_at (insert_child_at p c k r) c ≡ k
  unfolding stored
  key_here =
      field-insert_child_at 8 (20 + c * 8) (omega arith)
      ∙ load-store_apart 4 (store 8 shifted (20 + c * 8) k) (2732 + (c + 1) * 4) r 8 (20 + c * 8)
          (omega arith)
      ∙ load-store_self 8 shifted (20 + c * 8) k (omega arith)

  pub key_after :
      (i : ℕ) → c < i → i ≤ slot_count p → key_at (insert_child_at p c k r) i ≡ key_at p (i - 1)
  unfolding shifted shifted_keys
  key_after i l u =
      field-insert_child_at 8 (20 + i * 8) (omega arith)
      ∙ field_stored 8 (20 + i * 8) (omega arith)
      ∙ shift_children_right-apart (shift_keys_right p c (slot_count p - c)) (c + 1)
          (slot_count p - c) 8 (20 + i * 8) (omega arith)
      ∙ shift_keys_right-inside p c (slot_count p - c) i (λ j a b. keys j (omega arith)) l
          (omega arith)

  pub child_before : (i : ℕ) → i ≤ c → child_at (insert_child_at p c k r) i ≡ child_at p i
  child_before i u =
      field-insert_child_at 4 (2732 + i * 4) (omega arith)
      ∙ field_stored 4 (2732 + i * 4) (omega arith)
      ∙ field_shifted 4 (2732 + i * 4) (omega arith)

  pub child_here : child_at (insert_child_at p c k r) (c + 1) ≡ r
  unfolding stored
  child_here =
      field-insert_child_at 4 (2732 + (c + 1) * 4) (omega arith)
      ∙ load-store_self 4 (store 8 shifted (20 + c * 8) k) (2732 + (c + 1) * 4) r (omega arith)

  pub child_after :
      (i : ℕ)
      → c + 1 < i
      → i ≤ slot_count p + 1
      → child_at (insert_child_at p c k r) i ≡ child_at p (i - 1)
  unfolding shifted shifted_keys
  child_after i l u =
      let q = shift_keys_right p c (slot_count p - c) in
      let kept : (j : ℕ) → child_at q j ≡ child_at p j =
        λ j. shift_keys_right-apart p c (slot_count p - c) 4 (2732 + j * 4) (omega arith) in
      field-insert_child_at 4 (2732 + i * 4) (omega arith)
      ∙ field_stored 4 (2732 + i * 4) (omega arith)
      ∙ shift_children_right-inside q (c + 1) (slot_count p - c) i
          (λ j a b. omega (arith, kept j, children j (omega arith))) l (omega arith)
      ∙ kept (i - 1)
