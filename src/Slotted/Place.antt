-- ===== src/Slotted/Place.antt =====
-- The end of `insert`: where it writes the record and the slot.
use labdb.Prelude.{
  ℕ, ◌+◌, ◌-◌, ◌≤◌, ◌<◌, ◌≡◌, ◌≢◌, ◌⊎◌, inl, inr, refl, arith, ◌∙◌, ap, sym, Option, none, some,
}
use labdb.Common.{memcpy, load}
use labdb.Common.Fields.{
  store-outside, load-store_apart, load-store_self, memcpy-inside, memcpy-outside,
  load-memcpy_apart,
}
use labdb.Page.{
  Page, slot_count, free_start, free_end, frag_bytes, set_free_end, set_free_start, set_slot_count,
}
use labdb.Slotted.{
  Span, slot_off, slot_len, slot_pos, slot_cost, slot_size, set_slot, enter_slot, place,
}
use labdb.Slotted.Invariant.{
  IsValid, set_slot-outside, slot_off-set_slot, slot_len-set_slot, slot_off-set_slot_ne,
  slot_len-set_slot_ne, set_slot-field,
}

-- Slots of a page to which a record may be written: a dead one, or none for the next new one.
abbrev pub Slot : Page → Option ℕ → Type 0
Slot p none = Unit
Slot p (some s) = (s < slot_count p) × (slot_off p s ≡ 0)

abbrev pub chosen : Page → Option ℕ → ℕ
chosen p none = slot_count p
chosen p (some s) = s

abbrev pub new_count : Page → Option ℕ → ℕ
new_count p none = slot_count p + 1
new_count p (some s) = slot_count p

-- `q` is `p` with the cell of `rec` placed below the others, under the slot `s`.
pub record Placed (p q : Page) (reuse : Option ℕ) (rec : Span) : Type 0 where
  pub count : slot_count q ≡ new_count p reuse
  pub start : free_start q ≡ free_start p + slot_cost reuse
  pub end : free_end q + rec.len ≡ free_end p
  pub frag : frag_bytes q ≡ frag_bytes p
  pub off : slot_off q (chosen p reuse) ≡ free_end q
  pub len : slot_len q (chosen p reuse) ≡ rec.len
  pub copied : (k : ℕ) → k < rec.len → q (free_end q + k) ≡ rec.buf (rec.at + k)
  pub other_off : (j : ℕ) → j < slot_count p → j ≢ chosen p reuse → slot_off q j ≡ slot_off p j
  pub other_len : (j : ℕ) → j < slot_count p → j ≢ chosen p reuse → slot_len q j ≡ slot_len p j
  pub cells : (i : ℕ) → free_end p ≤ i → q i ≡ p i

module _ (p : Page) (rec : Span) (valid : IsValid p) (nonempty : 0 < rec.len) where
  target : ℕ
  target = free_end p - rec.len

  copied : Page
  unfolding target
  copied = set_free_end (memcpy p target rec.buf rec.at rec.len) target

  module _ (fits : free_start p + rec.len ≤ free_end p) where
    copied-field :
        (w o : ℕ)
        → (o + w ≤ 10) ⊎ ((12 ≤ o) × (o + w ≤ free_start p))
        → load w copied o ≡ load w p o
    unfolding copied
    copied-field w o h =
        load-store_apart 2 (memcpy p target rec.buf rec.at rec.len) 10 target w o (omega arith)
        ∙ load-memcpy_apart w p target rec.buf rec.at rec.len o (inl (omega (arith, valid.start)))

    free_end-copied : free_end copied ≡ target
    unfolding copied
    free_end-copied =
        load-store_self 2 (memcpy p target rec.buf rec.at rec.len) 10 target
          (omega (arith, valid.end))

    copied-cell : (k : ℕ) → k < rec.len → copied (target + k) ≡ rec.buf (rec.at + k)
    unfolding copied target
    copied-cell k u =
        store-outside 2 (memcpy p target rec.buf rec.at rec.len) 10 target (target + k)
          (inr (omega (arith, valid.start)))
        ∙ memcpy-inside p target rec.buf rec.at rec.len (target + k) (omega arith) (omega arith)
        ∙ ap rec.buf {y = rec.at + k} (omega arith)

    copied-above : (i : ℕ) → free_end p ≤ i → copied i ≡ p i
    unfolding copied target
    copied-above i l =
        store-outside 2 (memcpy p target rec.buf rec.at rec.len) 10 target i
          (inr (omega (arith, valid.start, valid.room)))
        ∙ memcpy-outside p target rec.buf rec.at rec.len i (inr (omega arith))

    pub place-Placed-some :
        (s : ℕ)
        → s < slot_count p
        → slot_off p s ≡ 0
        → Placed p (place p (some s) rec).0 (some s) rec
    unfolding place enter_slot copied target
    place-Placed-some s u e =
        let entry = set_slot-field copied s target rec.len in
        let end : free_end (set_slot copied s target rec.len) ≡ target =
          entry 2 10 (inl (omega arith)) ∙ free_end-copied in
        record {
          count = entry 2 6 (inl (omega arith)) ∙ copied-field 2 6 (inl (omega arith));
          start =
              omega (arith, entry 2 8 (inl (omega arith)), copied-field 2 8 (inl (omega arith)));
          end = omega (arith, end);
          frag =
              entry 2 12 (inl (omega arith)) ∙ copied-field 2 12 (inr (omega (arith, valid.start)));
          off = slot_off-set_slot copied s target rec.len (omega (arith, valid.end)) ∙ sym end;
          len = slot_len-set_slot copied s target rec.len (omega (arith, valid.end));
          copied = λ k v. rw end (
              set_slot-outside copied s target rec.len (target + k)
                (inr (omega (arith, valid.start)))
              ∙ copied-cell k v);
          other_off = λ j v ne.
              slot_off-set_slot_ne copied s target rec.len j ne
              ∙ copied-field 2 (slot_pos j) (inr (omega (arith, valid.start)));
          other_len = λ j v ne.
              slot_len-set_slot_ne copied s target rec.len j ne
              ∙ copied-field 2 (slot_pos j + 2) (inr (omega (arith, valid.start)));
          cells = λ i l.
              set_slot-outside copied s target rec.len i
                (inr (omega (arith, valid.start, valid.room)))
              ∙ copied-above i l;
        }

    -- the page once the directory has grown, before the new slot is written
    grown : Page
    grown = set_free_start (set_slot_count copied (slot_count p + 1)) (free_start p + slot_size)

    grown-field : (w o : ℕ) → (o + w ≤ 6) ⊎ (10 ≤ o) → load w grown o ≡ load w copied o
    unfolding grown
    grown-field w o h =
        load-store_apart 2 (set_slot_count copied (slot_count p + 1)) 8 (free_start p + slot_size) w
          o (omega arith)
        ∙ load-store_apart 2 copied 6 (slot_count p + 1) w o (omega arith)

    grown-count : slot_count grown ≡ slot_count p + 1
    unfolding grown
    grown-count =
        load-store_apart 2 (set_slot_count copied (slot_count p + 1)) 8 (free_start p + slot_size) 2
          6 (omega arith)
        ∙ load-store_self 2 copied 6 (slot_count p + 1) (omega (arith, valid))

    grown-start : free_start grown ≡ free_start p + slot_size
    unfolding grown
    grown-start =
        load-store_self 2 (set_slot_count copied (slot_count p + 1)) 8 (free_start p + slot_size)
          (omega (arith, valid))

    grown-outside : (i : ℕ) → 10 ≤ i → grown i ≡ copied i
    unfolding grown
    grown-outside i l =
        store-outside 2 (set_slot_count copied (slot_count p + 1)) 8 (free_start p + slot_size) i
          (omega arith)
        ∙ store-outside 2 copied 6 (slot_count p + 1) i (omega arith)

    place-grown : (place p none rec).0 ≡ set_slot grown (slot_count p) target rec.len
    unfolding place enter_slot grown copied target
    place-grown = rw (copied-field 2 6 (inl (omega arith)), copied-field 2 8 (inl (omega arith)))

    pub place-Placed-none :
        free_start p + rec.len + slot_size ≤ free_end p → Placed p (place p none rec).0 none rec
    unfolding target
    place-Placed-none room =
        let n = slot_count p in
        let entry = set_slot-field grown n target rec.len in
        let end : free_end (set_slot grown n target rec.len) ≡ target =
          entry 2 10 (inl (omega arith)) ∙ grown-field 2 10 (inr (omega arith)) ∙ free_end-copied in
        rw place-grown (record {
          count = entry 2 6 (inl (omega arith)) ∙ grown-count;
          start = entry 2 8 (inl (omega arith)) ∙ grown-start;
          end = omega (arith, end);
          frag =
              entry 2 12 (inl (omega arith))
              ∙ grown-field 2 12 (inr (omega arith))
              ∙ copied-field 2 12 (inr (omega (arith, valid.start)));
          off = slot_off-set_slot grown n target rec.len (omega (arith, valid.end)) ∙ sym end;
          len = slot_len-set_slot grown n target rec.len (omega (arith, valid.end));
          copied = λ k v. rw end (
              set_slot-outside grown n target rec.len (target + k)
                (inr (omega (arith, valid.start)))
              ∙ grown-outside (target + k) (omega (arith, valid.start))
              ∙ copied-cell k v);
          other_off = λ j v ne.
              slot_off-set_slot_ne grown n target rec.len j ne
              ∙ grown-field 2 (slot_pos j) (inr (omega arith))
              ∙ copied-field 2 (slot_pos j) (inr (omega (arith, valid.start)));
          other_len = λ j v ne.
              slot_len-set_slot_ne grown n target rec.len j ne
              ∙ grown-field 2 (slot_pos j + 2) (inr (omega arith))
              ∙ copied-field 2 (slot_pos j + 2) (inr (omega (arith, valid.start)));
          cells = λ i l.
              set_slot-outside grown n target rec.len i
                (inr (omega (arith, valid.start, valid.room)))
              ∙ grown-outside i (omega (arith, valid.start, valid.room))
              ∙ copied-above i l;
        })

    pub place-slot_none : (place p none rec).1 ≡ slot_count p
    unfolding place enter_slot copied target
    place-slot_none = copied-field 2 6 (inl (omega arith))

pub place-slot_some : (p : Page) (rec : Span) (s : ℕ) → (place p (some s) rec).1 ≡ s
unfolding place enter_slot
place-slot_some p rec s = refl
