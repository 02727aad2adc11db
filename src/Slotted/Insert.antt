-- ===== src/Slotted/Insert.antt =====
-- `insert`: the new record is under the returned slot id, every other slot id keeps its record, and
-- it fails only where the record cannot fit.
use labdb.Prelude.{
  ℕ, zero, suc, ◌+◌, ◌≤◌, ◌<◌, ◌≡◌, ◌≢◌, ◌⊎◌, inl, inr, refl, arith, ◌∙◌, sym, Bool-cases, ◌==◌,
  if◌then◌else◌, Option, none, some, leb, ==_refl, leb→le, leb→lt,
}
use labdb.Page.{Page, page_size, slot_count, free_start, free_end}
use labdb.Slotted.{
  Span, slot_off, slot_cost, find_dead, place, insert, compact, total_free, contiguous_free,
  max_record_size,
}
use labdb.Slotted.Invariant.{live_bytes, IsValid}
use labdb.Slotted.Records.{record_at, record_at-dead, record_at-beyond, contents}
use labdb.Slotted.Compacted.{compact-IsValid, record_at-compact, compact-Compacted}
use labdb.Slotted.Place.{
  Slot, chosen, Placed, place-Placed-some, place-Placed-none, place-slot_none, place-slot_some,
}
use labdb.Slotted.Placed.{Placed-IsValid, Placed-record_at, Placed-record_at_self}

-- What the first loop of `insert` finds: nothing if no slot is dead, else the first dead one.
pub find_dead-none :
    (p : Page) (left i : ℕ)
    → find_dead p left i ≡ none
    → (j : ℕ) → i ≤ j
    → j < i + left
    → slot_off p j ≢ 0
unfolding find_dead
find_dead-none p zero i h j l u = absurd (omega arith)
find_dead-none p (suc left) i h j l u = elim (Bool-cases (j == i)) [
  | inl e ↦ ground arith
  | inr e ↦ find_dead-none p left (i + 1) (ground arith) j (ground arith) (omega arith)
]

pub find_dead-some :
    (p : Page) (left i s : ℕ)
    → find_dead p left i ≡ some s
    → (i ≤ s) × (s < i + left) × (slot_off p s ≡ 0)
unfolding find_dead
find_dead-some p zero i s h = cc
find_dead-some p (suc left) i s h = ground (arith, find_dead-some p left (i + 1) s)

-- `q` is the valid page `p` with the record `rec` added under the slot id `s`, which was free.
pub record Inserted (p q : Page) (s : ℕ) (rec : Span) : Type 0 where
  pub valid : IsValid q
  pub fresh : record_at p s ≡ none
  pub records : (j : ℕ) → record_at q j ≡ (if j == s then some (contents rec) else record_at p j)

module _ (p : Page) (rec : Span) (valid : IsValid p) (nonempty : 0 < rec.len) where
  place-Inserted :
      (reuse : Option ℕ)
      → Slot p reuse
      → free_start p + rec.len + slot_cost reuse ≤ free_end p
      → Inserted p (place p reuse rec).0 (chosen p reuse) rec
  place-Inserted none slot room =
      let q = (place p none rec).0 in
      let placed : Placed p q none rec =
        place-Placed-none p rec valid nonempty (omega arith) (omega arith) in
      record {
        valid = Placed-IsValid p q none rec valid slot nonempty room placed;
        fresh = record_at-beyond p (slot_count p) (omega arith);
        records = λ j. elim (Bool-cases (j == slot_count p)) [
          | inl e ↦
              let e' : j ≡ slot_count p = ground arith in
              rw (e', ==_refl (slot_count p))
                (Placed-record_at_self p q none rec valid slot nonempty room placed
                  (omega (arith, placed.count)))
          | inr e ↦ rw e (
              Placed-record_at p q none rec valid slot nonempty room placed j
                (grind (arith, placed.count)) (omega (arith, placed.count)) (ground arith))
        ];
      }
  place-Inserted (some s) slot room =
      let q = (place p (some s) rec).0 in
      let placed : Placed p q (some s) rec =
        place-Placed-some p rec valid nonempty (omega arith) s slot.0 slot.1 in
      record {
        valid = Placed-IsValid p q (some s) rec valid slot nonempty room placed;
        fresh = record_at-dead p s slot.1;
        records = λ j. elim (Bool-cases (j == s)) [
          | inl e ↦
              let e' : j ≡ s = ground arith in
              rw (e', ==_refl s)
                (Placed-record_at_self p q (some s) rec valid slot nonempty room placed
                  (omega (arith, placed.count, slot)))
          | inr e ↦ rw e (
              Placed-record_at p q (some s) rec valid slot nonempty room placed j
                (grind (arith, placed.count)) (omega (arith, placed.count)) (ground arith))
        ];
      }

  place-slot :
      (reuse : Option ℕ)
      → free_start p + rec.len + slot_cost reuse ≤ free_end p
      → (place p reuse rec).1 ≡ chosen p reuse
  place-slot none room = place-slot_none p rec valid nonempty (omega arith)
  place-slot (some s) room = place-slot_some p rec s

-- The first dead slot of a page is a slot to which a record may be written.
find_dead-Slot : (p : Page) (reuse : Option ℕ) → find_dead p (slot_count p) 0 ≡ reuse → Slot p reuse
find_dead-Slot p none h = tt
find_dead-Slot p (some s) h =
    let found = find_dead-some p (slot_count p) 0 s h in (omega arith, found.2)

-- Compacting leaves it one.
Slot-compact :
    (p : Page) (valid : IsValid p) (reuse : Option ℕ) → Slot p reuse → Slot (compact p) reuse
Slot-compact p valid none slot = tt
Slot-compact p valid (some s) slot =
    let c = compact-Compacted p valid in (omega (arith, c.count, slot), c.dead s slot.0 slot.1)

-- What is inserted into the packed page is inserted into the page.
Inserted-compact :
    (p : Page) (valid : IsValid p) (q : Page) (s : ℕ) (rec : Span)
    → Inserted (compact p) q s rec
    → Inserted p q s rec
Inserted-compact p valid q s rec i = record {
  valid = i.valid;
  fresh = sym (record_at-compact p valid s) ∙ i.fresh;
  records = λ j. rw (← record_at-compact p valid j) (i.records j);
}

-- The bytes that `insert` wants for `rec`: the record, and a slot if none is dead.
abbrev pub need : Page → Span → ℕ
need p rec = rec.len + slot_cost (find_dead p (slot_count p) 0)

module _ (p : Page) (rec : Span) where
  insert_now :
      0 < rec.len
      → rec.len ≤ max_record_size
      → need p rec ≤ contiguous_free p
      → insert p rec ≡ some (place p (find_dead p (slot_count p) 0) rec)
  unfolding insert
  insert_now a b c = ground arith

  insert_compacting :
      0 < rec.len
      → rec.len ≤ max_record_size
      → contiguous_free p < need p rec
      → need p rec ≤ total_free p
      → insert p rec ≡ some (place (compact p) (find_dead p (slot_count p) 0) rec)
  unfolding insert
  insert_compacting a b c d = ground arith

  -- A valid page refuses a record that is empty, over the limit, or larger than all that the header,
  -- the directory and the live records leave.
  pub insert-eq-none :
      IsValid p
      → (rec.len ≡ 0)
        ⊎ (max_record_size < rec.len)
        ⊎ (page_size < free_start p + live_bytes p (slot_count p) + need p rec)
      → insert p rec ≡ none
  unfolding insert
  insert-eq-none valid (inl e) = ground arith
  insert-eq-none valid (inr (inl e)) = ground arith
  insert-eq-none valid (inr (inr e)) =
      let full : total_free p < need p rec = omega (arith, valid.used, valid.room) in ground arith

  -- On a valid page, a record that is not empty, within the limit, and that fits with its slot
  -- in what the header, the directory and the live records leave, goes in: it is then under the
  -- slot id that `insert` returns, which held nothing, every other slot id holds what it held,
  -- and the page is valid.
  pub insert-Inserted :
      IsValid p
      → 0 < rec.len
      → rec.len ≤ max_record_size
      → free_start p + live_bytes p (slot_count p) + need p rec ≤ page_size
      → (q : Page) × (s : ℕ) × (insert p rec ≡ some (q, s)) × Inserted p q s rec
  insert-Inserted valid a b room =
      let reuse = find_dead p (slot_count p) 0 in
      let slot = find_dead-Slot p reuse refl in
      elim (Bool-cases (leb (need p rec) (contiguous_free p))) [
        | inl now ↦
            let room' : free_start p + rec.len + slot_cost reuse ≤ free_end p =
              omega (arith, leb→le (need p rec) (contiguous_free p) now) in
            let q = (place p reuse rec).0 in
            let s = (place p reuse rec).1 in
            (
              q,
              s,
              insert_now a b (leb→le _ _ now),
              rw (place-slot p rec valid a reuse room')
                  (place-Inserted p rec valid a reuse slot room'),
            )
        | inr later ↦
            let c = compact-Compacted p valid in
            let valid' = compact-IsValid p valid in
            let q = (place (compact p) reuse rec).0 in
            let s = (place (compact p) reuse rec).1 in
            let room' : free_start (compact p) + rec.len + slot_cost reuse ≤ free_end (compact p) =
              omega (arith, c.start, c.end, valid.used) in
            let i : Inserted (compact p) q s rec =
              rw (place-slot (compact p) rec valid' a reuse room') (
                place-Inserted (compact p) rec valid' a reuse (Slot-compact p valid reuse slot)
                  room') in
            (
              q,
              s,
              insert_compacting a b (leb→lt _ _ later) (omega (arith, valid.used, valid.room)),
              Inserted-compact p valid q s rec i,
            )
      ]
