-- ===== src/Tests/Slotted.antt =====
-- Runs of the operations on slotted pages.
use labdb.Prelude.{
  ℕ, ◌≤◌, ◌≡◌, inl, inr, refl, arith, subst, true, [], ◌∷◌, none, some, if◌then◌else◌, ◌==◌, ◌+◌,
}
use labdb.Common.{zeroes, load, store, put, memcpy}
use labdb.Page.{Page, page_size, id, slot_count, free_start}
use labdb.Slotted.{
  Span, init, insert, erase, compact, live, place, find_dead, enter_slot, set_slot, read,
  read_record,
}
use labdb.Slotted.Invariant.{IsValid, live_bytes}
use labdb.Slotted.Records.{record_at, bytes}
use labdb.Slotted.Init.{init-IsValid, read_record-read}
use labdb.Slotted.Compacted.{compact-IsValid, record_at-compact}
use labdb.Slotted.Insert.{Inserted, need, insert-Inserted, insert-eq-none}
use labdb.Slotted.Erase.{erase-live}

abbrev page : Page
page = init zeroes 7

abbrev rec : Span
rec = record { buf = λ i. i; at = 65; len = 3 }

abbrev too_long : Span
too_long = record { buf = λ i. i; at = 65; len = 4073 }

abbrev page_with_rec : Page
page_with_rec = (place page none rec).0

page-IsValid : IsValid page
page-IsValid = (init-IsValid zeroes 7 (omega arith)).0

room : free_start page + live_bytes page (slot_count page) + need page rec ≤ page_size
unfolding init load store put live_bytes find_dead
room = omega arith

inserted : insert page rec ≡ some (page_with_rec, 0)
unfolding init load store put find_dead insert place enter_slot memcpy
inserted = refl

init-IsValid_example : IsValid page × (id page ≡ 7) × ((s : ℕ) → record_at page s ≡ none)
init-IsValid_example = init-IsValid zeroes 7 (omega arith)

insert-Inserted_example :
    (q : Page) × (s : ℕ) × (insert page rec ≡ some (q, s)) × Inserted page q s rec
insert-Inserted_example = insert-Inserted page rec page-IsValid (omega arith) (omega arith) room

insert-eq-none_example : insert page too_long ≡ none
insert-eq-none_example = insert-eq-none page too_long page-IsValid (inr (inl (omega arith)))

page_with_rec-IsValid : IsValid page_with_rec
page_with_rec-IsValid =
    let (q, s, e, i) = insert-Inserted page rec page-IsValid (omega arith) (omega arith) room in
    let same : q ≡ page_with_rec = cc (e, inserted) in subst IsValid same i.valid

rec_live : live page_with_rec 0 ≡ true
unfolding init load store put place enter_slot memcpy set_slot
rec_live = refl

record_at_rec : record_at page_with_rec 0 ≡ some (65 ∷ 66 ∷ 67 ∷ [])
unfolding init load store put place enter_slot memcpy set_slot record_at bytes
record_at_rec = refl

compact-IsValid_example : IsValid (compact page_with_rec)
compact-IsValid_example = compact-IsValid page_with_rec page_with_rec-IsValid

record_at-compact_example : record_at (compact page_with_rec) 0 ≡ record_at page_with_rec 0
record_at-compact_example = record_at-compact page_with_rec page_with_rec-IsValid 0

erase-live_example :
    ((erase page_with_rec 0).1 ≡ true)
    × IsValid (erase page_with_rec 0).0
    × ((j : ℕ)
        → record_at (erase page_with_rec 0).0 j
          ≡ (if j == 0 then none else record_at page_with_rec j))
erase-live_example = erase-live page_with_rec 0 page_with_rec-IsValid rec_live

read_record-read_example : read_record page_with_rec 0 ≡ read page_with_rec 0
read_record-read_example = read_record-read page_with_rec 0
