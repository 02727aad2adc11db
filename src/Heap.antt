-- ===== src/Heap.antt =====
-- src/heap.hpp, src/heap.cpp: an unordered table of records in a chain of slotted pages, over a store of
-- pages `S`. `notify` is `on_new_head_`, or the store's `set_heap_head` without one.
use labdb.Prelude.{
  ℕ, ◌+◌, Bool, ◌&&◌, not, Option, none, some, if◌then◌else◌, ◌==◌, leb, Outcome, ok, fail,
  check_that, ◌>>=◌, ◌>>◌,
}
use labdb.Page.{null_page, set_next_page}
use labdb.Slotted
use labdb.Slotted.{Span, init, max_record_size}
use labdb.Record.{Encoded, Rid}
use labdb.PageStore.{PageStore}

abbrev pub span_of : Encoded → Span
span_of rec = record { buf = rec.bytes; at = 0; len = rec.size }

-- The bytes of a span, copied out.
abbrev pub copy_of : Span → Encoded
copy_of span = record { bytes = λ i. span.buf (span.at + i); size = span.len }

module _ {S : Type 0} (store : PageStore S) (notify : S → ℕ → Outcome S) where
  -- A page is formatted and linked before the head `head`.
  unfoldable pub new_page : S → ℕ → Outcome (S × ℕ)
  new_page s head = do
    (s1, id) ← store.allocate_page s
    (s2, p) ← store.read_page s1 id
    s3 ← store.write_page s2 id (set_next_page (init p id) head)
    s4 ← notify s3 id
    ok (s4, id)

  -- The record in the page `id`, if it fits there.
  unfoldable pub insert_in : S → ℕ → Encoded → Outcome (S × Option Rid)
  insert_in s id rec = do
    (s1, p) ← store.read_page s id
    elim (Slotted.insert p (span_of rec)) [
      | none ↦ ok (s1, none)
      | some (q, slot) ↦ do
        s2 ← store.write_page s1 id q
        ok (s2, some (record { page = id; slot = slot }))
    ]

  -- The record in a fresh page, which is the new head.
  unfoldable pub insert_new_page : S → ℕ → Encoded → Outcome (S × ℕ × Rid)
  unfolding new_page insert_in
  insert_new_page s head rec = do
    (s1, id) ← new_page s head
    (s2, found) ← insert_in s1 id rec
    elim found [ none ↦ fail "record did not fit in an empty page" | some rid ↦ ok (s2, id, rid) ]

  -- The state, the head and the record's address.
  unfoldable pub insert : S → ℕ → Encoded → Outcome (S × ℕ × Rid)
  unfolding new_page insert_in insert_new_page
  insert s head rec = do
    check_that (not (rec.size == 0) && leb rec.size max_record_size)
        "record does not fit in a single page (overflow pages are a later unit)"
    (s1, first) ← if head == null_page then new_page s head else ok (s, head)
    (s2, found) ← insert_in s1 first rec
    elim found [ some rid ↦ ok (s2, first, rid) | none ↦ insert_new_page s2 first rec ]

  unfoldable pub get : S → Rid → Outcome (S × Encoded)
  get s rid = do
    (s1, p) ← store.read_page s rid.page
    elim (Slotted.read p rid.slot) [
      | none ↦ fail "get: no live record at this RID"
      | some span ↦ ok (s1, copy_of span)
    ]

  unfoldable pub erase : S → Rid → Outcome (S × Bool)
  erase s rid = do
    (s1, p) ← store.read_page s rid.page
    let r = Slotted.erase p rid.slot
    s2 ← if r.1 then store.write_page s1 rid.page r.0 else ok s1
    ok (s2, r.1)
