-- ===== src/Slotted/Init.antt =====
-- `init` formats an empty valid page, and the two ways to read a record agree.
use labdb.Prelude.{ℕ, ◌+◌, ◌≤◌, ◌<◌, ◌^◌, ◌≡◌, arith, ◌∙◌, none}
use labdb.Common.{load}
use labdb.Common.Fields.{load-store_apart, load-store_self}
use labdb.Page.{
  Page, PageType, page_size, null_page, id, slot_count, free_start, free_end, frag_bytes, set_id,
  set_type, set_slot_count, set_free_start, set_free_end, set_frag_bytes,
}
use labdb.Slotted.{init, read, read_record}
use labdb.Slotted.Invariant.{IsValid, live_bytes}
use labdb.Slotted.Records.{record_at, record_at-beyond}

module _ (p : Page) (n : ℕ) where
  typed : Page
  typed = set_type (set_id p n) PageType.slotted

  counted : Page
  counted = set_slot_count typed 0

  started : Page
  started = set_free_start counted 20

  ended : Page
  ended = set_free_end started page_size

  fragged : Page
  fragged = set_frag_bytes ended 0

  init-field : (w o : ℕ) → o + w ≤ 16 → load w (init p n) o ≡ load w fragged o
  unfolding init fragged ended started counted typed
  init-field w o h = load-store_apart 4 fragged 16 null_page w o (omega arith)

  init-id : n < 2 ^ 32 → id (init p n) ≡ n
  unfolding init fragged ended started counted typed
  init-id h =
      init-field 4 0 (omega arith)
      ∙ load-store_apart 2 ended 12 0 4 0 (omega arith)
      ∙ load-store_apart 2 started 10 page_size 4 0 (omega arith)
      ∙ load-store_apart 2 counted 8 20 4 0 (omega arith)
      ∙ load-store_apart 2 typed 6 0 4 0 (omega arith)
      ∙ load-store_apart 2 (set_id p n) 4 2 4 0 (omega arith)
      ∙ load-store_self 4 p 0 n (omega arith)

  init-count : slot_count (init p n) ≡ 0
  unfolding init fragged ended started counted typed
  init-count =
      init-field 2 6 (omega arith)
      ∙ load-store_apart 2 ended 12 0 2 6 (omega arith)
      ∙ load-store_apart 2 started 10 page_size 2 6 (omega arith)
      ∙ load-store_apart 2 counted 8 20 2 6 (omega arith)
      ∙ load-store_self 2 typed 6 0 (omega arith)

  init-start : free_start (init p n) ≡ 20
  unfolding init fragged ended started counted typed
  init-start =
      init-field 2 8 (omega arith)
      ∙ load-store_apart 2 ended 12 0 2 8 (omega arith)
      ∙ load-store_apart 2 started 10 page_size 2 8 (omega arith)
      ∙ load-store_self 2 counted 8 20 (omega arith)

  init-end : free_end (init p n) ≡ page_size
  unfolding init fragged ended started counted typed
  init-end =
      init-field 2 10 (omega arith)
      ∙ load-store_apart 2 ended 12 0 2 10 (omega arith)
      ∙ load-store_self 2 started 10 page_size (omega arith)

  init-frag : frag_bytes (init p n) ≡ 0
  unfolding init fragged ended started counted typed
  init-frag = init-field 2 12 (omega arith) ∙ load-store_self 2 ended 12 0 (omega arith)

  -- Whatever the page held, `init` with a 32-bit id leaves a valid page that carries the id and
  -- holds no record.
  pub init-IsValid :
      n < 2 ^ 32
      → IsValid (init p n) × (id (init p n) ≡ n) × ((s : ℕ) → record_at (init p n) s ≡ none)
  unfolding live_bytes
  init-IsValid h = (
    record {
      start = omega (arith, init-start, init-count);
      room = omega (arith, init-start, init-end);
      end = omega (arith, init-end);
      cells = λ s u z. absurd (omega (arith, init-count));
      used = rw init-count (omega (arith, init-end, init-frag));
    },
    init-id h,
    λ s. record_at-beyond (init p n) s (omega (arith, init-count)),
  )

-- The reader of a page in the buffer pool gives the answer of `SlottedPage::read`.
pub read_record-read : (p : Page) (s : ℕ) → read_record p s ≡ read p s
unfolding read_record read
read_record-read p s = ground arith
