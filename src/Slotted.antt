-- ===== src/Slotted.antt =====
-- src/slotted_page.hpp: a page's payload as variable-length records under stable slot ids. The
-- directory of 4-byte slots grows forward from the header, the cells grow backward from the end.
-- A record is a span: a buffer, the offset of its first byte, and its length. The casts to `uint16_t`
-- are the cuts that `store_u16` makes; values passed on uncut are below 65536 in every call.
pub mod Invariant
pub mod Compact
pub mod Records
pub mod Compacted
mod Place
mod Placed
pub mod Insert
pub mod Erase
pub mod Init
use labdb.Prelude.{
  ℕ, zero, suc, ◌+◌, ◌-◌, ◌*◌, Bool, true, false, Option, none, some, ◌&&◌, ◌||◌, not,
  if◌then◌else◌, ◌==◌, leb, ltb,
}
use labdb.Common.{Bytes, zeroes, memcpy, load_u16, store_u16}
use labdb.Page.{
  Page, PageType, page_size, page_header_size, null_page, set_id, set_type, slot_count,
  set_slot_count, free_start, set_free_start, free_end, set_free_end, frag_bytes, set_frag_bytes,
  set_next_page,
}

abbrev pub slot_size : ℕ
slot_size = 4

abbrev pub max_record_size : ℕ
max_record_size = page_size - page_header_size - slot_size

-- Bytes `at` to `at + len` of `buf`.
pub record Span : Type 0 where
  pub buf : Bytes
  pub at : ℕ
  pub len : ℕ

abbrev pub slot_pos : ℕ → ℕ
slot_pos slot = page_header_size + slot_size * slot

abbrev pub slot_off : Page → ℕ → ℕ
slot_off p s = load_u16 p (slot_pos s)

abbrev pub slot_len : Page → ℕ → ℕ
slot_len p s = load_u16 p (slot_pos s + 2)

unfoldable pub set_slot : Page → ℕ → ℕ → ℕ → Page
set_slot p s off len = store_u16 (store_u16 p (slot_pos s) off) (slot_pos s + 2) len

unfoldable pub init : Page → ℕ → Page
init p id =
    let a = set_type (set_id p id) PageType.slotted in
    let b = set_free_start (set_slot_count a 0) page_header_size in
    set_next_page (set_frag_bytes (set_free_end b page_size) 0) null_page

abbrev pub contiguous_free : Page → ℕ
contiguous_free p = free_end p - free_start p

abbrev pub total_free : Page → ℕ
total_free p = contiguous_free p + frag_bytes p

abbrev pub live : Page → ℕ → Bool
live p slot = ltb slot (slot_count p) && not (slot_off p slot == 0)

-- The first loop of `insert`: the first dead slot among `left` slots from `i` on.
unfoldable pub find_dead : Page → ℕ → ℕ → Option ℕ
find_dead p zero i = none
find_dead p (suc left) i =
    let rest = find_dead p left (i + 1) in if slot_off p i == 0 then some i else rest

-- The loop variables of `compact`.
pub record Packing : Type 0 where
  pub page : Page
  pub scratch : Bytes
  pub write_pos : ℕ

unfoldable pub pack_slot : Packing → ℕ → Packing
pack_slot s i =
    let off = slot_off s.page i in
    let len = slot_len s.page i in
    let write_pos = s.write_pos - len in
    if off == 0 then s else record {
      page = set_slot s.page i write_pos len;
      scratch = memcpy s.scratch write_pos s.page off len;
      write_pos = write_pos;
    }

-- The loop of `compact`, over `left` slots from `i` on.
unfoldable pub pack : Packing → ℕ → ℕ → Packing
pack s zero i = s
pack s (suc left) i = pack (pack_slot s i) left (i + 1)

unfoldable pub compact : Page → Page
compact p =
    let s = pack (record { page = p; scratch = zeroes; write_pos = page_size }) (slot_count p) 0 in
    let q = memcpy s.page s.write_pos s.scratch s.write_pos (page_size - s.write_pos) in
    set_frag_bytes (set_free_end q s.write_pos) 0

abbrev pub slot_cost : Option ℕ → ℕ
slot_cost none = slot_size
slot_cost (some s) = 0

-- The writes of the directory that end `insert`.
unfoldable pub enter_slot : Page → Option ℕ → ℕ → ℕ → Page × ℕ
enter_slot p (some slot) off len = (set_slot p slot off len, slot)
enter_slot p none off len =
    let n = slot_count p in
    let q = set_free_start (set_slot_count p (n + 1)) (free_start p + slot_size) in
    (set_slot q n off len, n)

-- The end of `insert`, from the copy of the record on.
unfoldable pub place : Page → Option ℕ → Span → Page × ℕ
place p reuse rec =
    let off = free_end p - rec.len in
    enter_slot (set_free_end (memcpy p off rec.buf rec.at rec.len) off) reuse off rec.len

unfoldable pub insert : Page → Span → Option (Page × ℕ)
insert p rec =
    let reuse = find_dead p (slot_count p) 0 in
    let need = rec.len + slot_cost reuse in
    if rec.len == 0 || ltb max_record_size rec.len
    then none
    else if leb need (contiguous_free p)
    then some (place p reuse rec)
    else if ltb (total_free p) need
    then none
    else some (place (compact p) reuse rec)

unfoldable pub read : Page → ℕ → Option Span
read p slot =
    if live p slot
    then some (record { buf = p; at = slot_off p slot; len = slot_len p slot })
    else none

-- The loop that ends `erase`: dead slots at the tail of the directory give their bytes back. The
-- count that is left, and the page with its `free_start` moved back.
unfoldable pub trim : Page → ℕ → Page
trim p zero = set_slot_count p 0
trim p (suc n) =
    let rest = trim (set_free_start p (free_start p - slot_size)) n in
    if slot_off p n == 0 then rest else set_slot_count p (suc n)

unfoldable pub erase : Page → ℕ → Page × Bool
erase p slot =
    let q = set_slot (set_frag_bytes p (frag_bytes p + slot_len p slot)) slot 0 0 in
    if live p slot then (trim q (slot_count p), true) else (p, false)

-- `read` of a page that the caller may only look at.
unfoldable pub read_record : Page → ℕ → Option Span
read_record p slot =
    let pos = page_header_size + slot_size * slot in
    let off = load_u16 p pos in
    if leb (slot_count p) slot
    then none
    else if off == 0
    then none
    else some (record { buf = p; at = off; len = load_u16 p (pos + 2) })
