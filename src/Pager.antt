-- ===== src/Pager.antt =====
-- src/pager.hpp, src/pager.cpp: names pages, and moves them between memory, the log and the database
-- file. An operation that throws has no state behind it in the model.
pub mod MetaPage
pub mod FreeList
use labdb.Prelude.{
  ℕ, zero, suc, ◌+◌, ◌-◌, ◌*◌, ◌/◌, ◌%◌, ◌^◌, Bool, true, false, ◌&&◌, ◌||◌, not, List, [], ◌∷◌,
  Option, none, some, if◌then◌else◌, ◌==◌, leb, ltb, length, Outcome, ok, fail, check_that, ◌>>=◌,
  ◌>>◌,
}
use labdb.Common.{Bytes, zeroes, load_u32, load_u64, store_u32, store_u64}
use labdb.Page.{
  Page, PageType, page_type_code, page_size, null_page, page_header_size, id, set_id, type_code,
  set_type, next_page, set_next_page,
}
use labdb.Io.{File, pread_exact, pwrite_exact, truncate_exact}
use labdb.Wal.{
  Wal, RecoveryReport, open_wal, recover, read, read_frame, write, commit, rollback, sync, reset,
  truncate, has_pending, committed_frames,
}
use labdb.Wal.Slots.{SlotMap}

pub data Durability : Type 0 where
  full normal off : Durability

pub record Meta : Type 0 where
  pub page_count : ℕ
  pub freelist_head : ℕ
  pub btree_root : ℕ
  pub heap_head : ℕ
  pub catalog_root : ℕ

pub record Pager : Type 0 where
  pub file : File
  pub meta : Meta
  pub db_id : ℕ
  pub committed_meta : Meta
  pub meta_dirty : Bool
  pub file_pages : ℕ
  pub wal : Wal
  pub durability : Durability
  pub checkpoint_frames : ℕ
  pub recovery : RecoveryReport
  pub reads : ℕ
  pub commits : ℕ
  pub checkpoints : ℕ
  pub pages_checkpointed : ℕ

-- "labdb001", as the number whose bytes it is
abbrev pub magic : ℕ
magic = 0x313030626462616C

abbrev magic_off : ℕ
magic_off = page_header_size

abbrev page_count_off : ℕ
page_count_off = magic_off + 8

abbrev freelist_off : ℕ
freelist_off = page_count_off + 4

abbrev btree_root_off : ℕ
btree_root_off = freelist_off + 4

abbrev heap_head_off : ℕ
heap_head_off = btree_root_off + 4

abbrev catalog_root_off : ℕ
catalog_root_off = heap_head_off + 4

abbrev db_id_off : ℕ
db_id_off = catalog_root_off + 4

abbrev pub page_offset : ℕ → ℕ
page_offset n = n * page_size

-- Meta{}
abbrev pub new_meta : Meta
new_meta = record {
  page_count = 1;
  freelist_head = 0;
  btree_root = 0;
  heap_head = 0;
  catalog_root = 0;
}

-- Page p; p.set_id(n); p.set_type(t)
abbrev formatted : ℕ → PageType → Page
formatted n t = set_type (set_id zeroes n) t

unfoldable pub meta_page : Meta → ℕ → Page
meta_page m db_id =
    let a = store_u64 (formatted 0 PageType.meta) magic_off magic in
    let b = store_u32 a page_count_off m.page_count in
    let c = store_u32 b freelist_off m.freelist_head in
    let d = store_u32 c btree_root_off m.btree_root in
    let e = store_u32 d heap_head_off m.heap_head in
    let f = store_u32 e catalog_root_off m.catalog_root in store_u64 f db_id_off db_id

unfoldable pub meta_of : Page → Meta
meta_of p = record {
  page_count = load_u32 p page_count_off;
  freelist_head = load_u32 p freelist_off;
  btree_root = load_u32 p btree_root_off;
  heap_head = load_u32 p heap_head_off;
  catalog_root = load_u32 p catalog_root_off;
}

unfoldable pub load_meta : ℕ → Page → Outcome Meta
unfolding meta_of
load_meta db_id p = do
  check_that (load_u64 p magic_off == magic && load_u64 p db_id_off == db_id)
      "recovery: the log's meta page is not this database's"
  ok (meta_of p)

-- The file, its meta page and its id; `fresh` is what the random device draws for a new database.
unfoldable pub open_database : File → ℕ → Outcome (File × Meta × ℕ)
unfolding meta_of
open_database f fresh =
    if ltb f.size page_size
    then (let a = store_u64 (formatted 0 PageType.meta) magic_off magic in
        let p = store_u64 (store_u32 a page_count_off new_meta.page_count) db_id_off fresh in
        ok (pwrite_exact (truncate_exact f 0) p page_size 0, new_meta, fresh))
    else do
      p ← pread_exact f page_size 0
      check_that (load_u64 p magic_off == magic) "bad magic: this is not a labdb file"
      ok (f, meta_of p, load_u64 p db_id_off)

abbrev pub in_transaction : Pager → Bool
in_transaction p = has_pending p.wal || p.meta_dirty

unfoldable pub touch_meta : Pager → Pager
touch_meta p = record p { meta_dirty = true }

-- What the log or else the file holds of page `n`.
unfoldable pub stored : Pager → ℕ → Outcome Page
stored p n = do
  found ← read p.wal n
  elim found [
    | some page ↦ ok page
    | none ↦ if ltb n p.file_pages then pread_exact p.file page_size (page_offset n) else ok zeroes
  ]

unfoldable pub read_page : Pager → ℕ → Outcome (Pager × Page)
unfolding stored
read_page p n = do
  check_that (not (n == 0) && ltb n p.meta.page_count) "read_page: page id out of range"
  page ← stored p n
  check_that (id page == n || type_code page == page_type_code PageType.invalid)
      "read_page: page header claims a different id (corruption?)"
  ok (record p { reads = p.reads + 1 }, page)

unfoldable pub write_page : Pager → ℕ → Page → Outcome Pager
write_page p n page = do
  check_that (not (n == 0) && ltb n p.meta.page_count) "write_page: page id out of range"
  check_that (id page == n) "write_page: page header id does not match destination"
  ok (record p { wal = write p.wal n page })

-- The page at the head of the free list, or one more page.
unfoldable pub allocate_page : Pager → Outcome (Pager × ℕ)
unfolding read_page touch_meta
allocate_page p =
    let m = p.meta in
    let n = m.freelist_head in
    if n == null_page
    then ok (
      touch_meta (record p { meta = record m { page_count = (m.page_count + 1) % 2 ^ 32 } }),
      m.page_count,
    )
    else do
      (p', page) ← read_page p n
      check_that (type_code page == page_type_code PageType.free)
          "free-list contains a page not marked free"
      ok (touch_meta (record p' { meta = record m { freelist_head = next_page page } }), n)

unfoldable pub free_page : Pager → ℕ → Outcome Pager
unfolding read_page write_page touch_meta
free_page p n = do
  check_that (not (n == 0) && ltb n p.meta.page_count) "free_page: page id out of range"
  (p', current) ← read_page p n
  check_that (not (type_code current == page_type_code PageType.free))
      "free_page: double free (page is already on the free list)"
  q ← write_page p' n (set_next_page (formatted n PageType.free) p.meta.freelist_head)
  ok (touch_meta (record q { meta = record q.meta { freelist_head = n } }))

-- The loop of `checkpoint`.
unfoldable pub copy_frames : Wal → SlotMap → File → Outcome File
copy_frames w [] f = ok f
copy_frames w ((n, slot) ∷ frames) f = do
  page ← read_frame w slot
  copy_frames w frames (pwrite_exact f page page_size (page_offset n))

-- The log with its frames made durable before they are copied; `full` synced them at the commit.
abbrev log_to_copy : Pager → Wal
log_to_copy p = elim p.durability [ Durability.normal ↦ sync p.wal | _ ↦ p.wal ]

unfoldable pub checkpoint : Pager → Outcome Pager
unfolding copy_frames
checkpoint p = do
  check_that (not (in_transaction p)) "checkpoint inside a transaction"
  let frames = committed_frames p.wal
  let w = log_to_copy p
  let want = page_offset p.meta.page_count
  (if length frames == 0 then ok p else do
    f ← copy_frames w frames p.file
    w' ← reset w
    ok (record p {
      file = if ltb f.size want then truncate_exact f want else f;
      file_pages = if ltb p.file_pages p.meta.page_count then p.meta.page_count else p.file_pages;
      wal = w';
      pages_checkpointed = p.pages_checkpointed + length frames;
      checkpoints = p.checkpoints + 1;
    }))

abbrev is_full : Durability → Bool
is_full Durability.full = true
is_full _ = false

-- `commit` behind the test for a transaction, before the checkpoint.
unfoldable pub committed : Pager → Pager
unfolding meta_page
committed p = record p {
  wal = commit p.wal (meta_page p.meta p.db_id) (is_full p.durability);
  committed_meta = p.meta;
  meta_dirty = false;
  commits = p.commits + 1;
}

unfoldable pub commit_all : Pager → Outcome Pager
unfolding committed checkpoint
commit_all p =
    let q = committed p in
    if not (in_transaction p)
    then ok p
    else if leb q.checkpoint_frames q.wal.end
    then checkpoint q
    else ok q

unfoldable pub rollback_all : Pager → Pager
rollback_all p = record p { wal = rollback p.wal; meta = p.committed_meta; meta_dirty = false }

unfoldable pub sync_all : Pager → Outcome Pager
unfolding commit_all checkpoint
sync_all p = do q ← commit_all p; checkpoint q

-- The destructor, where none of its calls throws.
unfoldable pub close : Pager → Outcome Pager
unfolding commit_all checkpoint
close p = do q ← commit_all p; r ← checkpoint q; w ← truncate r.wal; ok (record r { wal = w })

-- The log's transactions, with the newest meta page among them.
unfoldable pub redone : Pager → Option Page → Outcome Pager
unfolding load_meta checkpoint
redone p none = fail "recovery: the log's commits hold no meta page"
redone p (some page) = do
  m ← load_meta p.db_id page
  checkpoint (record p { meta = m; committed_meta = m })

-- The end of the constructor: what recovery found is copied into the file, and the log starts anew.
unfoldable pub recovered : Pager → Outcome Pager
unfolding redone
recovered p =
    if ltb 0 p.recovery.transactions
    then (read p.wal 0 >>= redone p)
    else if p.recovery.found
    then (reset p.wal >>= λ w. ok (record p { wal = w }))
    else ok p

-- The constructor on the two files, with the numbers that the random device draws.
unfoldable pub open_pager : File → File → ℕ → ℕ → Outcome Pager
unfolding open_database recovered
open_pager f log fresh_id fresh_generation = do
  (f', m, db_id) ← open_database f fresh_id
  let r = recover (open_wal log db_id fresh_generation)
  p ← recovered (record {
    file = f';
    meta = m;
    db_id = db_id;
    committed_meta = m;
    meta_dirty = false;
    file_pages = f'.size / page_size % 2 ^ 32;
    wal = r.0;
    durability = Durability.full;
    checkpoint_frames = 1000;
    recovery = r.1;
    reads = 0;
    commits = 0;
    checkpoints = 0;
    pages_checkpointed = 0;
  })
  check_that (leb p.meta.page_count p.file_pages)
      "the database file is shorter than its meta page says"
  ok p

-- The loop of `freelist_length`, from the page `n` on: the pager, and the pages that are left. The
-- code counts up to `page_count` and fails beyond it: `left` is how far it may still count.
unfoldable pub free_pages : ℕ → Pager → ℕ → Outcome (Pager × ℕ)
unfolding read_page
free_pages zero p n = if n == null_page then ok (p, 0) else fail "free list contains a cycle"
free_pages (suc left) p n = if n == null_page then ok (p, 0) else do
  (p', page) ← read_page p n
  check_that (type_code page == page_type_code PageType.free)
      "free-list contains a page not marked free"
  (q, more) ← free_pages left p' (next_page page)
  ok (q, more + 1)

unfoldable pub freelist_length : Pager → Outcome (Pager × ℕ)
unfolding free_pages
freelist_length p = free_pages p.meta.page_count p p.meta.freelist_head

unfoldable pub set_btree_root : Pager → ℕ → Pager
unfolding touch_meta
set_btree_root p n = touch_meta (record p { meta = record p.meta { btree_root = n } })

unfoldable pub set_heap_head : Pager → ℕ → Pager
unfolding touch_meta
set_heap_head p n = touch_meta (record p { meta = record p.meta { heap_head = n } })

unfoldable pub set_catalog_root : Pager → ℕ → Pager
unfolding touch_meta
set_catalog_root p n = touch_meta (record p { meta = record p.meta { catalog_root = n } })
