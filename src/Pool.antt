-- ===== src/Pool.antt =====
-- src/buffer_pool.hpp, src/buffer_pool.cpp: a fixed number of frames in memory over a pager, with clock
-- replacement. The table of the resident pages is an association list; an operation that throws has
-- no state behind it in the model.
pub mod Clock
pub mod Sound
pub mod Evicted
pub mod Claim
pub mod Obtain
pub mod Readable
pub mod Laws
pub mod Start
use labdb.Prelude.{
  ℕ, zero, suc, ◌+◌, ◌-◌, ◌*◌, ◌%◌, Bool, true, false, ◌&&◌, ◌||◌, not, List, [], ◌∷◌, ◌++◌, Option,
  none, some, if◌then◌else◌, ◌==◌, leb, ltb, length, get_or, set, Outcome, ok, fail, check_that,
  ◌>>=◌, ◌>>◌,
}
use labdb.Common.{zeroes}
use labdb.Page.{Page, null_page, set_id}
use labdb.Wal.{pending_pages}
use labdb.Wal.Slots.{SlotMap, find, assign}
use labdb.PageStore.{PageStore}
use labdb.Pager
use labdb.Pager.{Pager}

pub record Frame : Type 0 where
  pub page : Page
  pub id : ℕ
  pub pins : ℕ
  pub dirty : Bool
  pub ref : Bool

abbrev pub empty_frame : Frame
empty_frame = record { page = zeroes; id = null_page; pins = 0; dirty = false; ref = false }

pub record Pool : Type 0 where
  pub pager : Pager
  pub frames : List Frame
  pub table : SlotMap
  pub dirty_list : List ℕ
  pub hand : ℕ
  pub writeback : Bool
  pub logical_reads : ℕ
  pub disk_reads : ℕ
  pub disk_writes : ℕ
  pub evictions : ℕ

abbrev pub frame_at : List Frame → ℕ → Frame
frame_at frames i = get_or frames i empty_frame

abbrev pub update : Pool → ℕ → Frame → Pool
update b i f = record b { frames = set b.frames i f }

-- table_.erase(id)
unfoldable pub remove : ℕ → SlotMap → SlotMap
remove id [] = []
remove id ((n, i) ∷ m) = if n == id then remove id m else (n, i) ∷ remove id m

unfoldable pub repeat : ℕ → List Frame
repeat zero = []
repeat (suc n) = empty_frame ∷ repeat n

-- The constructor.
unfoldable pub new_pool : Pager → ℕ → Outcome Pool
unfolding repeat
new_pool pager capacity = do
  check_that (leb 1 capacity) "buffer pool needs at least one frame"
  ok (record {
    pager = pager;
    frames = repeat capacity;
    table = [];
    dirty_list = [];
    hand = 0;
    writeback = true;
    logical_reads = 0;
    disk_reads = 0;
    disk_writes = 0;
    evictions = 0;
  })

-- What `choose_victim` leaves: the frames with their bits, the hand, and the victim.
pub record Victim : Type 0 where
  pub frames : List Frame
  pub hand : ℕ
  pub index : ℕ

-- The loop of `choose_victim`, for `left` rounds.
unfoldable pub sweep : ℕ → List Frame → ℕ → Outcome Victim
sweep zero frames hand =
    fail
      "buffer pool exhausted: every frame is pinned (capacity is smaller than the working pin set)"
sweep (suc left) frames hand =
    let f = frame_at frames hand in
    let next = (hand + 1) % length frames in
    elim (ltb 0 f.pins) [
      | true ↦ sweep left frames next
      | false ↦ elim f.ref [
        | true ↦ sweep left (set frames hand (record f { ref = false })) next
        | false ↦ ok (record { frames = frames; hand = next; index = hand })
      ]
    ]

unfoldable pub choose_victim : Pool → Outcome (Pool × ℕ)
unfolding sweep
choose_victim b = do
  v ← sweep (2 * length b.frames + 1) b.frames b.hand
  ok (record b { frames = v.frames; hand = v.hand }, v.index)

unfoldable pub drop : Pool → ℕ → Pool
unfolding remove
drop b i =
    let f = frame_at b.frames i in
    record b {
      table = remove f.id b.table;
      frames = set b.frames i (record f { id = null_page; dirty = false; ref = false });
    }

-- The page of frame `i` written to the pager.
unfoldable pub write_back : Pool → ℕ → Outcome Pool
write_back b i = do
  let f = frame_at b.frames i
  pager ← Pager.write_page b.pager f.id f.page
  ok (record b { pager = pager; disk_writes = b.disk_writes + 1 })

unfoldable pub evict : Pool → ℕ → Outcome Pool
unfolding write_back drop
evict b i =
    let f = frame_at b.frames i in
    if f.id == null_page then ok b else do
      b' ← if f.dirty && b.writeback then write_back b i else ok b
      ok (drop (record b' { evictions = b'.evictions + 1 }) i)

-- The first empty frame without pins, from the frame `i` on.
unfoldable pub find_empty : List Frame → ℕ → Option ℕ
find_empty [] i = none
find_empty (f ∷ frames) i =
    let rest = find_empty frames (i + 1) in
    if f.id == null_page && f.pins == 0 then some i else rest

-- A frame for a page that is not resident: an empty one, else a victim's.
unfoldable pub claim : Pool → Outcome (Pool × ℕ)
unfolding choose_victim evict find_empty
claim b = elim (find_empty b.frames 0) [
  | some i ↦ ok (b, i)
  | none ↦ do (b', i) ← choose_victim b; b'' ← evict b' i; ok (b'', i)
]

-- The page that fills a claimed frame, from the pager or fresh.
unfoldable pub fill : Pool → ℕ → Bool → Outcome (Pool × Page)
fill b id true = do
  (pager, page) ← Pager.read_page b.pager id
  ok (record b { pager = pager; disk_reads = b.disk_reads + 1 }, page)
fill b id false = ok (b, set_id zeroes id)

unfoldable pub obtain : Pool → ℕ → Bool → Outcome (Pool × ℕ)
unfolding claim fill
obtain b id from_disk = elim (find id b.table) [
  | some i ↦
      let f = frame_at b.frames i in ok (update b i (record f { pins = f.pins + 1; ref = true }), i)
  | none ↦ do
    (b', i) ← claim b
    (b'', page) ← fill b' id from_disk
    ok (
      record (update b'' i (record { page = page; id = id; pins = 1; dirty = false; ref = true })) {
        table = assign id i b''.table;
      },
      i,
    )
]

unfoldable pub mark_dirty : Pool → ℕ → Pool
mark_dirty b i =
    let f = frame_at b.frames i in
    if f.dirty
    then b
    else record (update b i (record f { dirty = true })) { dirty_list = b.dirty_list ++ i ∷ [] }

-- --f.pins
unfoldable pub release : Pool → ℕ → Pool
release b i = let f = frame_at b.frames i in update b i (record f { pins = f.pins - 1 })

-- The page, and the pool in which it is pinned.
unfoldable pub fetch_pin : Pool → ℕ → Outcome (Pool × Page)
unfolding obtain
fetch_pin b id = do (b', i) ← obtain b id true; ok (b', (frame_at b'.frames i).page)

unfoldable pub unpin : Pool → ℕ → Bool → Outcome Pool
unfolding mark_dirty release
unpin b id dirty = elim (find id b.table) [
  | none ↦ fail "unpin of a page that is not resident"
  | some i ↦ do
    check_that (ltb 0 (frame_at b.frames i).pins) "unpin of a frame that is not pinned"
    ok (release (if dirty then mark_dirty b i else b) i)
]

unfoldable pub read_page : Pool → ℕ → Outcome (Pool × Page)
unfolding obtain release
read_page b id = do
  (b', i) ← obtain (record b { logical_reads = b.logical_reads + 1 }) id true
  ok (release b' i, (frame_at b'.frames i).page)

abbrev pub is_resident : Pool → ℕ → Bool
is_resident b id = elim (find id b.table) [ none ↦ false | some i ↦ true ]

unfoldable pub write_page : Pool → ℕ → Page → Outcome Pool
unfolding obtain release mark_dirty
write_page b id page = do
  (b', i) ← obtain b id (is_resident b id)
  let f = frame_at b'.frames i
  ok (release (mark_dirty (update b' i (record f { page = page })) i) i)

unfoldable pub allocate_page : Pool → Outcome (Pool × ℕ)
unfolding obtain release mark_dirty
allocate_page b = do
  (pager, id) ← Pager.allocate_page b.pager
  (b', i) ← obtain (record b { pager = pager }) id false
  ok (release (mark_dirty b' i) i, id)

-- A freed page's frame is dropped, not written.
unfoldable pub free_page : Pool → ℕ → Outcome Pool
unfolding drop
free_page b id = do
  b' ← elim (find id b.table) [
    | none ↦ ok b
    | some i ↦ do
      let f = frame_at b.frames i
      check_that (f.pins == 0) "free_page of a pinned page"
      ok (drop (update b i (record f { page = zeroes })) i)
  ]
  pager ← Pager.free_page b'.pager id
  ok (record b' { pager = pager })

-- A frame of the list of dirty ones that is neither evicted nor clean by now.
abbrev is_changed : Frame → Bool
is_changed f = not (f.id == null_page) && f.dirty

-- The loop of `commit`.
unfoldable pub write_all : List ℕ → Pool → Outcome Pool
unfolding write_back
write_all [] b = ok b
write_all (i ∷ list) b =
    let f = frame_at b.frames i in
    elim (is_changed f) [
      | false ↦ write_all list b
      | true ↦ do b' ← write_back b i; write_all list (update b' i (record f { dirty = false }))
    ]

unfoldable pub commit : Pool → Outcome Pool
unfolding write_all
commit b = do
  b' ← write_all b.dirty_list b
  pager ← Pager.commit_all b'.pager
  ok (record b' { dirty_list = []; pager = pager })

unfoldable pub sync : Pool → Outcome Pool
unfolding commit
sync b = do b' ← commit b; pager ← Pager.sync_all b'.pager; ok (record b' { pager = pager })

-- The first loop of `rollback`: the changed frames.
unfoldable pub drop_changed : List ℕ → Pool → Outcome Pool
unfolding drop
drop_changed [] b = ok b
drop_changed (i ∷ list) b =
    let f = frame_at b.frames i in
    elim (is_changed f) [
      | false ↦ drop_changed list b
      | true ↦ do
        check_that (f.pins == 0) "rollback with a changed page still pinned"
        drop_changed list (drop b i)
    ]

-- The second loop: the frames of pages whose newest version is the transaction's.
unfoldable pub drop_pending : List ℕ → Pool → Outcome Pool
unfolding drop
drop_pending [] b = ok b
drop_pending (id ∷ ids) b = elim (find id b.table) [
  | none ↦ drop_pending ids b
  | some i ↦ do
    check_that ((frame_at b.frames i).pins == 0) "rollback with a changed page still pinned"
    drop_pending ids (drop b i)
]

unfoldable pub rollback : Pool → Outcome Pool
unfolding drop_changed drop_pending
rollback b = do
  b' ← drop_changed b.dirty_list b
  b'' ← drop_pending (pending_pages b'.pager.wal) (record b' { dirty_list = [] })
  ok (record b'' { pager = Pager.rollback_all b''.pager })

unfoldable pub any_changed : List ℕ → Pool → Bool
any_changed [] b = false
any_changed (i ∷ list) b = is_changed (frame_at b.frames i) || any_changed list b

unfoldable pub in_transaction : Pool → Bool
unfolding any_changed
in_transaction b = Pager.in_transaction b.pager || any_changed b.dirty_list b

-- The surface that the B+Tree and the heap use.
abbrev pub pool_store : PageStore Pool
pool_store = record {
  read_page = read_page;
  write_page = write_page;
  allocate_page = allocate_page;
  free_page = free_page;
  btree_root = λ b. b.pager.meta.btree_root;
  set_btree_root = λ b id. record b { pager = Pager.set_btree_root b.pager id };
  heap_head = λ b. b.pager.meta.heap_head;
  set_heap_head = λ b id. record b { pager = Pager.set_heap_head b.pager id };
}
