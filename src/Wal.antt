-- ===== src/Wal.antt =====
-- src/wal.cpp and src/wal.hpp: the write-ahead log, over the bytes of its file. A slot of the log
-- holds a frame: a page id, flags, the log's generation, a checksum and a page. The calls of
-- `checksum64` are on 16, 32 and 4096 bytes, which pass its test, so they are calls of `digest`.
pub mod Slots
pub mod Frames
pub mod Replay
pub mod Log
pub mod Recovery
pub mod Reads
pub mod Header
pub mod Durability
use Prim.Native.Nat.{bit_xor}
use labdb.Prelude.{
  ℕ, zero, suc, ◌+◌, ◌-◌, ◌*◌, ◌/◌, ◌%◌, ◌^◌, ◌==◌, leb, ltb, Bool, true, false, not, ◌&&◌, Option,
  none, some, List, [], ◌∷◌, map, if◌then◌else◌, Outcome, ok, fail, check_that, ◌>>=◌, ◌>>◌,
}
use labdb.Common.{Bytes, zeroes, memcpy, load_u32, load_u64, store_u32, store_u64}
use labdb.Page.{Page, page_size}
use labdb.Io.{File, empty_file, pread_exact, pwrite_exact, truncate_exact}
use labdb.Checksum.{digest}
use Slots.{SlotMap, find, assign, assign_all}

abbrev pub wal_header_size : ℕ
wal_header_size = 64

abbrev pub frame_header_size : ℕ
frame_header_size = 24

abbrev pub frame_size : ℕ
frame_size = frame_header_size + page_size

abbrev pub frame_commit : ℕ
frame_commit = 1

-- The bytes of "labdbwal", as the little-endian word that they are.
abbrev pub wal_magic : ℕ
wal_magic = 0x6c6177626462616c

abbrev pub wal_version : ℕ
wal_version = 1

pub record Wal : Type 0 where
  pub file : File
  pub db_id : ℕ
  pub generation : ℕ
  pub header_ok : Bool
  pub keep_generation : Bool
  pub end : ℕ
  pub commit_end : ℕ
  pub committed : SlotMap
  pub pending : SlotMap
  pub frames_written : ℕ
  pub syncs : ℕ

-- Why the scan of `recover` stopped: the texts of `RecoveryReport::stopped`, with the slot.
pub data Stop : Type 0 where
  no_log end_of_log : Stop
  cut_short other_generation bad_checksum : ℕ → Stop

pub record RecoveryReport : Type 0 where
  pub found : Bool
  pub frames : ℕ
  pub transactions : ℕ
  pub pages : ℕ
  pub discarded : ℕ
  pub stopped : Stop

abbrev pub slot_offset : ℕ → ℕ
slot_offset slot = wal_header_size + slot * frame_size

-- The tests of the constructor on the header that the file begins with.
unfoldable pub header_matches : File → ℕ → Bool
header_matches f db_id =
    let h = f.bytes in
    leb wal_header_size f.size
    && load_u64 h 0 == wal_magic
    && load_u32 h 8 == wal_version
    && load_u32 h 12 == page_size
    && load_u64 h 24 == db_id
    && load_u64 h 32 == digest h 0 32 0

-- `Wal(path, db_id)`: `fresh` is what `fresh_generation()` draws, if it is called.
unfoldable pub open_wal : File → ℕ → ℕ → Wal
open_wal f db_id fresh =
    let header_ok = header_matches f db_id in
    record {
      file = f;
      db_id = db_id;
      generation = if header_ok then load_u64 f.bytes 16 else fresh;
      header_ok = header_ok;
      keep_generation = false;
      end = 0;
      commit_end = 0;
      committed = [];
      pending = [];
      frames_written = 0;
      syncs = 0;
    }

-- The first 32 bytes of the header, and all of it.
unfoldable pub header_fields : ℕ → ℕ → Bytes
header_fields generation db_id =
    let magic = store_u64 zeroes 0 wal_magic in
    let sizes = store_u32 (store_u32 magic 8 wal_version) 12 page_size in
    store_u64 (store_u64 sizes 16 generation) 24 db_id

unfoldable pub header_image : ℕ → ℕ → Bytes
header_image generation db_id =
    let h = header_fields generation db_id in store_u64 h 32 (digest h 0 32 0)

unfoldable pub write_header : Wal → Wal
write_header w = record w {
  file = pwrite_exact w.file (header_image w.generation w.db_id) wal_header_size 0;
  header_ok = true;
}

-- A frame before its checksum is stored, and all of it.
unfoldable pub frame_body : ℕ → ℕ → ℕ → Page → Bytes
frame_body generation id flags page =
    let ids = store_u32 (store_u32 zeroes 0 id) 4 flags in
    memcpy (store_u64 ids 8 generation) frame_header_size page 0 page_size

abbrev pub frame_checksum : ℕ → Bytes → ℕ
frame_checksum db_id buf = digest buf frame_header_size page_size (digest buf 0 16 db_id)

unfoldable pub frame_image : ℕ → ℕ → ℕ → ℕ → Page → Bytes
frame_image generation db_id id flags page =
    let buf = frame_body generation id flags page in store_u64 buf 16 (frame_checksum db_id buf)

-- if (!header_ok_) write_header()
unfoldable pub ensure_header : Wal → Wal
ensure_header w = if w.header_ok then w else write_header w

unfoldable pub write_frame : Wal → ℕ → ℕ → ℕ → Page → Wal
write_frame w slot id flags page =
    let v = ensure_header w in
    let buf = frame_image v.generation v.db_id id flags page in
    record v {
      file = pwrite_exact v.file buf frame_size (slot_offset slot);
      frames_written = v.frames_written + 1;
    }

-- What the loop of `recover` changes.
pub record Scan : Type 0 where
  pub frames : ℕ
  pub transactions : ℕ
  pub pending : SlotMap
  pub committed : SlotMap
  pub commit_end : ℕ
  pub stopped : Stop

abbrev pub scan_start : Scan
scan_start = record {
  frames = 0;
  transactions = 0;
  pending = [];
  committed = [];
  commit_end = 0;
  stopped = end_of_log;
}

-- The end of a round, for a valid frame: `commit` is the flag.
unfoldable pub take_frame : Scan → ℕ → ℕ → Bool → Scan
take_frame r slot id commit =
    let pending = assign id slot r.pending in
    if commit
    then record r {
      frames = r.frames + 1;
      transactions = r.transactions + 1;
      pending = [];
      committed = assign_all pending r.committed;
      commit_end = slot + 1;
    }
    else record r { frames = r.frames + 1; pending = pending }

abbrev pub is_commit : ℕ → Bool
is_commit flags = flags % 2 == frame_commit

-- The loop of `recover` from `slot` on. A round needs a whole frame in the file, so one round for
-- each frame that the file can hold, and one to stop, are enough fuel.
unfoldable pub scan : ℕ → File → ℕ → ℕ → ℕ → Scan → Scan
scan zero f generation db_id slot r = r
scan (suc fuel) f generation db_id slot r =
    let at = slot_offset slot in
    let buf = λ (i : ℕ). f.bytes (at + i) in
    let next =
      scan fuel f generation db_id (slot + 1)
        (take_frame r slot (load_u32 buf 0) (is_commit (load_u32 buf 4))) in
    if ltb f.size (at + frame_size)
    then (if ltb at f.size then record r { stopped = cut_short slot } else r)
    else if not (load_u64 buf 8 == generation)
    then record r { stopped = other_generation slot }
    else if not (load_u64 buf 16 == frame_checksum db_id buf)
    then record r { stopped = bad_checksum slot }
    else next

abbrev pub scan_fuel : File → ℕ
scan_fuel f = f.size / frame_size + 1

abbrev length : SlotMap → ℕ
length [] = 0
length (x ∷ m) = suc (length m)

unfoldable pub recover : Wal → Wal × RecoveryReport
unfolding scan take_frame
recover w =
    let r = scan (scan_fuel w.file) w.file w.generation w.db_id 0 scan_start in
    if w.header_ok
    then (
      record w {
        committed = r.committed;
        pending = [];
        commit_end = r.commit_end;
        end = r.commit_end;
      },
      record {
        found = true;
        frames = r.frames;
        transactions = r.transactions;
        pages = length r.committed;
        discarded = r.frames - r.commit_end;
        stopped = r.stopped;
      },
    )
    else (
      record w { committed = []; pending = []; commit_end = 0; end = 0 },
      record {
        found = false;
        frames = 0;
        transactions = 0;
        pages = 0;
        discarded = 0;
        stopped = no_log;
      },
    )

unfoldable pub read_frame : Wal → ℕ → Outcome Page
read_frame w slot = pread_exact w.file page_size (slot_offset slot + frame_header_size)

-- The slot of the latest version of a page: the pending one first, else the last committed.
unfoldable pub latest : Wal → ℕ → Option ℕ
latest w id = elim (find id w.pending) [ some slot ↦ some slot | none ↦ find id w.committed ]

-- `none` where the source returns false.
unfoldable pub read : Wal → ℕ → Outcome (Option Page)
unfolding latest
read w id = elim (latest w id) [
  | none ↦ ok none
  | some slot ↦ read_frame w slot >>= λ page. ok (some page)
]

unfoldable pub write : Wal → ℕ → Page → Wal
write w id page = elim (find id w.pending) [
  | some slot ↦
      let v = write_frame w slot id 0 page in record v { pending = assign id slot v.pending }
  | none ↦
      let v = write_frame w w.end id 0 page in
      record v { end = w.end + 1; pending = assign id w.end v.pending }
]

unfoldable pub sync : Wal → Wal
sync w = record w { syncs = w.syncs + 1 }

unfoldable pub commit : Wal → Page → Bool → Wal
unfolding sync
commit w meta durable =
    let slot = w.end in
    let v = write_frame w slot 0 frame_commit meta in
    let done = record v {
      committed = assign 0 slot (assign_all v.pending v.committed);
      pending = [];
      end = slot + 1;
      commit_end = slot + 1;
    } in
    if durable then sync done else done

unfoldable pub rollback : Wal → Wal
rollback w = record w { pending = []; end = w.commit_end }

abbrev pub has_pending : Wal → Bool
has_pending w = elim w.pending [ [] ↦ false | _ ∷ _ ↦ true ]

abbrev pub pending_pages : Wal → List ℕ
pending_pages w = map (λ e. e.0) w.pending

-- `++generation_`, on 64 bits
abbrev next_generation : Wal → ℕ
next_generation w = if w.keep_generation then w.generation else (w.generation + 1) % 2 ^ 64

unfoldable pub reset : Wal → Outcome Wal
reset w = do
  check_that (not (has_pending w)) "log reset inside a transaction"
  ok (
      write_header
        (record w { committed = []; end = 0; commit_end = 0; generation = next_generation w }))

unfoldable pub truncate : Wal → Outcome Wal
truncate w = do
  check_that (not (has_pending w)) "log truncated inside a transaction"
  ok (record w {
    committed = [];
    end = 0;
    commit_end = 0;
    file = truncate_exact w.file 0;
    header_ok = false;
    generation = next_generation w;
  })

-- std::sort of entries with distinct keys
insert_sorted : ℕ × ℕ → SlotMap → SlotMap
insert_sorted e [] = e ∷ []
insert_sorted e (x ∷ m) = if leb e.0 x.0 then e ∷ x ∷ m else x ∷ insert_sorted e m

sort_slots : SlotMap → SlotMap
unfolding insert_sorted
sort_slots [] = []
sort_slots (e ∷ m) = insert_sorted e (sort_slots m)

-- The committed frames, by page.
unfoldable pub committed_frames : Wal → SlotMap
unfolding sort_slots
committed_frames w = sort_slots w.committed
