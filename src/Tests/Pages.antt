-- ===== src/Tests/Pages.antt =====
-- Runs of the pager and of the buffer pool.
use labdb.Prelude.{
  ℕ, zero, suc, ◌*◌, ◌<◌, ◌≡◌, ◌≢◌, refl, arith, true, false, List, [], ◌∷◌, ok, fail, check_that,
}
use labdb.Common.{zeroes, load, store, put}
use labdb.Page.{PageType, page_size, set_id, set_type, set_next_page}
use labdb.Io.{empty_file, pread_exact}
use labdb.Wal.{RecoveryReport, no_log, open_wal, header_matches, read, write}
use labdb.Wal.Slots.{find}
use labdb.Wal.Durability.{create-Keeps, empty_store}
use labdb.Pager.{Pager, Meta, Durability, load_meta, meta_page, free_page, allocate_page}
use labdb.Pager.FreeList.{allocate_page-free_page}
use labdb.Pager.MetaPage.{load_meta-meta_page}
use labdb.Pool.{Pool, Frame, Victim, frame_at, choose_victim}
use labdb.Pool.Clock.{Found, choose_victim-Found, choose_victim-eq-fail}

abbrev meta : Meta
meta = record { page_count = 8; freelist_head = 0; btree_root = 3; heap_head = 4; catalog_root = 1 }

load_meta-meta_page_example : load_meta 77 (meta_page meta 77) ≡ ok meta
load_meta-meta_page_example =
    load_meta-meta_page meta 77
      (record {
        page_count = omega arith;
        freelist_head = omega arith;
        btree_root = omega arith;
        heap_head = omega arith;
        catalog_root = omega arith;
      })
      (omega arith)

abbrev report : RecoveryReport
report = record {
  found = false;
  frames = 0;
  transactions = 0;
  pages = 0;
  discarded = 0;
  stopped = no_log;
}

-- A database of eight pages, with an empty log.
abbrev pager : Pager
pager = record {
  file = record { bytes = zeroes; size = 8 * page_size };
  meta = meta;
  db_id = 77;
  committed_meta = meta;
  meta_dirty = false;
  file_pages = 8;
  wal = open_wal empty_file 77 5;
  durability = Durability.full;
  checkpoint_frames = 1000;
  recovery = report;
  reads = 0;
  commits = 0;
  checkpoints = 0;
  pages_checkpointed = 0;
}

abbrev pinned : Frame
pinned = record { page = zeroes; id = 2; pins = 1; dirty = true; ref = true }

abbrev unpinned : Frame
unpinned = record { page = zeroes; id = 5; pins = 0; dirty = false; ref = true }

abbrev pool_of : List Frame → Pool
pool_of frames = record {
  pager = pager;
  frames = frames;
  table = [];
  dirty_list = [];
  hand = 0;
  writeback = true;
  logical_reads = 0;
  disk_reads = 0;
  disk_writes = 0;
  evictions = 0;
}

abbrev pool : Pool
pool = pool_of (pinned ∷ unpinned ∷ [])

choose_victim-Found_example :
    (v : Victim) × (choose_victim pool
      ≡ ok (record pool { frames = v.frames; hand = v.hand }, v.index))
    × Found pool.frames v
choose_victim-Found_example = choose_victim-Found pool 1 (omega arith) (omega arith) refl

abbrev full_pool : Pool
full_pool = pool_of (pinned ∷ [])

full_pool_pinned : (t : ℕ) → t < 1 → (frame_at full_pool.frames t).pins ≢ 0
full_pool_pinned zero h = λ e. absurd (omega (arith, e))
full_pool_pinned (suc t) h = absurd (omega arith)

choose_victim-eq-fail_example :
    choose_victim full_pool
    ≡ fail
        "buffer pool exhausted: every frame is pinned (capacity is smaller than the working pin set)"
choose_victim-eq-fail_example = choose_victim-eq-fail full_pool (omega arith) full_pool_pinned

abbrev freed_pager : Pager
freed_pager = record pager {
  meta = record meta { freelist_head = 3 };
  meta_dirty = true;
  wal = write pager.wal 3 (set_next_page (set_type (set_id zeroes 3) PageType.free) 0);
  reads = 1;
}

frees : free_page pager 3 ≡ ok freed_pager
unfolding free_page open_wal header_matches read pread_exact load store put find check_that
frees = refl

allocate_page-free_page_example :
    ((r : Pager) × (allocate_page freed_pager ≡ ok (r, 3)) × (r.meta ≡ meta))
    × (free_page freed_pager 3 ≡ fail "free_page: double free (page is already on the free list)")
allocate_page-free_page_example =
    allocate_page-free_page pager empty_store 3 freed_pager
      (create-Keeps 77 5 (omega arith) (omega arith)) (omega arith) (omega arith) frees
