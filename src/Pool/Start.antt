-- ===== src/Pool/Start.antt =====
-- A new pool over a pager, and the moves of the tree's root in it.
use labdb.Prelude.{
  ℕ, zero, suc, ◌+◌, ◌<◌, ◌≤◌, ◌^◌, ◌≡◌, ◌≢◌, refl, arith, ap, sym, true, [], some, length, ok,
  leb-true, check_that, Outcome,
}
use labdb.Page.{Page, id}
use labdb.Wal.Slots.{find}
use labdb.Wal.Reads.{Store, Keeps}
use labdb.PageStore.{View}
use labdb.Pager
use labdb.Pager.{Pager, stored, touch_meta}
use labdb.Pager.FreeList.{read-Keeps}
use labdb.Pool.{Pool, Frame, frame_at, empty_frame, repeat, new_pool, pool_store}
use labdb.Pool.Sound.{Held, PoolShows, meta-Sound}
use labdb.Btree.Root.{Persists}

-- A version in the log is what the pager gives.
pub logged-Held :
    (pager : Pager) (store : Store) (n : ℕ) (p : Page)
    → Keeps pager.wal store
    → store.current n ≡ some p
    → Held pager n p
unfolding stored
logged-Held pager store n p k e =
    let (q, r, same) = read-Keeps pager.wal store n p k e in (q, rw r refl, λ i u. sym (same i u))

length-repeat : (n : ℕ) → length (repeat n) ≡ n
unfolding repeat
length-repeat zero = refl
length-repeat (suc n) = omega (arith, length-repeat n)

repeat_empty : (n i : ℕ) → frame_at (repeat n) i ≡ empty_frame
unfolding repeat
repeat_empty zero i = refl
repeat_empty (suc n) zero = refl
repeat_empty (suc n) (suc i) = repeat_empty n i

-- Over a well-formed log, where the pager has the pages of the view under their ids, no page is free and
-- `room` more ids are left, a new pool of at least one frame holds these pages.
pub new_pool-PoolShows :
    (pager : Pager) (store : Store) (view : View) (capacity room : ℕ)
    → Keeps pager.wal store
    → ((n : ℕ) (p : Page)
        → view n ≡ some p
        → (n ≢ 0) × (n < pager.meta.page_count) × (id p ≡ n) × Held pager n p)
    → 1 ≤ pager.meta.page_count
    → pager.meta.page_count + room < 2 ^ 32
    → pager.meta.freelist_head ≡ 0
    → 1 ≤ capacity
    → (b : Pool) × (new_pool pager capacity ≡ ok b) × PoolShows b view room
unfolding new_pool check_that find
new_pool-PoolShows pager store view capacity room k pages started left free some_frame = (
  record {
    pager = pager;
    frames = repeat capacity;
    table = [];
    dirty_list = [];
    hand = 0;
    writeback = true;
    logical_reads = 0;
    disk_reads = 0;
    disk_writes = 0;
    evictions = 0;
  },
  rw (leb-true 1 capacity some_frame) refl,
  record {
    sound = record {
      store = store;
      keeps = k;
      fits = omega arith;
      named = λ n p e. let (a, b, c, d) = pages n p e in (a, b, c);
      held = λ n p o e. (pages n p e).3;
      cached = λ n i e. absurd (cc e);
      owner = λ i u ne. absurd (ne (ap (λ (f : Frame). f.id) (repeat_empty capacity i)));
      free = λ i u. ap (λ (f : Frame). f.pins) (repeat_empty capacity i);
    };
    hand_within = omega (arith, length-repeat capacity);
    writes_back = refl;
    none_free = free;
    has_meta = started;
    ids_left = left;
  },
)

-- What `persist_root` calls for the database's own tree.
abbrev pub persist_global : Pool → ℕ → Outcome Pool
persist_global b n = ok (pool_store.set_btree_root b n)

-- Recording the root in the meta page leaves every page as it is.
pub persist_global-Persists : Persists persist_global PoolShows
unfolding Pager.set_btree_root touch_meta
persist_global-Persists b view room n h = (
  _,
  refl,
  record {
    sound =
        meta-Sound (record b.pager.meta { btree_root = n }) true b.pager.reads h.sound (omega arith)
          h.sound.fits;
    hand_within = h.hand_within;
    writes_back = h.writes_back;
    none_free = h.none_free;
    has_meta = h.has_meta;
    ids_left = h.ids_left;
  },
)
