-- ===== src/Pool/Laws.antt =====
-- The pool is a page store as its clients take it to be.
use labdb.Prelude.{
  ℕ, suc, ◌+◌, ◌%◌, ◌<◌, ◌^◌, ◌≡◌, ◌≢◌, inl, inr, refl, arith, ◌∙◌, ap, sym, subst, true, false,
  List, none, some, set, ok, Option-cases, ==_refl, ==_ne, goes_on,
}
use labdb.Common.{zeroes}
use labdb.Common.Fields.{load-store_self}
use labdb.Page.{Page, id, set_id}
use labdb.Wal.Slots.{find}
use labdb.PageStore.{SamePage, View, put_page, PageLaws}
use labdb.Pager
use labdb.Pager.{Pager, Meta, stored, touch_meta}
use labdb.Pool.{
  Pool, Frame, frame_at, update, fill, obtain, mark_dirty, release, is_resident, write_page,
  allocate_page, pool_store,
}
use labdb.Pool.Sound.{Changed, set-Changed, Changed-trans, meta-Sound, PoolShows}
use labdb.Pool.Claim.{claim-Emptied}
use labdb.Pool.Obtain.{Obtained, obtain_hit, obtain_miss, mark_release}
use labdb.Pool.Readable.{pool_read}

-- A frame that is obtained, given the page `p`, marked and released.
module _ (b : Pool) (view : View) (room n : ℕ) (p : Page) (b' : Pool) (i : ℕ)
    (h : PoolShows b view room) (o : Obtained b view n b' i) (names : id p ≡ n) where
  settled :
      (frames' : List Frame) (f : Frame)
      → Changed b'.frames frames' i f
      → f.id ≡ n
      → f.pins ≡ 1
      → SamePage p f.page
      → PoolShows
          (release (mark_dirty (record b' { frames = frames' }) i) i)
          (put_page view n p)
          room
  settled frames' f c own pinned same =
      let y = record b' { frames = frames' } in
      let (frames'', dirty_list, g, eq, c', gid, gp, gd, gpage) =
        mark_release y i f (omega (arith, o.within, c.size)) c.here in
      let metas = ap (λ (m : Meta). m.page_count) o.meta in
      let both = Changed-trans c c' in
      let shows : PoolShows (record y { frames = frames''; dirty_list = dirty_list })
          (put_page view n p) room =
        record {
          sound =
              o.settle frames'' g (put_page view n p) p both (rw (==_refl n) refl)
                (λ j ne. rw (==_ne n j ne) refl) names (gid ∙ own) (omega (arith, gp, pinned))
                (λ j u. same j u ∙ ap (λ (p : Page). p j) (sym gpage)) (λ d. absurd (cc (gd, d)));
          hand_within = omega (arith, o.hand_within, both.size);
          writes_back = o.writes_back;
          none_free = ap (λ (m : Meta). m.freelist_head) o.meta ∙ h.none_free;
          has_meta = omega (arith, metas, h.has_meta);
          ids_left = omega (arith, metas, h.ids_left);
        } in
      subst (λ t. PoolShows t (put_page view n p) room) (sym eq) shows

module _ (b : Pool) (view : View) (room : ℕ) (h : PoolShows b view room) (n : ℕ) where
  -- A fresh page, for one that is not resident.
  obtain_fresh :
      find n b.table ≡ none
      → n ≢ 0
      → n < b.pager.meta.page_count
      → (b' : Pool) × (i : ℕ) × (obtain b n false ≡ ok (b', i))
        × Obtained b view n b' i
        × ((frame_at b'.frames i).page ≡ set_id zeroes n)
  unfolding fill
  obtain_fresh e n0 lt =
      let (c, i, ce, em) = claim-Emptied b view room h in
      let (eq, o, ch) =
        obtain_miss b view room h n c c i false c.pager (set_id zeroes n) c.disk_reads e n0 lt ce em
          refl refl refl in
      (_, i, eq, o, ap (λ (f : Frame). f.page) ch.here)

  obtain_over :
      (p : Page)
      → view n ≡ some p
      → (b' : Pool) × (i : ℕ) × (obtain b n (is_resident b n) ≡ ok (b', i)) × Obtained b view n b' i
  obtain_over p seen =
      let (n0, lt, names) = h.sound.named n p seen in
      elim (Option-cases (find n b.table)) [
        | inl e ↦
            let absent : is_resident b n ≡ false = rw (is_resident, e) refl in
            let (b', i, eq, o, pe) = obtain_fresh e n0 lt in (b', i, ap (obtain b n) absent ∙ eq, o)
        | inr (i, e) ↦
            let there : is_resident b n ≡ true = rw (is_resident, e) refl in
            let (eq, o, c) = obtain_hit b view room h n i true (frame_at b.frames i) refl e in
            (_, i, ap (obtain b n) there ∙ eq, o)
      ]

pool_write :
    (b : Pool) (view : View) (room n : ℕ) (p page : Page)
    → PoolShows b view room
    → view n ≡ some p
    → id page ≡ n
    → (t : Pool) × (write_page b n page ≡ ok t) × PoolShows t (put_page view n page) room
unfolding write_page
pool_write b view room n p page h seen names =
    let (b', i, e, o) = obtain_over b view room h n p seen in
    let f : Frame = record (frame_at b'.frames i) { page = page } in
    (
      release (mark_dirty (update b' i f) i) i,
      goes_on _ e refl,
      settled b view room n page b' i h o names (set b'.frames i f) f
          (set-Changed b'.frames i f o.within) o.names o.pinned (λ j u. refl),
    )

pager-allocate_page :
    (p : Pager)
    → p.meta.freelist_head ≡ 0
    → Pager.allocate_page p
      ≡ ok (
        record p {
          meta = record p.meta { page_count = (p.meta.page_count + 1) % 2 ^ 32 };
          meta_dirty = true;
        },
        p.meta.page_count,
      )
unfolding Pager.allocate_page touch_meta
pager-allocate_page p e = rw (Pager.allocate_page, e) refl

pool_allocate :
    (b : Pool) (view : View) (room : ℕ)
    → PoolShows b view (suc room)
    → (t : Pool) × (n : ℕ) × (allocate_page b ≡ ok (t, n))
      × (view n ≡ none)
      × (n < 2 ^ 32)
      × PoolShows t (put_page view n (set_id zeroes n)) room
unfolding allocate_page
pool_allocate b view room h =
    let n = b.pager.meta.page_count in
    let m : Meta = record b.pager.meta { page_count = (n + 1) % 2 ^ 32 } in
    let pager : Pager = record b.pager { meta = m; meta_dirty = true } in
    let left = h.ids_left in
    let next : (n + 1) % 2 ^ 32 ≡ n + 1 = omega arith in
    let x = record b { pager = pager } in
    let hx : PoolShows x view room = record {
      sound =
          meta-Sound m true b.pager.reads h.sound (omega (arith, next)) (omega (arith, next, left));
      hand_within = h.hand_within;
      writes_back = h.writes_back;
      none_free = h.none_free;
      has_meta = omega (arith, next);
      ids_left = omega (arith, next, left);
    } in
    let unseen : view n ≡ none = elim (Option-cases (view n)) [
      | inl e ↦ e
      | inr (p, e) ↦ absurd (omega (arith, (h.sound.named n p e).1))
    ] in
    let absent : find n b.table ≡ none = elim (Option-cases (find n b.table)) [
      | inl e ↦ e
      | inr (i, e) ↦
          let c = (h.sound.cached n i e).1 in
          absurd (omega (arith, (h.sound.named n c.page c.seen).1))
    ] in
    let fits : n < 2 ^ 32 = omega (arith, left) in
    let (b', i, e, o, pe) =
      obtain_fresh x view room hx n absent (λ z. absurd (omega (arith, z, h.has_meta)))
        (omega (arith, next)) in
    (
      release (mark_dirty b' i) i,
      n,
      goes_on _ (pager-allocate_page b.pager h.none_free) (goes_on _ e refl),
      unseen,
      fits,
      settled x view room n (set_id zeroes n) b' i hx o (load-store_self 4 zeroes 0 n fits)
          b'.frames (frame_at b'.frames i)
          (record { size = refl; here = refl; there = λ j ne. refl }) o.names o.pinned
          (λ j u. ap (λ (p : Page). p j) (sym pe)),
    )

-- The buffer pool meets the laws that the B+Tree relies on: at any size of the pool, over any well-formed
-- log, with no page pinned, write-back on, the free list empty and ids left for new pages, a read of a
-- page gives the newest one that was written, whether it is resident, in the log or in the file, a write
-- of a page that carries its id replaces that page alone, and an allocated page is a new one; none of the three fails, with all the evictions
-- and write-backs on the way, and each leaves the pool in such a state again.
pub pool_store-PageLaws : PageLaws pool_store PoolShows
pool_store-PageLaws = record { read = pool_read; write = pool_write; allocate = pool_allocate }
