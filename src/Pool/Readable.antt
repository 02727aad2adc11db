-- ===== src/Pool/Readable.antt =====
-- A read through the pool gives the newest page that was written, wherever it is.
use labdb.Prelude.{
  ℕ, ◌+◌, ◌-◌, ◌<◌, ◌≡◌, ◌≢◌, inl, inr, refl, arith, ◌∙◌, ap, sym, subst, true, false, none, some,
  set, ok, Option-cases, ==_refl, ==_ne, ltb-true, check_that, goes_on,
}
use labdb.Page.{Page, id}
use labdb.Wal.Slots.{find}
use labdb.PageStore.{SamePage, View}
use labdb.Pager
use labdb.Pager.{Pager, Meta, stored, touch_meta}
use labdb.Pool.{Pool, Frame, frame_at, fill, obtain, release, read_page}
use labdb.Pool.Sound.{Held, set-Changed, PoolShows, page-injective}
use labdb.Pool.Claim.{claim-Emptied, id-same}
use labdb.Pool.Obtain.{Obtained, obtain_hit, obtain_miss}

-- A frame that was obtained for reading has the page.
record Readable (b : Pool) (view : View) (n : ℕ) (p : Page) (b' : Pool) (i : ℕ) : Type 0 where
  obtained : Obtained b view n b' i
  same : SamePage p (frame_at b'.frames i).page
  clean : (frame_at b'.frames i).dirty ≡ false → Held b'.pager n p

pager-read_page :
    (pager : Pager) (n : ℕ) (q : Page)
    → n ≢ 0
    → n < pager.meta.page_count
    → stored pager n ≡ ok q
    → id q ≡ n
    → Pager.read_page pager n ≡ ok (record pager { reads = pager.reads + 1 }, q)
unfolding Pager.read_page check_that
pager-read_page pager n q ne u e names =
    rw (==_ne n 0 ne, ltb-true n pager.meta.page_count u, e, names, ==_refl n) refl

fill-from_disk :
    (c : Pool) (n : ℕ) (pager : Pager) (q : Page)
    → Pager.read_page c.pager n ≡ ok (pager, q)
    → fill c n true ≡ ok (record c { pager = pager; disk_reads = c.disk_reads + 1 }, q)
unfolding fill
fill-from_disk c n pager q e = rw e refl

module _ (b : Pool) (view : View) (room : ℕ) (h : PoolShows b view room) (n : ℕ) (p : Page)
    (seen : view n ≡ some p) where
  obtain-Readable_hit :
      (i : ℕ)
      → find n b.table ≡ some i
      → (b' : Pool) × (i : ℕ) × (obtain b n true ≡ ok (b', i)) × Readable b view n p b' i
  obtain-Readable_hit i e =
      let (l, old) = h.sound.cached n i e in
      let (eq, o, c) = obtain_hit b view room h n i true (frame_at b.frames i) refl e in
      let pq = page-injective (sym old.seen ∙ seen) in
      (
        _,
        i,
        eq,
        record {
          obtained = o;
          same = λ j u.
              ap (λ (p : Page). p j) (sym pq)
              ∙ old.same j u
              ∙ ap (λ (f : Frame). f.page j) (sym c.here);
          clean = λ d.
              subst (Held b.pager n) pq (old.clean (ap (λ (f : Frame). f.dirty) (sym c.here) ∙ d));
        },
      )

  obtain-Readable_miss :
      find n b.table ≡ none
      → (b' : Pool) × (i : ℕ) × (obtain b n true ≡ ok (b', i)) × Readable b view n p b' i
  unfolding stored
  obtain-Readable_miss e =
      let (c, i, ce, em) = claim-Emptied b view room h in
      let s = em.shows.sound in
      let (q, se, same) = s.held n p (em.absent n e) seen in
      let (n0, lt, names) = s.named n p seen in
      let pager = record c.pager { reads = c.pager.reads + 1 } in
      let re = pager-read_page c.pager n q n0 lt se (sym (id-same p q same) ∙ names) in
      let (eq, o, ch) =
        obtain_miss b view room h n c _ i true pager q (c.disk_reads + 1) e n0
          (h.sound.named n p seen).1 ce em refl refl (fill-from_disk c n pager q re) in
      (
        _,
        i,
        eq,
        record {
          obtained = o;
          same = λ j u. same j u ∙ ap (λ (f : Frame). f.page j) (sym ch.here);
          clean = λ d. (q, se, same);
        },
      )

  obtain-Readable :
      (b' : Pool) × (i : ℕ) × (obtain b n true ≡ ok (b', i)) × Readable b view n p b' i
  obtain-Readable = elim (Option-cases (find n b.table)) [
    | inl e ↦ obtain-Readable_miss e
    | inr (i, e) ↦ obtain-Readable_hit i e
  ]

release-PoolShows :
    (b : Pool) (view : View) (room n : ℕ) (p : Page) (b' : Pool) (i : ℕ)
    → PoolShows b view room
    → view n ≡ some p
    → Readable b view n p b' i
    → PoolShows (release b' i) view room
unfolding release
release-PoolShows b view room n p b' i h seen r =
    let o = r.obtained in
    let f = frame_at b'.frames i in
    let g : Frame = record f { pins = f.pins - 1 } in
    let c = set-Changed b'.frames i g o.within in
    let metas = ap (λ (m : Meta). m.page_count) o.meta in
    record {
      sound =
          o.settle (set b'.frames i g) g view p c seen (λ j ne. refl) (h.sound.named n p seen).2
            o.names (omega (arith, o.pinned)) r.same r.clean;
      hand_within = omega (arith, o.hand_within, c.size);
      writes_back = o.writes_back;
      none_free = ap (λ (m : Meta). m.freelist_head) o.meta ∙ h.none_free;
      has_meta = omega (arith, metas, h.has_meta);
      ids_left = omega (arith, metas, h.ids_left);
    }

pub pool_read :
    (b : Pool) (view : View) (room n : ℕ) (p : Page)
    → PoolShows b view room
    → view n ≡ some p
    → (t : Pool) × (q : Page) × (read_page b n ≡ ok (t, q)) × SamePage p q × PoolShows t view room
unfolding read_page
pool_read b view room n p h seen =
    let x = record b { logical_reads = b.logical_reads + 1 } in
    let hx : PoolShows x view room = record {
      sound = h.sound;
      hand_within = h.hand_within;
      writes_back = h.writes_back;
      none_free = h.none_free;
      has_meta = h.has_meta;
      ids_left = h.ids_left;
    } in
    let (b', i, e, r) = obtain-Readable x view room hx n p seen in
    (
      release b' i,
      (frame_at b'.frames i).page,
      goes_on _ e refl,
      r.same,
      release-PoolShows x view room n p b' i hx seen r,
    )
