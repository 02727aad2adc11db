-- ===== src/Pool/Claim.antt =====
-- `claim` always finds a frame for one more page, and loses none.
use labdb.Prelude.{
  ℕ, suc, ◌+◌, ◌<◌, ◌≡◌, ◌≢◌, inl, inr, refl, arith, ◌∙◌, ap, sym, subst, true, false, List, [],
  ◌∷◌, none, some, ◌==◌, length, ok, Bool-cases, Option-cases, ==_refl, ==_ne, ltb-true, check_that,
  ◌&&◌,
}
use labdb.Common.Fields.{load-congr}
use labdb.Page.{Page, id}
use labdb.Wal.Slots.{find}
use labdb.PageStore.{SamePage, View}
use labdb.Pager
use labdb.Pager.{Pager, Meta, stored}
use labdb.Pool.{Pool, Frame, frame_at, drop, write_back, evict, find_empty, claim}
use labdb.Pool.Clock.{choose_victim-Found}
use labdb.Pool.Sound.{Held, set-Changed, PoolShows, page-injective}
use labdb.Pool.Evicted.{find-remove, same-Sound, dropped-Sound, wrote, written_self, written-Sound}

-- The pool `b'` holds the same pages, and its frame `i` is empty.
pub record Emptied (b : Pool) (view : View) (room : ℕ) (b' : Pool) (i : ℕ) : Type 0 where
  pub shows : PoolShows b' view room
  pub within : i < length b'.frames
  pub empty : (frame_at b'.frames i).id ≡ 0
  pub meta : b'.pager.meta ≡ b.pager.meta
  pub absent : (n : ℕ) → find n b.table ≡ none → find n b'.table ≡ none

pub id-same : (p q : Page) → SamePage p q → id p ≡ id q
id-same p q same = load-congr 4 p q 0 (λ i l u. same i (omega arith))

write_page-wrote :
    (pager : Pager) (n : ℕ) (page : Page)
    → n ≢ 0
    → n < pager.meta.page_count
    → id page ≡ n
    → Pager.write_page pager n page ≡ ok (wrote pager n page)
unfolding Pager.write_page check_that
write_page-wrote pager n page ne u e =
    rw (==_ne n 0 ne, ltb-true n pager.meta.page_count u, e, ==_refl n) refl

module _ (b : Pool) (i : ℕ) where
  evict-empty : (frame_at b.frames i).id ≡ 0 → evict b i ≡ ok b
  unfolding evict
  evict-empty e = rw (evict, e) refl

  evict-clean :
      (frame_at b.frames i).id ≢ 0
      → (frame_at b.frames i).dirty ≡ false
      → evict b i ≡ ok (drop (record b { evictions = b.evictions + 1 }) i)
  unfolding evict
  evict-clean ne d = rw (evict, ==_ne (frame_at b.frames i).id 0 ne, d) refl

  evict-dirty :
      (pager : Pager)
      → (frame_at b.frames i).id ≢ 0
      → (frame_at b.frames i).dirty ≡ true
      → b.writeback ≡ true
      → Pager.write_page b.pager (frame_at b.frames i).id (frame_at b.frames i).page ≡ ok pager
      → evict b i
        ≡ ok (
            drop
              (record b {
                pager = pager;
                disk_writes = b.disk_writes + 1;
                evictions = b.evictions + 1;
              })
              i)
  unfolding evict write_back
  evict-dirty pager ne d w e =
      let both : (frame_at b.frames i).dirty && b.writeback ≡ true = rw (d, w) refl in
      rw (evict, ==_ne (frame_at b.frames i).id 0 ne, both, e) refl

module _ (b : Pool) (view : View) (room : ℕ) (h : PoolShows b view room) (i : ℕ)
    (u : i < length b.frames) where
  -- A frame whose page the pager has is dropped.
  drop-Emptied :
      (frame_at b.frames i).id ≢ 0
      → ((p : Page)
          → view (frame_at b.frames i).id ≡ some p
          → Held b.pager (frame_at b.frames i).id p)
      → Emptied b view room (drop b i) i
  unfolding drop
  drop-Emptied ne kept =
      let f = frame_at b.frames i in
      let c = set-Changed b.frames i (record f { id = 0; dirty = false; ref = false }) u in
      record {
        shows = record {
          sound =
              dropped-Sound _ i f.id _ h.sound c (h.sound.owner i u ne) kept refl
                (h.sound.free i u);
          hand_within = omega (arith, h.hand_within, c.size);
          writes_back = h.writes_back;
          none_free = h.none_free;
          has_meta = h.has_meta;
          ids_left = h.ids_left;
        };
        within = omega (arith, c.size);
        empty = ap (λ (f : Frame). f.id) c.here;
        meta = refl;
        absent = λ n e. find-remove n f.id b.table ∙ ground arith;
      }

with_pager : Pool → Pager → Pool
with_pager b pager = record b {
  pager = pager;
  disk_writes = b.disk_writes + 1;
  evictions = b.evictions + 1;
}

module _ (b : Pool) (view : View) (room : ℕ) (h : PoolShows b view room) (i : ℕ)
    (u : i < length b.frames) where
  evict-Emptied_clean :
      (frame_at b.frames i).id ≢ 0
      → (frame_at b.frames i).dirty ≡ false
      → (b' : Pool) × (evict b i ≡ ok b') × Emptied b view room b' i
  evict-Emptied_clean ne d =
      let f = frame_at b.frames i in
      let x = record b { evictions = b.evictions + 1 } in
      let (l, old) = h.sound.cached f.id i (h.sound.owner i u ne) in
      let hx : PoolShows x view room = record {
        sound = h.sound;
        hand_within = h.hand_within;
        writes_back = h.writes_back;
        none_free = h.none_free;
        has_meta = h.has_meta;
        ids_left = h.ids_left;
      } in
      let e =
        drop-Emptied x view room hx i u ne
          (λ p s. subst (Held b.pager f.id) (page-injective (sym old.seen ∙ s)) (old.clean d)) in
      (
        drop x i,
        evict-clean b i ne d,
        record {
          shows = e.shows;
          within = e.within;
          empty = e.empty;
          meta = e.meta;
          absent = e.absent;
        },
      )

  evict-Emptied_dirty :
      (frame_at b.frames i).id ≢ 0
      → (frame_at b.frames i).dirty ≡ true
      → (b' : Pool) × (evict b i ≡ ok b') × Emptied b view room b' i
  unfolding with_pager
  evict-Emptied_dirty ne d =
      let f = frame_at b.frames i in
      let pager = wrote b.pager f.id f.page in
      let x = with_pager b pager in
      let (l, old) = h.sound.cached f.id i (h.sound.owner i u ne) in
      let (n0, lt, names) = h.sound.named f.id old.page old.seen in
      let hx : PoolShows x view room = record {
        sound = written-Sound h.sound f.id old.page f.page old.seen old.same;
        hand_within = h.hand_within;
        writes_back = h.writes_back;
        none_free = h.none_free;
        has_meta = h.has_meta;
        ids_left = h.ids_left;
      } in
      let e = drop-Emptied x view room hx i u ne (λ p s.
        subst (Held pager f.id) (page-injective (sym old.seen ∙ s))
          (written_self h.sound f.id old.page f.page old.seen old.same)) in
      (
        drop x i,
        evict-dirty b i pager ne d h.writes_back (
            write_page-wrote b.pager f.id f.page n0 lt
              (sym (id-same old.page f.page old.same) ∙ names)),
        record {
          shows = e.shows;
          within = e.within;
          empty = e.empty;
          meta = e.meta;
          absent = e.absent;
        },
      )

  evict-Emptied : (b' : Pool) × (evict b i ≡ ok b') × Emptied b view room b' i
  evict-Emptied = elim (Bool-cases ((frame_at b.frames i).id == 0)) [
    | inl e ↦
        let e' : (frame_at b.frames i).id ≡ 0 = ground arith in
        (
          b,
          evict-empty b i e',
          record { shows = h; within = u; empty = e'; meta = refl; absent = λ n a. a },
        )
    | inr e ↦
        let ne : (frame_at b.frames i).id ≢ 0 = ground arith in
        elim (Bool-cases (frame_at b.frames i).dirty) [
          | inl d ↦ evict-Emptied_dirty ne d
          | inr d ↦ evict-Emptied_clean ne d
        ]
  ]

find_empty-some :
    (frames : List Frame) (from i : ℕ)
    → find_empty frames from ≡ some i
    → (k : ℕ) × (i ≡ from + k) × (k < length frames) × ((frame_at frames k).id ≡ 0)
unfolding find_empty
find_empty-some [] from i e = absurd (cc e)
find_empty-some (f ∷ frames) from i e = elim (Bool-cases (f.id == 0 && f.pins == 0)) [
  | inl t ↦ (0, ground arith, omega arith, ground arith)
  | inr t ↦
      let (k, a, l, z) = find_empty-some frames (from + 1) i (rw t at e) in
      (suc k, omega arith, omega arith, z)
]

pub claim-Emptied :
    (b : Pool) (view : View) (room : ℕ)
    → PoolShows b view room
    → (b' : Pool) × (i : ℕ) × (claim b ≡ ok (b', i)) × Emptied b view room b' i
unfolding claim
claim-Emptied b view room h = elim (Option-cases (find_empty b.frames 0)) [
  | inr (i, e) ↦
      let (k, a, l, z) = find_empty-some b.frames 0 i e in
      let ki : k ≡ i = omega arith in
      (
        b,
        i,
        rw (claim, e) refl,
        record {
          shows = h;
          within = omega arith;
          empty = ap (λ m. (frame_at b.frames m).id) (sym ki) ∙ z;
          meta = refl;
          absent = λ n a. a;
        },
      )
  | inl e ↦
      let (v, s, f) =
        choose_victim-Found b b.hand h.hand_within h.hand_within
          (h.sound.free b.hand h.hand_within) in
      let x = record b { frames = v.frames; hand = v.hand } in
      let hx : PoolShows x view room = record {
        sound = same-Sound v.frames h.sound f.size f.kept;
        hand_within = omega (arith, f.hand_within, f.size);
        writes_back = h.writes_back;
        none_free = h.none_free;
        has_meta = h.has_meta;
        ids_left = h.ids_left;
      } in
      let (b', t, em) = evict-Emptied x view room hx v.index (omega (arith, f.within, f.size)) in
      (
        b',
        v.index,
        rw (claim, e, s, t) refl,
        record {
          shows = em.shows;
          within = em.within;
          empty = em.empty;
          meta = em.meta;
          absent = em.absent;
        },
      )
]
