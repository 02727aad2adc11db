-- ===== src/Pool/Sound.antt =====
-- When the pool, over a well-formed log, holds the pages of a view: the resident pages in its frames, the
-- others in its pager, and the clean ones in both.
use labdb.Prelude.{
  ℕ, ◌+◌, ◌<◌, ◌≤◌, ◌^◌, ◌≡◌, ◌≢◌, ◌⊎◌, inl, inr, arith, ◌∙◌, ap, sym, subst, true, false, Bool,
  List, Option, none, some, ◌==◌, length, length-set, set, get_or-set_self, get_or-set_other, ok,
  Bool-cases,
}
use labdb.Page.{Page, id}
use labdb.Wal.Slots.{SlotMap, find}
use labdb.Wal.Reads.{Store, Keeps}
use labdb.PageStore.{SamePage, View}
use labdb.Pager.{Pager, Meta, stored}
use labdb.Pool.{Pool, Frame, frame_at, empty_frame}

-- The log or the file has the page.
abbrev pub Held : Pager → ℕ → Page → Type 0
Held pager n p = (q : Page) × (stored pager n ≡ ok q) × SamePage p q

-- The frame has the page `n` of the view; a clean one is in the pager too.
pub record Cached (pager : Pager) (view : View) (n : ℕ) (f : Frame) : Type 0 where
  pub names : f.id ≡ n
  pub page : Page
  pub seen : view n ≡ some page
  pub same : SamePage page f.page
  pub clean : f.dirty ≡ false → Held pager n page

pub record Sound (pager : Pager) (frames : List Frame) (table : SlotMap) (view : View)
    : Type 0 where
  pub store : Store
  pub keeps : Keeps pager.wal store
  pub fits : pager.meta.page_count < 2 ^ 32
  pub named :
      (n : ℕ) (p : Page) → view n ≡ some p → (n ≢ 0) × (n < pager.meta.page_count) × (id p ≡ n)
  pub held : (n : ℕ) (p : Page) → find n table ≡ none → view n ≡ some p → Held pager n p
  pub cached :
      (n i : ℕ)
      → find n table ≡ some i
      → (i < length frames) × Cached pager view n (frame_at frames i)
  pub owner :
      (i : ℕ)
      → i < length frames
      → (frame_at frames i).id ≢ 0
      → find (frame_at frames i).id table ≡ some i
  pub free : (i : ℕ) → i < length frames → (frame_at frames i).pins ≡ 0

pub some-injective : {a b : ℕ} → ◌≡◌ {A = Option ℕ} (some a) (some b) → a ≡ b
some-injective h = cc

pub page-injective : {p q : Page} → ◌≡◌ {A = Option Page} (some p) (some q) → p ≡ q
page-injective {p} {q} h = ap (λ (o : Option Page). elim o [ none ↦ p | some x ↦ x ]) h

-- The frame `i` is replaced by `g`.
pub record Changed (frames frames' : List Frame) (i : ℕ) (g : Frame) : Type 0 where
  pub size : length frames' ≡ length frames
  pub here : frame_at frames' i ≡ g
  pub there : (j : ℕ) → i ≢ j → frame_at frames' j ≡ frame_at frames j

pub set-Changed :
    (frames : List Frame) (i : ℕ) (g : Frame)
    → i < length frames
    → Changed frames (set frames i g) i g
set-Changed frames i g u = record {
  size = length-set frames i g;
  here = get_or-set_self frames i g empty_frame u;
  there = λ j ne. get_or-set_other frames i j g empty_frame ne;
}

-- A further change of the same frame replaces the first.
pub Changed-trans :
    {frames mid frames' : List Frame} {i : ℕ} {f g : Frame}
    → Changed frames mid i f
    → Changed mid frames' i g
    → Changed frames frames' i g
Changed-trans c d = record {
  size = d.size ∙ c.size;
  here = d.here;
  there = λ j ne. d.there j ne ∙ c.there j ne;
}

-- What no page depends on in the pager: the meta page's fields, as long as the pages stay in range, and
-- the count of the reads.
pub meta-Sound :
    {pager : Pager} {frames : List Frame} {table : SlotMap} {view : View} (m : Meta) (dirty : Bool)
    (reads : ℕ)
    → Sound pager frames table view
    → pager.meta.page_count ≤ m.page_count
    → m.page_count < 2 ^ 32
    → Sound (record pager { meta = m; meta_dirty = dirty; reads = reads }) frames table view
unfolding stored
meta-Sound m dirty reads s more fits = record {
  store = s.store;
  keeps = s.keeps;
  fits = fits;
  named = λ n p e. let (a, b, c) = s.named n p e in (a, omega (arith, b), c);
  held = s.held;
  cached = λ n i e.
      let (l, old) = s.cached n i e in
      (
        l,
        record {
          names = old.names;
          page = old.page;
          seen = old.seen;
          same = old.same;
          clean = old.clean;
        },
      );
  owner = s.owner;
  free = s.free;
}

-- A page of the view goes into the frame `i`, which was empty or the page's own.
module _ {pager : Pager} {frames frames' : List Frame} {table : SlotMap} {view : View}
    (table' : SlotMap) (view' : View) (n i : ℕ) (p : Page) (g : Frame)
    (s : Sound pager frames table view) (c : Changed frames frames' i g) (u : i < length frames)
    (was : ((frame_at frames i).id ≡ 0) ⊎ ((frame_at frames i).id ≡ n))
    (alone : (k : ℕ) → find n table ≡ some k → k ≡ i) (listed : find n table' ≡ some i)
    (unlisted : (j : ℕ) → n ≢ j → find j table' ≡ find j table) (now : view' n ≡ some p)
    (elsewhere : (j : ℕ) → n ≢ j → view' j ≡ view j) (nonzero : n ≢ 0)
    (within : n < pager.meta.page_count) (names : id p ≡ n) (own : g.id ≡ n) (unpinned : g.pins ≡ 0)
    (same : SamePage p g.page) (clean : g.dirty ≡ false → Held pager n p) where
  placed-Cached :
      (j k : ℕ)
      → find j table' ≡ some k
      → (k < length frames') × Cached pager view' j (frame_at frames' k)
  placed-Cached j k e = elim (Bool-cases (n == j)) [
    | inl q ↦
        let q' : n ≡ j = ground arith in
        let at : i ≡ k = some-injective (sym listed ∙ ap (λ m. find m table') q' ∙ e) in
        (
          omega (arith, at, c.size),
          subst (λ m. Cached pager view' m (frame_at frames' k)) q'
              (subst (λ m. Cached pager view' n (frame_at frames' m)) at
                (rw c.here
                  (record { names = own; page = p; seen = now; same = same; clean = clean }))),
        )
    | inr q ↦
        let q' : n ≢ j = ground arith in
        let (l, old) = s.cached j k (sym (unlisted j q') ∙ e) in
        let j0 : j ≢ 0 = (s.named j old.page old.seen).0 in
        let apart : i ≢ k = λ t.
          let t' : (frame_at frames i).id ≡ j = ap (λ m. (frame_at frames m).id) t ∙ old.names in
          elim was [ inl z ↦ j0 (sym t' ∙ z) | inr z ↦ q' (sym z ∙ t') ] in
        (
          omega (arith, l, c.size),
          rw (c.there k apart) (record {
            names = old.names;
            page = old.page;
            seen = elsewhere j q' ∙ old.seen;
            same = old.same;
            clean = old.clean;
          }),
        )
  ]

  placed-owner :
      (k : ℕ)
      → k < length frames'
      → (frame_at frames' k).id ≢ 0
      → find (frame_at frames' k).id table' ≡ some k
  placed-owner k l ne = elim (Bool-cases (i == k)) [
    | inl q ↦
        let q' : i ≡ k = ground arith in
        let e : (frame_at frames' k).id ≡ n =
          ap (λ m. (frame_at frames' m).id) (sym q') ∙ ap (λ (f : Frame). f.id) c.here ∙ own in
        ap (λ m. find m table') e ∙ listed ∙ ap some q'
    | inr q ↦
        let q' : i ≢ k = ground arith in
        let e : (frame_at frames' k).id ≡ (frame_at frames k).id =
          ap (λ (f : Frame). f.id) (c.there k q') in
        let old = s.owner k (omega (arith, l, c.size)) (λ z. ne (e ∙ z)) in
        let apart : n ≢ (frame_at frames k).id =
          λ t. q' (sym (alone k (ap (λ m. find m table) t ∙ old))) in
        ap (λ m. find m table') e ∙ unlisted (frame_at frames k).id apart ∙ old
  ]

  pub placed-Sound : Sound pager frames' table' view'
  placed-Sound = record {
    store = s.store;
    keeps = s.keeps;
    fits = s.fits;
    named = λ j q e. elim (Bool-cases (n == j)) [
      | inl t ↦
          let t' : n ≡ j = ground arith in
          let pq : p ≡ q = page-injective (sym now ∙ ap view' t' ∙ e) in
          (λ z. nonzero (t' ∙ z), omega (arith, within, t'), ap id (sym pq) ∙ names ∙ t')
      | inr t ↦ let t' : n ≢ j = ground arith in s.named j q (sym (elsewhere j t') ∙ e)
    ];
    held = λ j q o e. elim (Bool-cases (n == j)) [
      | inl t ↦
          let t' : n ≡ j = ground arith in absurd (cc (sym listed ∙ ap (λ m. find m table') t' ∙ o))
      | inr t ↦
          let t' : n ≢ j = ground arith in
          s.held j q (sym (unlisted j t') ∙ o) (sym (elsewhere j t') ∙ e)
    ];
    cached = placed-Cached;
    owner = placed-owner;
    free = λ k l. elim (Bool-cases (i == k)) [
      | inl q ↦
          let q' : i ≡ k = ground arith in
          ap (λ m. (frame_at frames' m).pins) (sym q')
          ∙ ap (λ (f : Frame). f.pins) c.here
          ∙ unpinned
      | inr q ↦
          let q' : i ≢ k = ground arith in
          ap (λ (f : Frame). f.pins) (c.there k q') ∙ s.free k (omega (arith, l, c.size))
    ];
  }

-- A pool between two operations, at which no page is pinned and no page is free. It has the pages of the
-- view, and `room` more page ids are left.
pub record PoolShows (b : Pool) (view : View) (room : ℕ) : Type 0 where
  pub sound : Sound b.pager b.frames b.table view
  pub hand_within : b.hand < length b.frames
  pub writes_back : b.writeback ≡ true
  pub none_free : b.pager.meta.freelist_head ≡ 0
  pub has_meta : 1 ≤ b.pager.meta.page_count
  pub ids_left : b.pager.meta.page_count + room < 2 ^ 32
