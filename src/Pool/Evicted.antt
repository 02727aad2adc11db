-- ===== src/Pool/Evicted.antt =====
-- What the pool does to empty a frame: the clock's `ref` bits, the write to the pager, and the drop.
use labdb.Prelude.{
  ℕ, ◌<◌, ◌^◌, ◌≡◌, ◌≢◌, inl, inr, refl, arith, ◌∙◌, ap, sym, subst, List, [], ◌∷◌, none, some,
  ◌==◌, length, ok, Bool-cases, Option-cases, ok-injective, ==_refl, ==_ne, if◌then◌else◌,
}
use labdb.Page.{Page, id}
use labdb.Wal.{Wal, read, latest, write}
use labdb.Wal.Slots.{SlotMap, find}
use labdb.Wal.Reads.{Store, write_op, Keeps, Shows, wal_step, step-Keeps}
use labdb.PageStore.{SamePage, View}
use labdb.Pager.{Pager, stored}
use labdb.Pager.FreeList.{read-Keeps}
use labdb.Pool.{Frame, frame_at, remove}
use labdb.Pool.Clock.{SameFrame}
use labdb.Pool.Sound.{Held, Cached, Sound, Changed, page-injective}

pub find-remove :
    (id k : ℕ) (m : SlotMap) → find id (remove k m) ≡ (if k == id then none else find id m)
unfolding find remove
find-remove id k [] = ground arith
find-remove id k ((j, t) ∷ m) = ground (arith, find-remove id k m)

-- The frames are the same but for their `ref` bits.
pub same-Sound :
    {pager : Pager} {frames : List Frame} {table : SlotMap} {view : View} (frames' : List Frame)
    → Sound pager frames table view
    → length frames' ≡ length frames
    → ((j : ℕ) → SameFrame (frame_at frames j) (frame_at frames' j))
    → Sound pager frames' table view
same-Sound {pager} {frames} {table} {view} frames' s size kept = record {
  store = s.store;
  keeps = s.keeps;
  fits = s.fits;
  named = s.named;
  held = s.held;
  cached = λ n i e.
      let (l, old) = s.cached n i e in
      let k = kept i in
      (
        omega (arith, l, size),
        record {
          names = k.id ∙ old.names;
          page = old.page;
          seen = old.seen;
          same = λ j u. old.same j u ∙ ap (λ (p : Page). p j) (sym k.page);
          clean = λ d. old.clean (sym k.dirty ∙ d);
        },
      );
  owner = λ i l ne.
      let k = kept i in
      ap (λ m. find m table) k.id ∙ s.owner i (omega (arith, l, size)) (λ z. ne (k.id ∙ z));
  free = λ i l. (kept i).pins ∙ s.free i (omega (arith, l, size));
}

-- The page of frame `i` leaves the pool, which the pager has by then.
module _ {pager : Pager} {frames : List Frame} {table : SlotMap} {view : View}
    (frames' : List Frame) (i n : ℕ) (g : Frame) (s : Sound pager frames table view)
    (c : Changed frames frames' i g) (listed : find n table ≡ some i)
    (kept : (p : Page) → view n ≡ some p → Held pager n p) (empty : g.id ≡ 0)
    (unpinned : g.pins ≡ 0) where
  find_apart : (j : ℕ) → n ≢ j → find j (remove n table) ≡ find j table
  find_apart j ne = find-remove j n table ∙ ground arith

  dropped-Cached :
      (j k : ℕ)
      → find j (remove n table) ≡ some k
      → (k < length frames') × Cached pager view j (frame_at frames' k)
  dropped-Cached j k e = elim (Bool-cases (n == j)) [
    | inl q ↦ absurd (ground (arith, sym (find-remove j n table) ∙ e))
    | inr q ↦
        let q' : n ≢ j = ground arith in
        let (l, old) = s.cached j k (sym (find_apart j q') ∙ e) in
        let mine = (s.cached n i listed).1.names in
        let apart : i ≢ k = λ t. q' (sym mine ∙ ap (λ m. (frame_at frames m).id) t ∙ old.names) in
        (omega (arith, l, c.size), rw (c.there k apart) old)
  ]

  pub dropped-Sound : Sound pager frames' (remove n table) view
  dropped-Sound = record {
    store = s.store;
    keeps = s.keeps;
    fits = s.fits;
    named = s.named;
    held = λ j q o e. elim (Bool-cases (n == j)) [
      | inl t ↦
          let t' : n ≡ j = ground arith in subst (λ m. Held pager m q) t' (kept q (ap view t' ∙ e))
      | inr t ↦ s.held j q (sym (find_apart j (ground arith)) ∙ o) e
    ];
    cached = dropped-Cached;
    owner = λ k l ne. elim (Bool-cases (i == k)) [
      | inl q ↦
          let q' : i ≡ k = ground arith in
          absurd (
            ne (
              ap (λ m. (frame_at frames' m).id) (sym q') ∙ ap (λ (f : Frame). f.id) c.here ∙ empty))
      | inr q ↦
          let q' : i ≢ k = ground arith in
          let e : (frame_at frames' k).id ≡ (frame_at frames k).id =
            ap (λ (f : Frame). f.id) (c.there k q') in
          let old = s.owner k (omega (arith, l, c.size)) (λ z. ne (e ∙ z)) in
          let apart : n ≢ (frame_at frames k).id =
            λ t. let both = sym listed ∙ ap (λ m. find m table) t ∙ old in q' (cc both) in
          ap (λ m. find m (remove n table)) e ∙ find_apart (frame_at frames k).id apart ∙ old
    ];
    free = λ k l. elim (Bool-cases (i == k)) [
      | inl q ↦
          let q' : i ≡ k = ground arith in
          ap (λ m. (frame_at frames' m).pins) (sym q')
          ∙ ap (λ (f : Frame). f.pins) c.here
          ∙ unpinned
      | inr q ↦
          let q' : i ≢ k = ground arith in
          ap (λ (f : Frame). f.pins) (c.there k q') ∙ s.free k (omega (arith, l, c.size))
    ];
  }

-- The pager after `write_page`.
abbrev pub wrote : Pager → ℕ → Page → Pager
wrote pager n page = record pager { wal = write pager.wal n page }

module _ (pager : Pager) (store : Store) (keeps : Keeps pager.wal store) (n : ℕ) (page : Page)
    (fits : n < 2 ^ 32) (nonzero : n ≢ 0) where
  wrote-Keeps :
      Keeps
        (write pager.wal n page)
        (record store { current = λ j. if n == j then some page else store.current j })
  unfolding wal_step
  wrote-Keeps = step-Keeps pager.wal store (write_op n page) (fits, nonzero) keeps

  wrote-Held_self : (p : Page) → SamePage p page → Held (wrote pager n page) n p
  unfolding stored
  wrote-Held_self p same =
      let (q, r, e) =
        read-Keeps (write pager.wal n page) _ n page wrote-Keeps (rw (==_refl n) refl) in
      (q, rw r refl, λ i u. same i u ∙ sym (e i u))

  -- Where the log has no version of a page, a read goes on to the file.
  read_nothing : (w : Wal) (o : Store) (m : ℕ) → Keeps w o → o.current m ≡ none → read w m ≡ ok none
  unfolding read
  read_nothing w o m k e =
      let shows : Shows w.file (latest w m) none =
        subst (Shows w.file (latest w m)) e (k.refines.current m) in
      elim (Option-cases (latest w m)) [
        | inl z ↦ rw (read, z) refl
        | inr (slot, z) ↦ absurd (subst (λ x. Shows w.file x none) z shows)
      ]

  wrote-Held_other : (m : ℕ) (p : Page) → n ≢ m → Held pager m p → Held (wrote pager n page) m p
  unfolding stored
  wrote-Held_other m p ne (q, e, same) =
      let w = write pager.wal n page in
      elim (Option-cases (store.current m)) [
        | inl z ↦
            let before = read_nothing pager.wal store m keeps z in
            let after = read_nothing w _ m wrote-Keeps (rw (==_ne n m ne) z) in
            (q, rw after (rw before at e), same)
        | inr (x, z) ↦
            let (a, ra, ea) = read-Keeps pager.wal store m x keeps z in
            let (b, rb, eb) = read-Keeps w _ m x wrote-Keeps (rw (==_ne n m ne) z) in
            let aq : a ≡ q = ok-injective (rw ra at e) in
            (
              b,
              rw rb refl,
              λ i u. same i u ∙ ap (λ (p : Page). p i) (sym aq) ∙ ea i u ∙ sym (eb i u),
            )
      ]

-- A page of the view that is written to the pager, which has it then.
module _ {pager : Pager} {frames : List Frame} {table : SlotMap} {view : View}
    (s : Sound pager frames table view) (n : ℕ) (p page : Page) (seen : view n ≡ some p)
    (same : SamePage p page) where
  fits32 : n < 2 ^ 32
  fits32 = omega (arith, (s.named n p seen).1, s.fits)

  written-Held :
      (m : ℕ) (q : Page) → view m ≡ some q → Held pager m q → Held (wrote pager n page) m q
  written-Held m q e h =
      let ne = (s.named n p seen).0 in
      elim (Bool-cases (n == m)) [
        | inl t ↦
            let t' : n ≡ m = ground arith in
            let pq : p ≡ q = page-injective (sym seen ∙ ap view t' ∙ e) in
            subst (λ j. Held (wrote pager n page) j q) t'
              (wrote-Held_self pager s.store s.keeps n page fits32 ne q
                (λ i u. ap (λ (x : Page). x i) (sym pq) ∙ same i u))
        | inr t ↦ wrote-Held_other pager s.store s.keeps n page fits32 ne m q (ground arith) h
      ]

  pub written_self : Held (wrote pager n page) n p
  written_self = wrote-Held_self pager s.store s.keeps n page fits32 (s.named n p seen).0 p same

  pub written-Sound : Sound (wrote pager n page) frames table view
  written-Sound = record {
    store = _;
    keeps = wrote-Keeps pager s.store s.keeps n page fits32 (s.named n p seen).0;
    fits = s.fits;
    named = s.named;
    held = λ m q o e. written-Held m q e (s.held m q o e);
    cached = λ m i e.
        let (l, old) = s.cached m i e in
        (
          l,
          record {
            names = old.names;
            page = old.page;
            seen = old.seen;
            same = old.same;
            clean = λ d. written-Held m old.page old.seen (old.clean d);
          },
        );
    owner = s.owner;
    free = s.free;
  }
