-- ===== src/Wal/Reads.antt =====
-- The log as a store with transactions: `write` changes the current version of a page, `commit` makes
-- all current versions durable, `rollback` goes back to the durable ones. The slots, the maps and the
-- bytes of the file implement this.
use labdb.Prelude.{
  ℕ, ◌+◌, ◌^◌, ◌≤◌, ◌<◌, ◌≡◌, ◌≢◌, inl, inr, refl, arith, ◌∙◌, ap, sym, subst, Bool, true, false,
  Option, none, some, List, [], ◌∷◌, if◌then◌else◌, ◌==◌, Bool-cases, Option-cases, ==→eq, ==→ne,
}
use labdb.Page.{Page, page_size}
use labdb.Io.{File, pwrite_exact}
use labdb.Wal.{
  Wal, frame_header_size, frame_image, slot_offset, latest, write, commit, rollback, ensure_header,
  write_header, header_image,
}
use labdb.Wal.Slots.{find, assign, assign_all, find-assign, find-assign_all}
use labdb.Wal.Frames.{written-inside, written-outside, image-page_at}
use labdb.Wal.Log.{
  LogInv, written, write-new, write-again, write-LogInv_new, write-LogInv_again, commit-LogInv,
  rollback-LogInv, commit-written, decided_map, entries_with,
}
use labdb.Common.Fields.{memcpy-outside}
use labdb.Wal.Header.{
  ensure_header-LogInv, ensure_header-elim, header_ok-ensure_header, db_id-ensure_header,
  write-ensure_header, commit-ensure_header,
}

-- The specification: page ids to pages.
pub record Store : Type 0 where
  pub durable : ℕ → Option Page
  pub current : ℕ → Option Page

abbrev pub put_page : (ℕ → Option Page) → ℕ → Page → ℕ → Option Page
put_page pages id page j = if id == j then some page else pages j

pub data Op : Type 0 where
  write_op : ℕ → Page → Op
  commit_op : Page → Bool → Op
  rollback_op : Op

abbrev pub spec_step : Store → Op → Store
spec_step s (write_op id page) = record s { current = put_page s.current id page }
spec_step s (commit_op meta durable) =
    let pages = put_page s.current 0 meta in record { durable = pages; current = pages }
spec_step s rollback_op = record s { current = s.durable }

abbrev pub spec_run : Store → List Op → Store
spec_run s [] = s
spec_run s (op ∷ ops) = spec_run (spec_step s op) ops

unfoldable pub wal_step : Wal → Op → Wal
wal_step w (write_op id page) = write w id page
wal_step w (commit_op meta durable) = commit w meta durable
wal_step w rollback_op = rollback w

unfoldable pub wal_run : Wal → List Op → Wal
unfolding wal_step
wal_run w [] = w
wal_run w (op ∷ ops) = wal_run (wal_step w op) ops

-- The pager writes pages with 32-bit ids, and never page 0 but by a commit.
abbrev pub IsPageOp : Op → Type 0
IsPageOp (write_op id page) = (id < 2 ^ 32) × (id ≢ 0)
IsPageOp (commit_op meta durable) = Unit
IsPageOp rollback_op = Unit

abbrev pub AllPageOps : List Op → Type 0
AllPageOps [] = Unit
AllPageOps (op ∷ ops) = IsPageOp op × AllPageOps ops

-- The slot holds the page, and there is a slot just where there is a page.
abbrev pub Shows : File → Option ℕ → Option Page → Type 0
Shows f none none = Unit
Shows f none (some p) = ⊥
Shows f (some slot) none = ⊥
Shows f (some slot) (some p) =
    (i : ℕ) → i < page_size → f.bytes (slot_offset slot + frame_header_size + i) ≡ p i

pub record Refines (w : Wal) (s : Store) : Type 0 where
  pub current : (id : ℕ) → Shows w.file (latest w id) (s.current id)
  pub durable : (id : ℕ) → Shows w.file (find id w.committed) (s.durable id)

Shows-kept :
    (w : Wal) (slot id flags : ℕ) (page : Page) (o : Option ℕ) (p : Option Page)
    → ((s : ℕ) → o ≡ some s → s ≢ slot)
    → Shows w.file o p
    → Shows (written w slot id flags page) o p
unfolding written
Shows-kept w slot id flags page none none h x = tt
Shows-kept w slot id flags page none (some p) h x = elim x [ ]
Shows-kept w slot id flags page (some s) none h x = elim x [ ]
Shows-kept w slot id flags page (some s) (some p) h x = λ i u.
    let buf = frame_image w.generation w.db_id id flags page in
    let e : slot_offset s + frame_header_size + i ≡ slot_offset s + (24 + i) = omega arith in
    ap (λ (k : ℕ). (written w slot id flags page).bytes k) e
    ∙ written-outside w.file buf slot s (24 + i) (h s refl) (omega arith)
    ∙ ap (λ (k : ℕ). w.file.bytes k) (sym e)
    ∙ x i u

Shows-written :
    (w : Wal) (slot id flags : ℕ) (page : Page)
    → w.generation < 2 ^ 64
    → id < 2 ^ 32
    → flags < 2
    → Shows (written w slot id flags page) (some slot) (some page)
unfolding written
Shows-written w slot id flags page word fits flag =
    image-page_at w.generation w.db_id id flags page word fits flag (written w slot id flags page)
      slot (written-inside w.file (frame_image w.generation w.db_id id flags page) slot)

module _ (entries : ℕ → ℕ × Bool) (w : Wal) (s : Store) (inv : LogInv entries w)
    (ref : Refines w s) where
  pub latest_slots : (id slot : ℕ) → latest w id ≡ some slot → slot < w.end
  unfolding latest
  latest_slots id slot e = ground (arith, inv.slots id slot, inv.committed_slots id slot, inv.order)

  latest-new :
      (v : Wal) (id slot : ℕ)
      → v.pending ≡ assign id slot w.pending
      → v.committed ≡ w.committed
      → (j : ℕ) → latest v j ≡ (if id == j then some slot else latest w j)
  unfolding latest
  latest-new v id slot p c j = rw (p, c) (ground (arith, find-assign j id slot w.pending))

  module _ (id : ℕ) (page : Page) (ok : w.header_ok ≡ true) (fits : id < 2 ^ 32) where
    -- A version in the slot `slot` becomes the current one.
    Shows-current :
        (o : Option ℕ) (slot flags : ℕ)
        → flags < 2
        → ((j t : ℕ) → latest w j ≡ some t → id ≢ j → t ≢ slot)
        → (j : ℕ) → o ≡ (if id == j then some slot else latest w j)
        → Shows (written w slot id flags page) o (put_page s.current id page j)
    Shows-current o slot flags flag apart j e =
        subst
          (λ (o : Option ℕ). Shows (written w slot id flags page) o (put_page s.current id page j))
          (sym e)
          (elim (Bool-cases (id == j)) [
            | inl b ↦ rw b (Shows-written w slot id flags page inv.word fits flag)
            | inr b ↦ rw b (
                Shows-kept w slot id flags page (latest w j) (s.current j)
                  (λ t l. apart j t l (==→ne id j b)) (ref.current j))
          ])

    write-Refines_new :
        find id w.pending ≡ none → Refines (write w id page) (spec_step s (write_op id page))
    write-Refines_new new = rw (write-new w id page ok inv.word fits new) (record {
      current = λ j.
          Shows-current _ w.end 0 (omega arith) (λ j t l ne. omega (arith, latest_slots j t l)) j
            (latest-new _ id w.end refl refl j);
      durable = λ j.
          Shows-kept w w.end id 0 page (find j w.committed) (s.durable j)
            (λ t e. omega (arith, inv.committed_slots j t e, inv.order)) (ref.durable j);
    })

    -- Two pages are never in one pending slot.
    apart_again :
        (slot : ℕ)
        → find id w.pending ≡ some slot
        → (j t : ℕ) → latest w j ≡ some t
        → id ≢ j
        → t ≢ slot
    unfolding latest
    apart_again slot old j t l ne e =
        let here = inv.slots id slot old in
        ground (arith, inv.slots j t, inv.committed_slots j t, ap (λ (k : ℕ). (entries k).0) e)

    latest-again :
        (slot : ℕ)
        → find id w.pending ≡ some slot
        → (j : ℕ) → latest w j ≡ (if id == j then some slot else latest w j)
    unfolding latest
    latest-again slot old j =
        let here : latest w id ≡ some slot = rw (old, latest) in
        elim (Bool-cases (id == j)) [
          | inr b ↦ rw b
          | inl b ↦ rw b (ap (latest w) (sym (==→eq id j b)) ∙ here)
        ]

    write-Refines_again :
        (slot : ℕ)
        → find id w.pending ≡ some slot
        → Refines (write w id page) (spec_step s (write_op id page))
    unfolding latest
    write-Refines_again slot old = rw (write-again w id page ok inv.word fits slot old) (record {
      current = λ j.
          Shows-current (latest w j) slot 0 (omega arith) (apart_again slot old) j
            (latest-again slot old j);
      durable = λ j.
          Shows-kept w slot id 0 page (find j w.committed) (s.durable j)
            (λ t e. omega (arith, inv.committed_slots j t e, inv.slots id slot old))
            (ref.durable j);
    })

  module _ (meta : Page) (durable : Bool) (ok : w.header_ok ≡ true) where
    find-decided :
        (j : ℕ)
        → find j (decided_map entries w meta durable ok inv)
          ≡ (if 0 == j then some w.end else latest w j)
    unfolding decided_map latest
    find-decided j =
        find-assign j 0 w.end (assign_all w.pending w.committed)
        ∙ ground (arith, find-assign_all j w.pending w.committed inv.unique)

    commit-Refines : Refines (commit w meta durable) (spec_step s (commit_op meta durable))
    unfolding latest find
    commit-Refines =
        let shows = λ (j : ℕ).
          Shows-current 0 meta ok (omega arith) (find j (decided_map entries w meta durable ok inv))
            w.end 1 (omega arith) (λ k t l ne. omega (arith, latest_slots k t l)) j
            (find-decided j) in
        rw (commit-written entries w meta durable ok inv)
          (record { current = shows; durable = shows })

Shows-cells :
    (f g : File) (o : Option ℕ) (p : Option Page)
    → ((i : ℕ) → 64 ≤ i → g.bytes i ≡ f.bytes i)
    → Shows f o p
    → Shows g o p
Shows-cells f g none none h x = tt
Shows-cells f g none (some p) h x = elim x [ ]
Shows-cells f g (some s) none h x = elim x [ ]
Shows-cells f g (some s) (some p) h x =
    λ i u. h (slot_offset s + frame_header_size + i) (omega arith) ∙ x i u

ensure_header-Refines : (w : Wal) (s : Store) → Refines w s → Refines (ensure_header w) s
unfolding write_header latest pwrite_exact
ensure_header-Refines w s ref =
    let cells = λ (i : ℕ) (l : 64 ≤ i).
      memcpy-outside w.file.bytes 0 (header_image w.generation w.db_id) 0 64 i (inr l) in
    ensure_header-elim (λ v. Refines v s) w ref
      (λ e. record {
        current = λ id.
            Shows-cells w.file (write_header w).file (latest w id) (s.current id) cells
              (ref.current id);
        durable = λ id.
            Shows-cells w.file (write_header w).file (find id w.committed) (s.durable id) cells
              (ref.durable id);
      })

-- What each operation keeps.
pub record Keeps (w : Wal) (s : Store) : Type 0 where
  pub entries : ℕ → ℕ × Bool
  pub inv : LogInv entries w
  pub refines : Refines w s
  pub db_fits : w.db_id < 2 ^ 64

module _ (w : Wal) (s : Store) (k : Keeps w s) (ok : w.header_ok ≡ true) where
  write-Keeps :
      (id : ℕ) (page : Page)
      → id < 2 ^ 32
      → id ≢ 0
      → Keeps (write w id page) (spec_step s (write_op id page))
  write-Keeps id page fits nonzero = elim (Option-cases (find id w.pending)) [
    | inl new ↦ record {
      entries = entries_with k.entries w.end (id, false);
      inv = write-LogInv_new k.entries w id page ok k.inv fits nonzero new;
      refines = write-Refines_new k.entries w s k.inv k.refines id page ok fits new;
      db_fits = rw (write-new w id page ok k.inv.word fits new) k.db_fits;
    }
    | inr (slot, old) ↦ record {
      entries = k.entries;
      inv = write-LogInv_again k.entries w id page ok k.inv fits nonzero slot old;
      refines = write-Refines_again k.entries w s k.inv k.refines id page ok fits slot old;
      db_fits = rw (write-again w id page ok k.inv.word fits slot old) k.db_fits;
    }
  ]

  commit-Keeps :
      (meta : Page) (durable : Bool)
      → Keeps (commit w meta durable) (spec_step s (commit_op meta durable))
  commit-Keeps meta durable = record {
    entries = entries_with k.entries w.end (0, true);
    inv = commit-LogInv k.entries w meta durable ok k.inv;
    refines = commit-Refines k.entries w s k.inv k.refines meta durable ok;
    db_fits = rw (commit-written k.entries w meta durable ok k.inv) k.db_fits;
  }

ensure_header-Keeps : (w : Wal) (s : Store) → Keeps w s → Keeps (ensure_header w) s
ensure_header-Keeps w s k = record {
  entries = k.entries;
  inv = ensure_header-LogInv k.entries w k.db_fits k.inv;
  refines = ensure_header-Refines w s k.refines;
  db_fits = rw db_id-ensure_header k.db_fits;
}

-- One operation keeps the invariant, and does to the pages what the specification says.
pub step-Keeps :
    (w : Wal) (s : Store) (op : Op)
    → IsPageOp op
    → Keeps w s
    → Keeps (wal_step w op) (spec_step s op)
unfolding wal_step latest find rollback
step-Keeps w s (write_op id page) (fits, nonzero) k = rw (write-ensure_header w id page) (
    write-Keeps (ensure_header w) s (ensure_header-Keeps w s k) (header_ok-ensure_header w) id page
      fits nonzero)
step-Keeps w s (commit_op meta durable) ok k = rw (commit-ensure_header w meta durable) (
    commit-Keeps (ensure_header w) s (ensure_header-Keeps w s k) (header_ok-ensure_header w) meta
      durable)
step-Keeps w s rollback_op ok k = record {
  entries = k.entries;
  inv = rollback-LogInv k.entries w k.inv;
  refines = record { current = k.refines.durable; durable = k.refines.durable };
  db_fits = k.db_fits;
}

-- From a well-formed log that holds the versions of a store, any sequence of writes to pages
-- other than 0 with 32-bit ids, commits and rollbacks leaves a well-formed log whose current
-- and durable versions are those of the specification.
pub run-Keeps :
    (w : Wal) (s : Store) (ops : List Op)
    → AllPageOps ops
    → Keeps w s
    → Keeps (wal_run w ops) (spec_run s ops)
unfolding wal_run
run-Keeps w s [] ok k = k
run-Keeps w s (op ∷ ops) ok k =
    run-Keeps (wal_step w op) (spec_step s op) ops ok.1 (step-Keeps w s op ok.0 k)
