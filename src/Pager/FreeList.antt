-- ===== src/Pager/FreeList.antt =====
-- The free list: what `free_page` puts on it, `allocate_page` takes off again.
use labdb.Prelude.{
  ℕ, ◌+◌, ◌<◌, ◌^◌, ◌≡◌, ◌≢◌, inl, inr, [], ◌∷◌, refl, arith, ◌∙◌, ap, sym, subst, true, ◌&&◌, ◌||◌,
  not, some, ◌==◌, ltb, leb-true, ltb-true, ==_refl, ==_ne, Option-cases, ok, fail, check_that,
  returned, checked, ok-injective,
}
use labdb.Common.{zeroes}
use labdb.Common.Fields.{load-congr, load-store_apart, load-store_self}
use labdb.Page.{
  Page, PageType, page_size, id, type_code, next_page, set_id, set_type, set_next_page,
}
use labdb.Io.{pread_exact}
use labdb.Wal.{Wal, frame_header_size, slot_offset, read, read_frame, latest, write}
use labdb.Wal.Reads.{Store, write_op, Keeps, Shows, wal_run, wal_step, run-Keeps, latest_slots}
use labdb.Pager.{Pager, stored, read_page, write_page, allocate_page, free_page, touch_meta}

-- A log that holds a version of a page gives that version.
pub read-Keeps :
    (w : Wal) (s : Store) (n : ℕ) (page : Page)
    → Keeps w s
    → s.current n ≡ some page
    → (found : Page) × (read w n ≡ ok (some found)) × ((i : ℕ) → i < page_size → found i ≡ page i)
unfolding read read_frame pread_exact
read-Keeps w s n page k e =
    let shows : Shows w.file (latest w n) (some page) =
      subst (Shows w.file (latest w n)) e (k.refines.current n) in
    elim (Option-cases (latest w n)) [
      | inl z ↦ absurd (subst (λ o. Shows w.file o (some page)) z shows)
      | inr (slot, z) ↦
          let at = slot_offset slot + frame_header_size in
          let u : slot < w.end = latest_slots k.entries w s k.inv k.refines n slot z in
          (
            λ i. w.file.bytes (at + i),
            rw (read, z, leb-true (at + page_size) w.file.size (omega (arith, k.inv.whole slot u))),
            subst (λ o. Shows w.file o (some page)) z shows,
          )
    ]

-- What `free_page` writes.
free_mark : ℕ → ℕ → Page
free_mark n next = set_next_page (set_type (set_id zeroes n) PageType.free) next

module _ (n next : ℕ) (fits : n < 2 ^ 32) (fits' : next < 2 ^ 32) where
  id-free_mark : id (free_mark n next) ≡ n
  unfolding free_mark
  id-free_mark =
      load-store_apart 4 (set_type (set_id zeroes n) PageType.free) 16 next 4 0 (omega arith)
      ∙ load-store_apart 2 (set_id zeroes n) 4 3 4 0 (omega arith)
      ∙ load-store_self 4 zeroes 0 n (omega arith)

  type_code-free_mark : type_code (free_mark n next) ≡ 3
  unfolding free_mark
  type_code-free_mark =
      load-store_apart 4 (set_type (set_id zeroes n) PageType.free) 16 next 2 4 (omega arith)
      ∙ load-store_self 2 (set_id zeroes n) 4 3 (omega arith)

  next_page-free_mark : next_page (free_mark n next) ≡ next
  unfolding free_mark
  next_page-free_mark =
      load-store_self 4 (set_type (set_id zeroes n) PageType.free) 16 next (omega arith)

-- The log and the pager behind `free_page`, with `count` reads counted.
marked : Pager → ℕ → ℕ → Wal
marked p n next = write p.wal n (free_mark n next)

freed : Pager → ℕ → ℕ → ℕ → Pager
unfolding marked
freed p n next count = record p {
  meta = record p.meta { freelist_head = n };
  meta_dirty = true;
  wal = marked p n next;
  reads = count;
}

module _ (p : Pager) (s : Store) (n next : ℕ) (k : Keeps p.wal s) (fits : n < 2 ^ 32)
    (fits' : next < 2 ^ 32) (nonzero : n ≢ 0) (within : n < p.meta.page_count) where
  reads_mark :
      (found : Page) × (read (marked p n next) n ≡ ok (some found))
      × (id found ≡ n)
      × (type_code found ≡ 3)
      × (next_page found ≡ next)
  unfolding marked wal_run wal_step
  reads_mark =
      let keeps = run-Keeps p.wal s (write_op n (free_mark n next) ∷ []) ((fits, nonzero), tt) k in
      let (found, r, same) =
        read-Keeps (marked p n next) _ n (free_mark n next) keeps (rw (==_refl n) refl) in
      (
        found,
        r,
        load-congr 4 found (free_mark n next) 0 (λ i l u. same i (omega arith))
            ∙ id-free_mark n next fits fits',
        load-congr 2 found (free_mark n next) 4 (λ i l u. same i (omega arith))
            ∙ type_code-free_mark n next fits fits',
        load-congr 4 found (free_mark n next) 16 (λ i l u. same i (omega arith))
            ∙ next_page-free_mark n next fits fits',
      )

  stored-freed :
      (count : ℕ)
      → (found : Page) × (stored (freed p n next count) n ≡ ok found)
        × (id found ≡ n)
        × (type_code found ≡ 3)
        × (next_page found ≡ next)
  unfolding freed marked stored
  stored-freed count = let (found, r, i, t, x) = reads_mark in (found, rw r refl, i, t, x)

  allocate_page-freed :
      (count : ℕ)
      → allocate_page (freed p n next count)
        ≡ ok (
          record (freed p n next count) {
            meta = record p.meta { freelist_head = next };
            reads = count + 1;
          },
          n,
        )
  unfolding freed allocate_page check_that
  allocate_page-freed count =
      let (found, r, i, t, x) = stored-freed count in
      rw (==_ne n 0 nonzero, ltb-true n p.meta.page_count within, r, i, ==_refl n, t, x)

  free_page-freed :
      (count : ℕ)
      → free_page (freed p n next count) n
        ≡ fail "free_page: double free (page is already on the free list)"
  unfolding freed free_page check_that
  free_page-freed count =
      let (found, r, i, t, x) = stored-freed count in
      rw (==_ne n 0 nonzero, ltb-true n p.meta.page_count within, r, i, ==_refl n, t)

read_page-eq-ok :
    (p : Pager) (n : ℕ) (r : Pager × Page)
    → read_page p n ≡ ok r
    → (n ≢ 0) × (n < p.meta.page_count) × (r.0 ≡ record p { reads = p.reads + 1 })
unfolding read_page
read_page-eq-ok p n r h =
    let guard = not (n == 0) && ltb n p.meta.page_count in
    let (u, e1, h1) = returned (check_that guard "read_page: page id out of range") _ r h in
    let (page, e2, h2) = returned (stored p n) _ r h1 in
    let (v, e3, h3) =
      returned
        (check_that (id page == n || type_code page == 0)
          "read_page: page header claims a different id (corruption?)")
        _ r h2 in
    let t = checked guard _ u e1 in
    (ground arith, ground arith, sym (ap (λ (r : Pager × Page). r.0) (ok-injective h3)))

write_page-eq-ok :
    (p : Pager) (n : ℕ) (page : Page) (r : Pager)
    → write_page p n page ≡ ok r
    → r ≡ record p { wal = write p.wal n page }
unfolding write_page
write_page-eq-ok p n page r h =
    let (u, e1, h1) =
      returned
        (check_that (not (n == 0) && ltb n p.meta.page_count) "write_page: page id out of range") _
        r h in
    let (v, e2, h2) =
      returned (check_that (id page == n) "write_page: page header id does not match destination") _
        r h1 in
    sym (ok-injective h2)

free_page-eq-freed :
    (p : Pager) (n : ℕ) (q : Pager)
    → free_page p n ≡ ok q
    → (n ≢ 0) × (n < p.meta.page_count) × (q ≡ freed p n p.meta.freelist_head (p.reads + 1))
unfolding freed marked free_page touch_meta free_mark
free_page-eq-freed p n q h =
    let guard = not (n == 0) && ltb n p.meta.page_count in
    let (u, e1, h1) = returned (check_that guard "free_page: page id out of range") _ q h in
    let (r, e2, h2) = returned (read_page p n) _ q h1 in
    let (v, e3, h3) =
      returned
        (check_that (not (type_code r.1 == 3))
          "free_page: double free (page is already on the free list)")
        _ q h2 in
    let (q', e4, h4) = returned (write_page r.0 n (free_mark n p.meta.freelist_head)) _ q h3 in
    let (ne, lt, e) = read_page-eq-ok p n r e2 in
    let w = write_page-eq-ok r.0 n (free_mark n p.meta.freelist_head) q' e4 in
    (
      ne,
      lt,
      sym (ok-injective h4)
          ∙ ap
              (λ (q : Pager). record q {
                meta = record q.meta { freelist_head = n };
                meta_dirty = true;
              })
              (w
                ∙ ap
                    (λ (r : Pager). record r {
                      wal = write r.wal n (free_mark n p.meta.freelist_head);
                    })
                    e),
    )

-- On a well-formed log, where the page's id and the head of the free list have 32 bits and
-- `free_page` succeeds: the next `allocate_page` gives the freed page, and the meta page's
-- fields are then as they were before it was freed; and freeing the page a second time instead
-- fails as a double free.
pub allocate_page-free_page :
    (p : Pager) (s : Store) (n : ℕ) (q : Pager)
    → Keeps p.wal s
    → n < 2 ^ 32
    → p.meta.freelist_head < 2 ^ 32
    → free_page p n ≡ ok q
    → ((r : Pager) × (allocate_page q ≡ ok (r, n)) × (r.meta ≡ p.meta))
      × (free_page q n ≡ fail "free_page: double free (page is already on the free list)")
unfolding freed
allocate_page-free_page p s n q k fits fits' h =
    let (ne, lt, e) = free_page-eq-freed p n q h in
    let next = p.meta.freelist_head in
    (
      (
        _,
        ap allocate_page e ∙ allocate_page-freed p s n next k fits fits' ne lt (p.reads + 1),
        refl,
      ),
      ap (λ (q : Pager). free_page q n) e
          ∙ free_page-freed p s n next k fits fits' ne lt (p.reads + 1),
    )
