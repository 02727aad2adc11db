-- ===== src/Wal/Recovery.antt =====
-- Recovery: whatever a crash left in the slots after the last commit, a log that is opened again holds
-- exactly the committed frames.
use labdb.Prelude.{
  ℕ, ◌+◌, ◌-◌, ◌≤◌, ◌<◌, ◌≡◌, ◌≢◌, inl, inr, refl, arith, ◌∙◌, ap, sym, Bool, true, false, some, [],
  ltb-false, leb-true, Bool-cases, ==→eq, ==→ne, ◌==◌, ok,
}
use labdb.Common.{load_u64}
use labdb.Page.{Page, page_size}
use labdb.Io.{File, pread_exact}
use labdb.Wal.{
  Wal, Scan, scan, scan_fuel, scan_start, frame_size, frame_header_size, slot_offset,
  header_matches, open_wal, recover, read_frame, rollback,
}
use labdb.Wal.Slots.{SlotMap, find}
use labdb.Wal.Frames.{entry_at, entry_at-congr}
use labdb.Wal.Replay.{replay, scan-replay, scan-quiet}
use labdb.Wal.Log.{LogInv, header-congr, rollback-LogInv}

-- A file that a crash may leave of the log `w`: the bytes up to the last commit are the log's, and no
-- later slot passes for a commit of this generation. What else stands there is open: frames that
-- were pending, torn frames, bytes of older generations.
pub record CrashImage (w : Wal) (f : File) : Type 0 where
  pub same : (i : ℕ) → i < slot_offset w.commit_end → f.bytes i ≡ w.file.bytes i
  pub size : slot_offset w.commit_end ≤ f.size
  pub quiet : (k id : ℕ) → w.commit_end ≤ k → entry_at f w.generation w.db_id k ≢ some (id, true)

module _ (entries : ℕ → ℕ × Bool) (w : Wal) (f : File) (fresh : ℕ) (inv : LogInv entries w)
    (header : w.header_ok ≡ true) (image : CrashImage w f) where
  image-entry : (k : ℕ) → k < w.commit_end → entry_at f w.generation w.db_id k ≡ some (entries k)
  image-entry k u =
      entry_at-congr f w.file w.generation w.db_id k
        (λ i v. image.same (slot_offset k + i) (omega arith))
        (ltb-false f.size (slot_offset k + frame_size) (omega (arith, image.size))
          ∙ sym (
              ltb-false w.file.size (slot_offset k + frame_size)
                (inv.whole k (omega (arith, inv.order)))))
      ∙ inv.frames k (omega (arith, inv.order))

  scanned : Scan
  scanned = scan (scan_fuel f) f w.generation w.db_id 0 scan_start

  scanned-replay : (scanned.committed ≡ w.committed) × (scanned.commit_end ≡ w.commit_end)
  unfolding scanned replay
  scanned-replay =
      let fuel = scan_fuel f - w.commit_end in
      let run =
        scan-replay f w.generation w.db_id entries w.commit_end 0 (scan_fuel f) fuel
          (omega (arith, image.size)) (λ j a b. image-entry j (omega arith)) in
      let stop =
        scan-quiet f w.generation w.db_id fuel (0 + w.commit_end)
          (replay entries (0 + w.commit_end)) (λ j id l. image.quiet j id (omega arith)) in
      let e : 0 + w.commit_end ≡ w.commit_end = omega arith in
      let start = ap (λ (k : ℕ). (replay entries k).committed) e in
      let start_end = ap (λ (k : ℕ). (replay entries k).commit_end) e in
      (
        ap (λ (s : Scan). s.committed) run
            ∙ stop.0
            ∙ start
            ∙ ap (λ (m : SlotMap × SlotMap × ℕ). m.1) inv.decided,
        ap (λ (s : Scan). s.commit_end) run
            ∙ stop.1
            ∙ start_end
            ∙ ap (λ (m : SlotMap × SlotMap × ℕ). m.2) inv.decided,
      )

  header-image : (header_matches f w.db_id ≡ true) × (load_u64 f.bytes 16 ≡ w.generation)
  header-image =
      header-congr w.file f w.db_id w.generation (λ i u. image.same i (omega arith))
        (omega (arith, image.size)) (inv.header header)

  -- The log as it is opened again and recovered.
  unfoldable pub reopened : Wal
  reopened = (recover (open_wal f w.db_id fresh)).0

  unfoldable pub opened : Wal
  opened = record {
    file = f;
    db_id = w.db_id;
    generation = w.generation;
    header_ok = true;
    keep_generation = false;
    end = 0;
    commit_end = 0;
    committed = [];
    pending = [];
    frames_written = 0;
    syncs = 0;
  }

  opened-eq : open_wal f w.db_id fresh ≡ opened
  unfolding open_wal opened
  opened-eq = rw (header-image.0, header-image.1, open_wal)

  pub reopened-eq :
      reopened
      ≡ record opened { end = w.commit_end; commit_end = w.commit_end; committed = w.committed }
  unfolding reopened recover opened scanned
  reopened-eq = ap (λ (v : Wal). (recover v).0) opened-eq ∙ rw (scanned-replay.0, scanned-replay.1)

  pub reopened-LogInv : LogInv entries reopened
  unfolding find opened
  reopened-LogInv = rw reopened-eq (record {
    word = inv.word;
    order = omega arith;
    whole = λ k u. omega (arith, image.size);
    frames = image-entry;
    quiet = image.quiet;
    undecided = λ k l u. absurd (omega arith);
    decided = inv.decided;
    pending = inv.decided;
    slots = λ j s e. absurd (cc);
    committed_slots = inv.committed_slots;
    unique = tt;
    no_meta = refl;
    header = λ o. header-image;
    headless = λ o. absurd (cc);
  })

  -- Each committed page reads back as it was.
  reopened-page :
      (id slot : ℕ)
      → find id w.committed ≡ some slot
      → (p : Page) × (q : Page) × (read_frame reopened slot ≡ ok p)
        × (read_frame w slot ≡ ok q)
        × ((i : ℕ) → i < page_size → p i ≡ q i)
  unfolding read_frame pread_exact opened
  reopened-page id slot e =
      let u = inv.committed_slots id slot e in
      let at = slot_offset slot + frame_header_size in
      (
        λ i. f.bytes (at + i),
        λ i. w.file.bytes (at + i),
        rw (reopened-eq, leb-true (at + page_size) f.size (omega (arith, image.size))),
        rw (
            leb-true (at + page_size) w.file.size
              (omega (arith, inv.whole slot (omega (arith, inv.order))))),
        λ i v. image.same (at + i) (omega arith),
      )

-- A well-formed log with a header in its file, whose file survives a crash up to its last
-- commit and then holds no later slot that passes for a commit of the generation, comes back
-- from opening and recovering with exactly the committed map and the pages' bytes, nothing
-- pending, the same generation and the same end; it is well formed again.
pub recover-committed :
    (entries : ℕ → ℕ × Bool) (w : Wal) (f : File) (fresh : ℕ)
    → LogInv entries w
    → w.header_ok ≡ true
    → CrashImage w f
    → let v = (recover (open_wal f w.db_id fresh)).0 in
      (v.committed ≡ w.committed)
      × (v.pending ≡ [])
      × (v.end ≡ w.commit_end)
      × (v.commit_end ≡ w.commit_end)
      × (v.generation ≡ w.generation)
      × ((id slot : ℕ)
          → find id w.committed ≡ some slot
          → (p : Page) × (q : Page) × (read_frame v slot ≡ ok p)
            × (read_frame w slot ≡ ok q)
            × ((i : ℕ) → i < page_size → p i ≡ q i))
      × LogInv entries v
unfolding reopened opened
recover-committed entries w f fresh inv header image =
    let e = reopened-eq entries w f fresh inv header image in
    (
      ap (λ (v : Wal). v.committed) e,
      ap (λ (v : Wal). v.pending) e,
      ap (λ (v : Wal). v.end) e,
      ap (λ (v : Wal). v.commit_end) e,
      ap (λ (v : Wal). v.generation) e,
      reopened-page entries w f fresh inv header image,
      reopened-LogInv entries w f fresh inv header image,
    )

size_of_header : (f : File) (db_id : ℕ) → header_matches f db_id ≡ true → 64 ≤ f.size
unfolding header_matches
size_of_header f db_id h = ground arith

-- The file as it is, with frames pending, is such an image: a crash forgets them.
pub CrashImage-file :
    (entries : ℕ → ℕ × Bool) (w : Wal) → w.header_ok ≡ true → LogInv entries w → CrashImage w w.file
unfolding rollback
CrashImage-file entries w header inv =
    let v = rollback-LogInv entries w inv in
    record {
      same = λ i u. refl;
      size = elim (Bool-cases (w.commit_end == 0)) [
        | inl z ↦
            omega
              (arith, ==→eq w.commit_end 0 z, size_of_header w.file w.db_id (inv.header header).0)
        | inr z ↦ omega (
          arith,
          ==→ne w.commit_end 0 z,
          v.whole (w.commit_end - 1) (omega (arith, ==→ne w.commit_end 0 z)),
        )
      ];
      quiet = v.quiet;
    }
