-- ===== src/Wal/Header.antt =====
-- The header of the log: written before the first frame, accepted when the log is opened again, and
-- apart from every slot.
use labdb.Prelude.{
  ℕ, ◌+◌, ◌^◌, ◌≤◌, ◌<◌, ◌≡◌, inl, inr, refl, arith, ◌∙◌, ap, sym, subst, Option-cases, [], Bool,
  true, false, if◌then◌else◌, Bool-cases,
}
use labdb.Common.{Bytes, zeroes, load, load_u64, store_u32, store_u64}
use labdb.Common.Fields.{
  load-congr, store-outside, load-store_apart, load-store_self, memcpy-inside, memcpy-outside,
}
use labdb.Page.{Page, page_size}
use labdb.Io.{File, pwrite_exact}
use labdb.Checksum.{digest}
use labdb.Checksum.Congruence.{digest-congr, digest-lt}
use labdb.Wal.{
  Wal, wal_magic, wal_version, wal_header_size, header_matches, header_fields, header_image,
  write_header, ensure_header, write_frame, write, commit, sync, frame_image, frame_size,
  slot_offset,
}
use labdb.Wal.Slots.{find, assign, assign_all}
use labdb.Wal.Frames.{entry_at, entry_at-congr}
use labdb.Wal.Log.{LogInv}

module _ (generation db_id : ℕ) (word : generation < 2 ^ 64) (id_fits : db_id < 2 ^ 64) where
  magic : Bytes
  magic = store_u64 zeroes 0 wal_magic

  version : Bytes
  version = store_u32 magic 8 wal_version

  sizes : Bytes
  sizes = store_u32 version 12 page_size

  numbered : Bytes
  numbered = store_u64 sizes 16 generation

  fields : Bytes
  fields = store_u64 numbered 24 db_id

  image : Bytes
  image = store_u64 fields 32 (digest fields 0 32 0)

  header_image-eq : header_image generation db_id ≡ image
  unfolding header_image header_fields image fields numbered sizes version magic
  header_image-eq = refl

  image-field : (w o : ℕ) → o + w ≤ 32 → load w image o ≡ load w fields o
  unfolding image
  image-field w o h = load-store_apart 8 fields 32 (digest fields 0 32 0) w o (inl (omega arith))

  image-id : load 8 image 24 ≡ db_id
  unfolding fields
  image-id = image-field 8 24 (omega arith) ∙ load-store_self 8 numbered 24 db_id (omega arith)

  image-generation : load 8 image 16 ≡ generation
  unfolding fields numbered
  image-generation =
      image-field 8 16 (omega arith)
      ∙ load-store_apart 8 numbered 24 db_id 8 16 (omega arith)
      ∙ load-store_self 8 sizes 16 generation (omega arith)

  image-low : (w o : ℕ) → o + w ≤ 16 → load w image o ≡ load w sizes o
  unfolding fields numbered
  image-low w o h =
      image-field w o (omega arith)
      ∙ load-store_apart 8 numbered 24 db_id w o (omega arith)
      ∙ load-store_apart 8 sizes 16 generation w o (omega arith)

  image-page_size : load 4 image 12 ≡ page_size
  unfolding sizes
  image-page_size =
      image-low 4 12 (omega arith) ∙ load-store_self 4 version 12 page_size (omega arith)

  image-version : load 4 image 8 ≡ wal_version
  unfolding sizes version
  image-version =
      image-low 4 8 (omega arith)
      ∙ load-store_apart 4 version 12 page_size 4 8 (omega arith)
      ∙ load-store_self 4 magic 8 wal_version (omega arith)

  image-magic : load 8 image 0 ≡ wal_magic
  unfolding sizes version magic
  image-magic =
      image-low 8 0 (omega arith)
      ∙ load-store_apart 4 version 12 page_size 8 0 (omega arith)
      ∙ load-store_apart 4 magic 8 wal_version 8 0 (omega arith)
      ∙ load-store_self 8 zeroes 0 wal_magic (omega arith)

  image-checksum : load 8 image 32 ≡ digest image 0 32 0
  unfolding image
  image-checksum =
      load-store_self 8 fields 32 (digest fields 0 32 0) (omega (arith, digest-lt fields 0 32 0))
      ∙ sym (
          digest-congr image fields 0 0 32 0
            (λ k u. store-outside 8 fields 32 (digest fields 0 32 0) (0 + k) (inl (omega arith))))

  module _ (f : File) where
    headed : File
    headed = pwrite_exact f (header_image generation db_id) wal_header_size 0

    headed-image : (i : ℕ) → i < 64 → headed.bytes i ≡ image i
    unfolding headed pwrite_exact
    headed-image i u =
        memcpy-inside f.bytes 0 (header_image generation db_id) 0 64 i (omega arith) (omega arith)
        ∙ ap (header_image generation db_id) {y = i} (omega arith)
        ∙ ap (λ (p : Bytes). p i) header_image-eq

    headed-field : (w o : ℕ) → o + w ≤ 64 → load w headed.bytes o ≡ load w image o
    headed-field w o h = load-congr w headed.bytes image o (λ i a b. headed-image i (omega arith))

    headed-size : 64 ≤ headed.size
    unfolding headed pwrite_exact
    headed-size = ground arith

    headed-matches : (header_matches headed db_id ≡ true) × (load_u64 headed.bytes 16 ≡ generation)
    unfolding header_matches
    headed-matches = (
      ground (
        arith,
        headed-size,
        headed-field 8 0 (omega arith) ∙ image-magic,
        headed-field 4 8 (omega arith) ∙ image-version,
        headed-field 4 12 (omega arith) ∙ image-page_size,
        headed-field 8 24 (omega arith) ∙ image-id,
        headed-field 8 32 (omega arith)
            ∙ image-checksum
            ∙ sym (
                digest-congr headed.bytes image 0 0 32 0
                  (λ k u. headed-image (0 + k) (omega arith))),
      ),
      headed-field 8 16 (omega arith) ∙ image-generation,
    )

    entry_at-headed : (k : ℕ) → entry_at headed generation db_id k ≡ entry_at f generation db_id k
    unfolding headed pwrite_exact
    entry_at-headed k =
        entry_at-congr headed f generation db_id k
          (λ i u.
            memcpy-outside f.bytes 0 (header_image generation db_id) 0 64 (slot_offset k + i)
              (inr (omega arith)))
          (ground arith)

    size-headed : f.size ≤ headed.size
    unfolding headed pwrite_exact
    size-headed = ground arith

-- Writing the header, where none is yet, keeps the invariant.
write_header-LogInv :
    (entries : ℕ → ℕ × Bool) (w : Wal)
    → w.db_id < 2 ^ 64
    → w.end ≡ 0
    → LogInv entries w
    → LogInv entries (write_header w)
unfolding write_header headed
write_header-LogInv entries w id_fits empty inv =
    let entry = entry_at-headed w.generation w.db_id inv.word id_fits w.file in
    record {
      word = inv.word;
      order = inv.order;
      whole = λ k u. absurd (omega arith);
      frames = λ k u. absurd (omega arith);
      quiet = λ k j l e. inv.quiet k j l (sym (entry k) ∙ e);
      undecided = inv.undecided;
      decided = inv.decided;
      pending = inv.pending;
      slots = inv.slots;
      committed_slots = inv.committed_slots;
      unique = inv.unique;
      no_meta = inv.no_meta;
      header = λ o. headed-matches w.generation w.db_id inv.word id_fits w.file;
      headless = λ o. absurd (cc);
    }

ensure_header-old : (w : Wal) → w.header_ok ≡ true → ensure_header w ≡ w
unfolding ensure_header
ensure_header-old w e = ap (λ (b : Bool). if b then w else write_header w) e

ensure_header-new : (w : Wal) → w.header_ok ≡ false → ensure_header w ≡ write_header w
unfolding ensure_header
ensure_header-new w e = ap (λ (b : Bool). if b then w else write_header w) e

-- What holds of a log, and still holds once its header is written, holds after the test that comes
-- before each frame; afterwards there is a header.
pub ensure_header-elim {ℓ} :
    (P : Wal → Type ℓ) (w : Wal)
    → P w
    → (w.header_ok ≡ false → P (write_header w))
    → P (ensure_header w)
ensure_header-elim P w old new = elim (Bool-cases w.header_ok) [
  | inl e ↦ subst P (sym (ensure_header-old w e)) old
  | inr e ↦ subst P (sym (ensure_header-new w e)) (new e)
]

pub ensure_header-LogInv :
    (entries : ℕ → ℕ × Bool) (w : Wal)
    → w.db_id < 2 ^ 64
    → LogInv entries w
    → LogInv entries (ensure_header w)
ensure_header-LogInv entries w id_fits inv =
    ensure_header-elim (LogInv entries) w inv
      (λ e. write_header-LogInv entries w id_fits (inv.headless e) inv)

pub header_ok-ensure_header : (w : Wal) → (ensure_header w).header_ok ≡ true
unfolding write_header
header_ok-ensure_header w = elim (Bool-cases w.header_ok) [
  | inl e ↦ ap (λ (v : Wal). v.header_ok) (ensure_header-old w e) ∙ e
  | inr e ↦ ap (λ (v : Wal). v.header_ok) (ensure_header-new w e)
]

pub db_id-ensure_header : (w : Wal) → (ensure_header w).db_id ≡ w.db_id
unfolding write_header
db_id-ensure_header w = ensure_header-elim (λ v. v.db_id ≡ w.db_id) w refl (λ e. refl)

module _ (w : Wal) (e : w.header_ok ≡ false) where
  write_frame-headed :
      (slot id flags : ℕ) (page : Page)
      → write_frame w slot id flags page ≡ write_frame (write_header w) slot id flags page
  unfolding write_frame write_header ensure_header
  write_frame-headed slot id flags page =
      ap
        (λ (v : Wal). record v {
          file =
              pwrite_exact v.file (frame_image v.generation v.db_id id flags page) frame_size
                (slot_offset slot);
          frames_written = v.frames_written + 1;
        })
        (ensure_header-new w e)

  write-headed : (id : ℕ) (page : Page) → write w id page ≡ write (write_header w) id page
  unfolding write write_header
  write-headed id page = elim (Option-cases (find id w.pending)) [
    | inl new ↦
        rw (new, write)
          (ap (λ (v : Wal). record v { end = w.end + 1; pending = assign id w.end v.pending })
            (write_frame-headed w.end id 0 page))
    | inr (slot, old) ↦
        rw (old, write)
          (ap (λ (v : Wal). record v { pending = assign id slot v.pending })
            (write_frame-headed slot id 0 page))
  ]

  commit-headed :
      (meta : Page) (durable : Bool) → commit w meta durable ≡ commit (write_header w) meta durable
  unfolding commit write_header
  commit-headed meta durable =
      ap
        (λ (v : Wal).
          let done = record v {
            committed = assign 0 w.end (assign_all v.pending v.committed);
            pending = [];
            end = w.end + 1;
            commit_end = w.end + 1;
          } in
          if durable then sync done else done)
        (write_frame-headed w.end 0 1 meta)

-- A frame is written after the header, if there was none.
pub write-ensure_header :
    (w : Wal) (id : ℕ) (page : Page) → write w id page ≡ write (ensure_header w) id page
write-ensure_header w id page = elim (Bool-cases w.header_ok) [
  | inl e ↦ ap (λ (v : Wal). write v id page) (sym (ensure_header-old w e))
  | inr e ↦
      write-headed w e id page ∙ ap (λ (v : Wal). write v id page) (sym (ensure_header-new w e))
]

pub commit-ensure_header :
    (w : Wal) (meta : Page) (durable : Bool)
    → commit w meta durable ≡ commit (ensure_header w) meta durable
commit-ensure_header w meta durable = elim (Bool-cases w.header_ok) [
  | inl e ↦ ap (λ (v : Wal). commit v meta durable) (sym (ensure_header-old w e))
  | inr e ↦
      commit-headed w e meta durable
      ∙ ap (λ (v : Wal). commit v meta durable) (sym (ensure_header-new w e))
]
