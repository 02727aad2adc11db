-- ===== src/Wal/Frames.antt =====
-- What a frame holds once it is written: the scan of `recover` accepts it, with its page id and its
-- commit flag, a read gives its page, and no other slot changes.
use labdb.Prelude.{
  ℕ, ◌+◌, ◌^◌, ◌≤◌, ◌<◌, ◌≡◌, ◌≢◌, ◌⊎◌, inl, inr, arith, ◌∙◌, ap, sym, Bool, not, Option, none,
  some, if◌then◌else◌, ◌==◌, ltb, ==_refl, ltb-false,
}
use labdb.Common.{Bytes, zeroes, load, load_u32, load_u64, store_u32, store_u64}
use labdb.Common.Fields.{
  load-congr, store-outside, load-store_apart, load-store_self, load-memcpy_apart, memcpy-inside,
  memcpy-outside,
}
use labdb.Page.{Page, page_size}
use labdb.Io.{File, pwrite_exact}
use labdb.Checksum.{digest}
use labdb.Checksum.Congruence.{digest-congr, digest-lt}
use labdb.Wal.{
  frame_size, frame_header_size, slot_offset, is_commit, frame_body, frame_checksum, frame_image,
}

-- What `recover` sees in a slot: the page id and the commit flag of a whole frame of the generation
-- whose checksum is right, and nothing otherwise.
unfoldable pub entry_at : File → ℕ → ℕ → ℕ → Option (ℕ × Bool)
entry_at f generation db_id slot =
    let buf = λ (i : ℕ). f.bytes (slot_offset slot + i) in
    if ltb f.size (slot_offset slot + frame_size)
    then none
    else if not (load_u64 buf 8 == generation)
    then none
    else if not (load_u64 buf 16 == frame_checksum db_id buf)
    then none
    else some (load_u32 buf 0, is_commit (load_u32 buf 4))

-- The bytes of a slot in two files.
abbrev SameSlot : File → File → ℕ → Type 0
SameSlot f g slot =
    (i : ℕ) → i < frame_size → f.bytes (slot_offset slot + i) ≡ g.bytes (slot_offset slot + i)

frame_checksum-congr :
    (db_id : ℕ) (p q : Bytes)
    → ((i : ℕ) → i < frame_size → (i < 16) ⊎ (24 ≤ i) → p i ≡ q i)
    → frame_checksum db_id p ≡ frame_checksum db_id q
frame_checksum-congr db_id p q h =
    rw (digest-congr p q 0 0 16 db_id (λ k u. h (0 + k) (omega arith) (inl (omega arith))))
      (digest-congr p q 24 24 page_size _ (λ k u. h (24 + k) (omega arith) (inr (omega arith))))

-- A slot is what its bytes make it, if the file ends behind it in both files or in neither.
pub entry_at-congr :
    (f g : File) (generation db_id slot : ℕ)
    → SameSlot f g slot
    → ltb f.size (slot_offset slot + frame_size) ≡ ltb g.size (slot_offset slot + frame_size)
    → entry_at f generation db_id slot ≡ entry_at g generation db_id slot
unfolding entry_at
entry_at-congr f g generation db_id slot same size =
    let p = λ (i : ℕ). f.bytes (slot_offset slot + i) in
    let q = λ (i : ℕ). g.bytes (slot_offset slot + i) in
    let field =
      λ (w o : ℕ) (u : o + w ≤ frame_size). load-congr w p q o (λ i a b. same i (omega arith)) in
    rw (
      size,
      field 8 8 (omega arith),
      field 8 16 (omega arith),
      field 4 0 (omega arith),
      field 4 4 (omega arith),
      frame_checksum-congr db_id p q (λ i u _. same i u),
    )

module _ (generation db_id id flags : ℕ) (page : Page) (fits : generation < 2 ^ 64)
    (id_fits : id < 2 ^ 32) (flags_fit : flags < 2) where
  ids : Bytes
  ids = store_u32 (store_u32 zeroes 0 id) 4 flags

  body : Bytes
  unfolding frame_body ids
  body = frame_body generation id flags page

  image : Bytes
  unfolding frame_image body
  image = frame_image generation db_id id flags page

  body-field : (w o : ℕ) → o + w ≤ 16 → load w body o ≡ load w (store_u64 ids 8 generation) o
  unfolding body
  body-field w o h =
      load-memcpy_apart w (store_u64 ids 8 generation) frame_header_size page 0 page_size o
        (inl (omega arith))

  image-field : (w o : ℕ) → o + w ≤ 16 → load w image o ≡ load w (store_u64 ids 8 generation) o
  unfolding image
  image-field w o h =
      load-store_apart 8 body 16 (frame_checksum db_id body) w o (inl (omega arith))
      ∙ body-field w o h

  image-id : load_u32 image 0 ≡ id
  unfolding ids
  image-id =
      image-field 4 0 (omega arith)
      ∙ load-store_apart 8 ids 8 generation 4 0 (omega arith)
      ∙ load-store_apart 4 (store_u32 zeroes 0 id) 4 flags 4 0 (omega arith)
      ∙ load-store_self 4 zeroes 0 id (omega arith)

  image-flags : load_u32 image 4 ≡ flags
  unfolding ids
  image-flags =
      image-field 4 4 (omega arith)
      ∙ load-store_apart 8 ids 8 generation 4 4 (omega arith)
      ∙ load-store_self 4 (store_u32 zeroes 0 id) 4 flags (omega arith)

  image-generation : load_u64 image 8 ≡ generation
  image-generation =
      image-field 8 8 (omega arith) ∙ load-store_self 8 ids 8 generation (omega arith)

  image-body : (i : ℕ) → (i < 16) ⊎ (24 ≤ i) → image i ≡ body i
  unfolding image
  image-body i h = store-outside 8 body 16 (frame_checksum db_id body) i (omega arith)

  image-checksum : load_u64 image 16 ≡ frame_checksum db_id image
  unfolding image
  image-checksum =
      load-store_self 8 body 16 (frame_checksum db_id body)
        (omega (arith, digest-lt body 24 page_size (digest body 0 16 db_id)))
      ∙ sym (frame_checksum-congr db_id image body (λ i _ h. image-body i h))

  image-page : (i : ℕ) → i < page_size → image (24 + i) ≡ page i
  unfolding body
  image-page i u =
      image-body (24 + i) (inr (omega arith))
      ∙ memcpy-inside (store_u64 ids 8 generation) 24 page 0 page_size (24 + i) (omega arith)
          (omega arith)
      ∙ ap page {y = i} (omega arith)

  -- A frame is accepted wherever its bytes stand whole.
  pub entry_at-image :
      (f : File) (slot : ℕ)
      → ((i : ℕ)
          → i < frame_size
          → f.bytes (slot_offset slot + i) ≡ frame_image generation db_id id flags page i)
      → slot_offset slot + frame_size ≤ f.size
      → entry_at f generation db_id slot ≡ some (id, is_commit flags)
  unfolding entry_at image
  entry_at-image f slot same size =
      let p = λ (i : ℕ). f.bytes (slot_offset slot + i) in
      let field = λ (w o : ℕ) (u : o + w ≤ frame_size).
        load-congr w p image o (λ i a b. same i (omega arith)) in
      rw (
        ltb-false f.size (slot_offset slot + frame_size) size,
        field 8 8 (omega arith) ∙ image-generation,
        field 8 16 (omega arith) ∙ image-checksum,
        field 4 0 (omega arith) ∙ image-id,
        field 4 4 (omega arith) ∙ image-flags,
        frame_checksum-congr db_id p image (λ i u _. same i u),
        ==_refl generation,
        ==_refl (frame_checksum db_id image),
      )

  -- A read of it gives its page.
  pub image-page_at :
      (f : File) (slot : ℕ)
      → ((i : ℕ)
          → i < frame_size
          → f.bytes (slot_offset slot + i) ≡ frame_image generation db_id id flags page i)
      → (i : ℕ) → i < page_size
      → f.bytes (slot_offset slot + frame_header_size + i) ≡ page i
  unfolding image
  image-page_at f slot same i u =
      ap f.bytes {y = slot_offset slot + (24 + i)} (omega arith)
      ∙ same (24 + i) (omega arith)
      ∙ image-page i u

-- A write to one slot leaves the bytes of every other, and the file ends behind another slot just as
-- it did if that slot lies behind the written one or was whole.
module _ (f : File) (buf : Bytes) (slot : ℕ) where
  pub written-inside :
      (i : ℕ)
      → i < frame_size
      → (pwrite_exact f buf frame_size (slot_offset slot)).bytes (slot_offset slot + i) ≡ buf i
  unfolding pwrite_exact
  written-inside i u =
      memcpy-inside f.bytes (slot_offset slot) buf 0 frame_size (slot_offset slot + i) (omega arith)
        (omega arith)
      ∙ ap buf {y = i} (omega arith)

  pub written-outside :
      (k i : ℕ)
      → k ≢ slot
      → i < frame_size
      → (pwrite_exact f buf frame_size (slot_offset slot)).bytes (slot_offset k + i)
        ≡ f.bytes (slot_offset k + i)
  unfolding pwrite_exact
  written-outside k i ne u =
      memcpy-outside f.bytes (slot_offset slot) buf 0 frame_size (slot_offset k + i) (omega arith)

  pub written-header :
      (i : ℕ) → i < 64 → (pwrite_exact f buf frame_size (slot_offset slot)).bytes i ≡ f.bytes i
  unfolding pwrite_exact
  written-header i u =
      memcpy-outside f.bytes (slot_offset slot) buf 0 frame_size i (inl (omega arith))

  pub size-written :
      (slot_offset slot + frame_size ≤ (pwrite_exact f buf frame_size (slot_offset slot)).size)
      × (f.size ≤ (pwrite_exact f buf frame_size (slot_offset slot)).size)
  unfolding pwrite_exact
  size-written = ground arith

  pub entry_at-written :
      (generation db_id k : ℕ)
      → k ≢ slot
      → (slot < k) ⊎ (slot_offset k + frame_size ≤ f.size)
      → entry_at (pwrite_exact f buf frame_size (slot_offset slot)) generation db_id k
        ≡ entry_at f generation db_id k
  unfolding pwrite_exact
  entry_at-written generation db_id k ne h =
      entry_at-congr (pwrite_exact f buf frame_size (slot_offset slot)) f generation db_id k
        (λ i u. written-outside k i ne u) (same_end h)
    where
      same_end :
          (slot < k) ⊎ (slot_offset k + frame_size ≤ f.size)
          → ltb (pwrite_exact f buf frame_size (slot_offset slot)).size (slot_offset k + frame_size)
            ≡ ltb f.size (slot_offset k + frame_size)
      same_end (inl a) = ground arith
      same_end (inr b) =
          rw (ltb-false f.size (slot_offset k + frame_size) b)
            (ltb-false _ (slot_offset k + frame_size) (omega (arith, size-written)))
