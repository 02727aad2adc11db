-- ===== src/Slotted/Compacted.antt =====
-- `compact` as a whole.
use labdb.Prelude.{
  ℕ, ◌+◌, ◌-◌, ◌*◌, ◌≤◌, ◌<◌, ◌≡◌, ◌≢◌, ◌⊎◌, inl, inr, refl, arith, ◌∙◌, ap, Bool-cases, ◌==◌, ltb,
}
use labdb.Common.{zeroes, memcpy, load}
use labdb.Common.Fields.{
  load-congr, store-outside, load-store_apart, load-store_self, memcpy-inside, load-memcpy_apart,
}
use labdb.Page.{
  Page, page_size, slot_count, free_start, free_end, frag_bytes, set_free_end, set_frag_bytes,
}
use labdb.Slotted.{slot_off, slot_len, Packing, pack, compact}
use labdb.Slotted.Invariant.{live_bytes, live_bytes-congr, IsValid, live_len}
use labdb.Slotted.Compact.{Packed, packing-Packed}
use labdb.Slotted.Records.{record_at, record_at-congr, record_at-beyond, SameCell}

-- `q` is `p` with the cells packed.
pub record Compacted (p q : Page) : Type 0 where
  pub count : slot_count q ≡ slot_count p
  pub start : free_start q ≡ free_start p
  pub end : free_end q ≡ free_end p + frag_bytes p
  pub frag : frag_bytes q ≡ 0
  pub dead : (j : ℕ) → j < slot_count p → slot_off p j ≡ 0 → slot_off q j ≡ 0
  pub above : (j : ℕ) → j < slot_count p → slot_off p j ≢ 0 → free_end q ≤ slot_off q j
  pub below :
      (j : ℕ) → j < slot_count p → slot_off p j ≢ 0 → slot_off q j + slot_len q j ≤ page_size
  pub same : (j : ℕ) → j < slot_count p → slot_off p j ≢ 0 → SameCell p q j

-- The writes after the loop: the cell area copied back, and two fields of the header.
finish : Packing → Page
finish s =
    set_frag_bytes
      (set_free_end (memcpy s.page s.write_pos s.scratch s.write_pos (page_size - s.write_pos))
        s.write_pos)
      0

module _ (s : Packing) (low : 20 ≤ s.write_pos) (fits : s.write_pos ≤ page_size) where
  -- the cell area as it is copied back
  copied : Page
  copied = memcpy s.page s.write_pos s.scratch s.write_pos (page_size - s.write_pos)

  finish-field :
      (w o : ℕ)
      → (o + w ≤ 10) ⊎ ((14 ≤ o) × (o + w ≤ s.write_pos))
      → load w (finish s) o ≡ load w s.page o
  unfolding finish copied
  finish-field w o h =
      load-store_apart 2 (set_free_end copied s.write_pos) 12 0 w o (omega arith)
      ∙ load-store_apart 2 copied 10 s.write_pos w o (omega arith)
      ∙ load-memcpy_apart w s.page s.write_pos s.scratch s.write_pos (page_size - s.write_pos) o
          (inl (omega arith))

  free_end-finish : free_end (finish s) ≡ s.write_pos
  unfolding finish copied
  free_end-finish =
      load-store_apart 2 (set_free_end copied s.write_pos) 12 0 2 10 (omega arith)
      ∙ load-store_self 2 copied 10 s.write_pos (omega arith)

  frag_bytes-finish : frag_bytes (finish s) ≡ 0
  unfolding finish copied
  frag_bytes-finish = load-store_self 2 (set_free_end copied s.write_pos) 12 0 (omega arith)

  finish-cell : (i : ℕ) → s.write_pos ≤ i → i < page_size → finish s i ≡ s.scratch i
  unfolding finish copied
  finish-cell i w u =
      store-outside 2 (set_free_end copied s.write_pos) 12 0 i (inr (omega arith))
      ∙ store-outside 2 copied 10 s.write_pos i (inr (omega arith))
      ∙ memcpy-inside s.page s.write_pos s.scratch s.write_pos (page_size - s.write_pos) i w
          (omega arith)
      ∙ ap s.scratch {y = i} (omega arith)

module _ (p : Page) (valid : IsValid p) where
  packing : Packing
  packing = pack (record { page = p; scratch = zeroes; write_pos = page_size }) (slot_count p) 0

  packed : Packed p (slot_count p) packing
  unfolding packing
  packed = packing-Packed p valid

  compact-finish : compact p ≡ finish packing
  unfolding compact finish packing
  compact-finish = refl

  position : packing.write_pos ≡ free_end p + frag_bytes p
  position = omega (arith, packed.position, valid.used)

  -- The field of slot `j` after the last writes, and before.
  slot-finish :
      (j : ℕ)
      → j < slot_count p
      → (slot_off (finish packing) j ≡ slot_off packing.page j)
        × (slot_len (finish packing) j ≡ slot_len packing.page j)
  slot-finish j u = (
    finish-field packing (omega (arith, position, valid)) (omega (arith, position, valid)) 2
        (20 + 4 * j) (inr (omega (arith, position, valid))),
    finish-field packing (omega (arith, position, valid)) (omega (arith, position, valid)) 2
        (20 + 4 * j + 2) (inr (omega (arith, position, valid))),
  )

  pub compact-Compacted : Compacted p (compact p)
  compact-Compacted =
      let low : 20 ≤ packing.write_pos = omega (arith, position) in
      let fits : packing.write_pos ≤ page_size = omega (arith, position) in
      let field = finish-field packing low fits in
      let end = free_end-finish packing low fits in
      let header = λ (o : ℕ) (u : o + 2 ≤ 20).
        load-congr 2 packing.page p o (λ i l v. packed.header i (omega arith)) in
      rw compact-finish (record {
        count = field 2 6 (inl (omega arith)) ∙ header 6 (omega arith);
        start = field 2 8 (inl (omega arith)) ∙ header 8 (omega arith);
        end = end ∙ position;
        frag = frag_bytes-finish packing low fits;
        dead = λ j u z. (slot-finish j u).0 ∙ packed.dead j u z;
        above = λ j u z. omega (arith, (slot-finish j u).0, (packed.done j u z).above, end);
        below =
            λ j u z. let c = packed.done j u z in omega (arith, slot-finish j u, c.below, c.kept);
        same = λ j u z.
            let c = packed.done j u z in
            let off = (slot-finish j u).0 in
            record {
              used = omega (arith, off, c.above);
              sized = (slot-finish j u).1 ∙ c.kept;
              same = λ k v. rw off (
                  finish-cell packing low fits (slot_off packing.page j + k)
                    (omega (arith, c.above)) (omega (arith, c.below))
                  ∙ c.copied k v);
            };
      })

  live_len-compact : (j : ℕ) → j < slot_count p → live_len (compact p) j ≡ live_len p j
  live_len-compact j u = elim (Bool-cases (slot_off p j == 0)) [
    | inl z ↦ ground (arith, compact-Compacted.dead j u (ground arith))
    | inr z ↦ let c = compact-Compacted.same j u (ground arith) in ground (arith, c.used, c.sized)
  ]

  -- Compacting a valid page leaves it valid.
  pub compact-IsValid : IsValid (compact p)
  compact-IsValid =
      let c = compact-Compacted in
      record {
        start = omega (arith, c.start, c.count, valid.start);
        room = omega (arith, c.start, c.end, valid.room);
        end = omega (arith, c.end, valid.used);
        cells = λ s u z.
            let u' : s < slot_count p = omega (arith, c.count) in
            let live : slot_off p s ≢ 0 = λ e. z (c.dead s u' e) in
            record { above = c.above s u' live; below = c.below s u' live };
        used = omega (
          arith,
          c.end,
          c.frag,
          valid.used,
          ap (live_bytes (compact p)) c.count,
          live_bytes-congr (compact p) p (slot_count p) live_len-compact,
        );
      }

  -- Compacting a valid page changes the record under no slot id.
  pub record_at-compact : (slot : ℕ) → record_at (compact p) slot ≡ record_at p slot
  record_at-compact slot =
      let c = compact-Compacted in
      elim (Bool-cases (ltb slot (slot_count p))) [
        | inl b ↦
            record_at-congr p (compact p) slot c.count (c.dead slot (ground arith)) (c.same slot)
        | inr b ↦
            rw (record_at-beyond p slot (ground arith))
              (record_at-beyond (compact p) slot (ground (arith, c.count)))
      ]
