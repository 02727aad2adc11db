-- ===== src/Slotted/Compact.antt =====
-- `compact` keeps every record under its slot, and turns all dead bytes into free space.
use native.Mathlib.Numerals.{add-one}
use labdb.Prelude.{
  lt-suc_cases, ap, ℕ, zero, suc, ◌+◌, ◌-◌, ◌≤◌, ◌<◌, ◌≡◌, ◌≢◌, inl, inr, refl, arith, ◌∙◌, ==_ne,
  sym,
}
use labdb.Common.{zeroes, memcpy}
use labdb.Common.Fields.{memcpy-inside, memcpy-outside}
use labdb.Page.{Page, page_size, slot_count, free_start, free_end}
use labdb.Slotted.{slot_off, slot_len, set_slot, Packing, pack_slot, pack}
use labdb.Slotted.Invariant.{
  live_bytes, live_bytes_mono, IsValid, set_slot-outside, slot_off-set_slot, slot_len-set_slot,
  slot_off-set_slot_ne, slot_len-set_slot_ne,
}

-- Slot `j` has been packed: its cell lies in `scratch`, and the slot points there.
pub record CellPacked (p : Page) (s : Packing) (j : ℕ) : Type 0 where
  pub above : s.write_pos ≤ slot_off s.page j
  pub below : slot_off s.page j + slot_len p j ≤ page_size
  pub kept : slot_len s.page j ≡ slot_len p j
  pub copied : (k : ℕ) → k < slot_len p j → s.scratch (slot_off s.page j + k) ≡ p (slot_off p j + k)

-- The loop of `compact` over the valid page `p`, before its round `i`.
pub record Packed (p : Page) (i : ℕ) (s : Packing) : Type 0 where
  pub position : s.write_pos + live_bytes p i ≡ page_size
  pub header : (k : ℕ) → k < 20 → s.page k ≡ p k
  pub body : (k : ℕ) → free_start p ≤ k → s.page k ≡ p k
  pub todo_off : (j : ℕ) → i ≤ j → slot_off s.page j ≡ slot_off p j
  pub todo_len : (j : ℕ) → i ≤ j → slot_len s.page j ≡ slot_len p j
  pub dead : (j : ℕ) → j < i → slot_off p j ≡ 0 → slot_off s.page j ≡ 0
  pub done : (j : ℕ) → j < i → slot_off p j ≢ 0 → CellPacked p s j

module _ (p : Page) (i : ℕ) (s : Packing) (h : Packed p i s) where
  pack_slot-Packed_dead : slot_off p i ≡ 0 → Packed p (suc i) (pack_slot s i)
  unfolding pack_slot live_bytes
  pack_slot-Packed_dead e =
      let e' : slot_off s.page i ≡ 0 = h.todo_off i (omega arith) ∙ e in
      rw e' (record {
        position = ground (arith, h.position);
        header = h.header;
        body = h.body;
        todo_off = λ j l. h.todo_off j (omega arith);
        todo_len = λ j l. h.todo_len j (omega arith);
        dead = λ j l z. elim (lt-suc_cases l) [ inl l' ↦ h.dead j l' z | inr q ↦ rw q e' ];
        done = λ j l z. elim (lt-suc_cases l) [
          | inl l' ↦ h.done j l' z
          | inr q ↦ absurd (z (ap (slot_off p) q ∙ e))
        ];
      })

  module _ (valid : IsValid p) (u : i < slot_count p) (e : slot_off p i ≢ 0) where
    live_bytes-suc : live_bytes p (suc i) ≡ live_bytes p i + slot_len p i
    unfolding live_bytes
    live_bytes-suc = rw (==_ne (slot_off p i) 0 e)

    live_bytes-le : free_end p + live_bytes p i + slot_len p i ≤ page_size
    live_bytes-le =
        omega (arith, live_bytes-suc, live_bytes_mono p (suc i) (slot_count p) u, valid.used)

    -- where the cell of slot `i` goes
    target : ℕ
    target = s.write_pos - slot_len p i

    target_bounds :
        (free_end p ≤ target) × (target + slot_len p i ≡ s.write_pos) × (s.write_pos ≤ page_size)
    unfolding target
    target_bounds = omega (arith, live_bytes-le, h.position)

    packed_slot : Packing
    unfolding target
    packed_slot = record {
      page = set_slot s.page i target (slot_len p i);
      scratch = memcpy s.scratch target s.page (slot_off p i) (slot_len p i);
      write_pos = target;
    }

    pack_slot-eq : pack_slot s i ≡ packed_slot
    unfolding pack_slot packed_slot
    pack_slot-eq =
        rw (h.todo_off i (omega arith), h.todo_len i (omega arith), ==_ne (slot_off p i) 0 e)

    earlier : (j : ℕ) → j < i → slot_off p j ≢ 0 → CellPacked p packed_slot j
    unfolding packed_slot
    earlier j l z =
        let c = h.done j l z in
        let off : slot_off packed_slot.page j ≡ slot_off s.page j =
          slot_off-set_slot_ne s.page i target (slot_len p i) j (omega arith) in
        record {
          above = omega (arith, off, c.above, target_bounds);
          below = omega (arith, off, c.below);
          kept = slot_len-set_slot_ne s.page i target (slot_len p i) j (omega arith) ∙ c.kept;
          copied = λ k v. rw off (
              memcpy-outside s.scratch target s.page (slot_off p i) (slot_len p i)
                (slot_off s.page j + k) (inr (omega (arith, c.above, target_bounds)))
              ∙ c.copied k v);
        }

    this : CellPacked p packed_slot i
    unfolding packed_slot
    this =
        let L = slot_len p i in
        let fits = valid.cells i u e in
        let off : slot_off packed_slot.page i ≡ target =
          slot_off-set_slot s.page i target L (omega (arith, target_bounds)) in
        record {
          above = omega (arith, off);
          below = omega (arith, off, target_bounds);
          kept = slot_len-set_slot s.page i target L (omega (arith, target_bounds));
          copied = λ k v. rw off (
              memcpy-inside s.scratch target s.page (slot_off p i) L (target + k) (omega arith)
                (omega arith)
              ∙ ap s.page {y = slot_off p i + k} (omega arith)
              ∙ h.body (slot_off p i + k) (omega (arith, fits.above, valid.room)));
        }

  pack_slot-Packed_live :
      IsValid p → i < slot_count p → slot_off p i ≢ 0 → Packed p (suc i) (pack_slot s i)
  unfolding packed_slot
  pack_slot-Packed_live valid u e =
      let t = target valid u e in
      let L = slot_len p i in
      rw (pack_slot-eq valid u e) (record {
        position = omega (arith, h.position, live_bytes-suc valid u e, target_bounds valid u e);
        header = λ k v. set_slot-outside s.page i t L k (inl (omega arith)) ∙ h.header k v;
        body =
            λ k v. set_slot-outside s.page i t L k (inr (omega (arith, valid.start))) ∙ h.body k v;
        todo_off =
            λ j v. slot_off-set_slot_ne s.page i t L j (omega arith) ∙ h.todo_off j (omega arith);
        todo_len =
            λ j v. slot_len-set_slot_ne s.page i t L j (omega arith) ∙ h.todo_len j (omega arith);
        dead = λ j v z. elim (lt-suc_cases v) [
          | inl l ↦ slot_off-set_slot_ne s.page i t L j (omega arith) ∙ h.dead j l z
          | inr q ↦ absurd (e (ap (slot_off p) (sym q) ∙ z))
        ];
        done = λ j v z. elim (lt-suc_cases v) [
          | inl l ↦ earlier valid u e j l z
          | inr q ↦ rw q (this valid u e)
        ];
      })

module _ (p : Page) (valid : IsValid p) where
  pack-Packed :
      (left i : ℕ) (s : Packing)
      → i + left ≡ slot_count p
      → Packed p i s
      → Packed p (slot_count p) (pack s left i)
  unfolding pack
  pack-Packed zero i s q h = let e : i ≡ slot_count p = omega arith in rw e at h
  pack-Packed (suc left) i s q h =
      pack-Packed left (i + 1) (pack_slot s i) (omega arith) (rw add-one (step (slot_off p i) refl))
    where
      step : (o : ℕ) → slot_off p i ≡ o → Packed p (suc i) (pack_slot s i)
      step zero e = pack_slot-Packed_dead p i s h e
      step (suc o) e = pack_slot-Packed_live p i s h valid (omega arith) (omega arith)

  start-Packed : Packed p 0 (record { page = p; scratch = zeroes; write_pos = page_size })
  unfolding live_bytes
  start-Packed = record {
    position = refl;
    header = λ k v. refl;
    body = λ k v. refl;
    todo_off = λ j v. refl;
    todo_len = λ j v. refl;
    dead = λ j v. absurd (omega arith);
    done = λ j v. absurd (omega arith);
  }

  pub packing-Packed :
      Packed p
        (slot_count p)
        (pack (record { page = p; scratch = zeroes; write_pos = page_size }) (slot_count p) 0)
  packing-Packed = pack-Packed (slot_count p) 0 _ (omega arith) start-Packed
