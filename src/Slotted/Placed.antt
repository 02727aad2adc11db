-- ===== src/Slotted/Placed.antt =====
-- What a page is once `insert` has placed a record: still valid, the record under its slot.
use native.Mathlib.Numerals.{add-one}
use labdb.Prelude.{
  ℕ, zero, suc, ◌+◌, ◌≤◌, ◌<◌, ◌≡◌, ◌≢◌, ◌⊎◌, inl, inr, arith, ◌∙◌, ap, sym, ==_ne, Bool-cases,
  ◌==◌, Option, none, some,
}
use labdb.Page.{Page, slot_count, free_start, free_end}
use labdb.Slotted.{Span, slot_off, slot_len, slot_cost}
use labdb.Slotted.Invariant.{live_bytes, live_bytes-congr, IsValid, CellFits, live_len}
use labdb.Slotted.Records.{
  record_at, record_at-SameCell, record_at-live, record_at-dead, record_at-beyond, SameCell,
  contents, bytes-congr,
}
use labdb.Slotted.Place.{Slot, chosen, Placed}

-- One slot differs.
pub live_bytes-update :
    (p q : Page) (s n : ℕ)
    → s < n
    → ((j : ℕ) → j < n → j ≢ s → live_len q j ≡ live_len p j)
    → live_bytes q n + live_len p s ≡ live_bytes p n + live_len q s
unfolding live_bytes
live_bytes-update p q s zero u h = absurd (omega arith)
live_bytes-update p q s (suc n) u h = elim (Bool-cases (s == n)) [
  | inl e ↦
      let e' : s ≡ n = ground arith in
      rw e' (omega (arith, live_bytes-congr q p n (λ j v. h j (omega arith) (omega arith))))
  | inr e ↦ omega (
    arith,
    live_bytes-update p q s n (ground arith) (λ j v ne. h j (omega arith) ne),
    h n (omega arith) (ground arith),
  )
]

module _ (p q : Page) (reuse : Option ℕ) (rec : Span) (valid : IsValid p) (slot : Slot p reuse)
    (nonempty : 0 < rec.len) (room : free_start p + rec.len + slot_cost reuse ≤ free_end p)
    (placed : Placed p q reuse rec) where
  Placed-live_len : (j : ℕ) → j < slot_count p → j ≢ chosen p reuse → live_len q j ≡ live_len p j
  Placed-live_len j u ne = rw (placed.other_off j u ne, placed.other_len j u ne)

  Placed-live_len_self : live_len q (chosen p reuse) ≡ rec.len
  Placed-live_len_self =
      rw
        (==_ne (slot_off q (chosen p reuse)) 0 (omega (arith, placed.off, placed.end, valid.start)))
        placed.len

  Placed-CellFits :
      (j : ℕ) → j < slot_count p → j ≢ chosen p reuse → slot_off q j ≢ 0 → CellFits q j
  Placed-CellFits j u ne z =
      let off = placed.other_off j u ne in
      let fits = valid.cells j u (λ e. z (off ∙ e)) in
      record {
        above = omega (arith, off, fits.above, placed.end);
        below = omega (arith, off, placed.other_len j u ne, fits.below);
      }

  Placed-CellFits_self : CellFits q (chosen p reuse)
  Placed-CellFits_self = record {
    above = omega (arith, placed.off);
    below = omega (arith, placed.off, placed.len, placed.end, valid.end);
  }

  Placed-SameCell :
      (j : ℕ) → j < slot_count p → j ≢ chosen p reuse → slot_off p j ≢ 0 → SameCell p q j
  Placed-SameCell j u ne z =
      let off = placed.other_off j u ne in
      let fits = valid.cells j u z in
      record {
        used = λ e. z (sym off ∙ e);
        sized = placed.other_len j u ne;
        same = λ k v. rw off (placed.cells (slot_off p j + k) (omega (arith, fits.above)));
      }

  pub Placed-record_at :
      (j : ℕ)
      → (j < slot_count p) ⊎ ((slot_count p ≤ j) × (slot_count q ≤ j))
      → (slot_count p ≤ slot_count q)
      → j ≢ chosen p reuse
      → record_at q j ≡ record_at p j
  Placed-record_at j (inr (u, v)) more ne = rw (record_at-beyond p j u) (record_at-beyond q j v)
  Placed-record_at j (inl u) more ne = elim (Bool-cases (slot_off p j == 0)) [
    | inl z ↦
        rw (record_at-dead p j (ground arith))
          (record_at-dead q j (placed.other_off j u ne ∙ ground arith))
    | inr z ↦
        record_at-SameCell p q j (ground arith) u (omega arith)
          (Placed-SameCell j u ne (ground arith))
  ]

  pub Placed-record_at_self :
      chosen p reuse < slot_count q → record_at q (chosen p reuse) ≡ some (contents rec)
  unfolding contents
  Placed-record_at_self u =
      record_at-live q (chosen p reuse) u (omega (arith, placed.off, placed.end, valid.start))
      ∙ rw (placed.off, placed.len)
          (ap some (bytes-congr q rec.buf (free_end q) rec.at rec.len placed.copied))

pub live_len-live : (p : Page) (s : ℕ) → slot_off p s ≢ 0 → live_len p s ≡ slot_len p s
live_len-live p s h = rw (==_ne (slot_off p s) 0 h)

pub live_len-dead : (p : Page) (s : ℕ) → slot_off p s ≡ 0 → live_len p s ≡ 0
live_len-dead p s e = rw e

live_bytes-add_one : (p : Page) (n : ℕ) → live_bytes p (n + 1) ≡ live_bytes p n + live_len p n
unfolding live_bytes
live_bytes-add_one p n = rw add-one

pub Placed-IsValid :
    (p q : Page) (reuse : Option ℕ) (rec : Span) (valid : IsValid p) (slot : Slot p reuse)
    (nonempty : 0 < rec.len) (room : free_start p + rec.len + slot_cost reuse ≤ free_end p)
    (placed : Placed p q reuse rec)
    → IsValid q
Placed-IsValid p q none rec valid slot nonempty room placed =
    let n = slot_count p in
    record {
      start = omega (arith, placed.start, placed.count, valid.start);
      room = omega (arith, placed.start, placed.end);
      end = omega (arith, placed.end, valid.end);
      cells = λ j u z. elim (Bool-cases (j == n)) [
        | inl e ↦
            let e' : j ≡ n = ground arith in
            rw e' (Placed-CellFits_self p q none rec valid tt nonempty room placed)
        | inr e ↦
            Placed-CellFits p q none rec valid tt nonempty room placed j
              (ground (arith, placed.count)) (ground arith) z
      ];
      used = omega (
        arith,
        placed.end,
        placed.frag,
        valid.used,
        ap (live_bytes q) placed.count,
        live_bytes-add_one q n,
        Placed-live_len_self p q none rec valid tt nonempty room placed,
        live_bytes-congr q p n
            (λ j u. Placed-live_len p q none rec valid tt nonempty room placed j u (omega arith)),
      );
    }
Placed-IsValid p q (some s) rec valid slot nonempty room placed =
    let n = slot_count p in
    record {
      start = omega (arith, placed.start, placed.count, valid.start);
      room = omega (arith, placed.start, placed.end);
      end = omega (arith, placed.end, valid.end);
      cells = λ j u z. elim (Bool-cases (j == s)) [
        | inl e ↦
            let e' : j ≡ s = ground arith in
            rw e' (Placed-CellFits_self p q (some s) rec valid slot nonempty room placed)
        | inr e ↦
            Placed-CellFits p q (some s) rec valid slot nonempty room placed j
              (omega (arith, placed.count)) (ground arith) z
      ];
      used = omega (
        arith,
        placed.end,
        placed.frag,
        valid.used,
        ap (live_bytes q) placed.count,
        live_len-dead p s slot.1,
        Placed-live_len_self p q (some s) rec valid slot nonempty room placed,
        live_bytes-update p q s n slot.0
            (Placed-live_len p q (some s) rec valid slot nonempty room placed),
      );
    }
