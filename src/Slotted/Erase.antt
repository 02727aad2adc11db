-- ===== src/Slotted/Erase.antt =====
-- `erase`: the record is gone, every other slot id keeps its record, and the page stays valid.
use native.Mathlib.Nat.{le-suc_iff}
use labdb.Prelude.{
  ℕ, zero, suc, ◌+◌, ◌-◌, ◌*◌, ◌≤◌, ◌<◌, ◌≡◌, ◌≢◌, ◌⊎◌, inl, inr, refl, arith, ◌∙◌, ap, sym,
  Bool-cases, ◌==◌, if◌then◌else◌, none, true, false, ltb, ==_refl, ==→eq, lt-suc_cases, ltb→lt,
  ltb→le, ==→ne,
}
use labdb.Common.{load}
use labdb.Common.Fields.{load-congr, store-outside, load-store_apart, load-store_self}
use labdb.Page.{
  Page, slot_count, free_start, free_end, frag_bytes, set_slot_count, set_free_start,
  set_frag_bytes,
}
use labdb.Slotted.{slot_off, slot_len, slot_pos, slot_size, set_slot, live, trim, erase}
use labdb.Slotted.Invariant.{
  live_bytes, IsValid, set_slot-outside, slot_off-set_slot, set_slot-field,
}
use labdb.Slotted.Records.{
  record_at, record_at-dead, record_at-beyond, record_at-SameCell, SameCell,
}
use labdb.Slotted.Placed.{live_bytes-update, live_len-dead, live_len-live}

-- `q` is `p` without the dead slots at the end of its first `n` slots.
record Trimmed (p q : Page) (n : ℕ) : Type 0 where
  count : slot_count q ≤ n
  start : free_start q + slot_size * n ≡ free_start p + slot_size * slot_count q
  dead : (j : ℕ) → slot_count q ≤ j → j < n → slot_off p j ≡ 0
  body : (i : ℕ) → 10 ≤ i → q i ≡ p i

trim-Trimmed :
    (p : Page) (n : ℕ)
    → slot_size * n ≤ free_start p
    → free_start p < 65536
    → Trimmed p (trim p n) n
unfolding trim
trim-Trimmed p zero h u =
    let count : slot_count (set_slot_count p 0) ≡ 0 = load-store_self 2 p 6 0 (omega arith) in
    record {
      count = omega (arith, count);
      start = omega (arith, count, load-store_apart 2 p 6 0 2 8 (omega arith));
      dead = λ j l v. absurd (omega arith);
      body = λ i l. store-outside 2 p 6 0 i (omega arith);
    }
trim-Trimmed p (suc n) h u = elim (Bool-cases (slot_off p n == 0)) [
  | inr z ↦
      let count : slot_count (set_slot_count p (suc n)) ≡ suc n =
        load-store_self 2 p 6 (suc n) (omega arith) in
      rw z (record {
        count = omega (arith, count);
        start = omega (arith, count, load-store_apart 2 p 6 (suc n) 2 8 (omega arith));
        dead = λ j l v. absurd (omega (arith, count));
        body = λ i l. store-outside 2 p 6 (suc n) i (omega arith);
      })
  | inl z ↦
      let p' = set_free_start p (free_start p - slot_size) in
      let start : free_start p' ≡ free_start p - slot_size =
        load-store_self 2 p 8 (free_start p - slot_size) (omega arith) in
      let body =
        λ (i : ℕ) (l : 10 ≤ i). store-outside 2 p 8 (free_start p - slot_size) i (omega arith) in
      let t = trim-Trimmed p' n (omega (arith, start)) (omega (arith, start)) in
      rw z (record {
        count = omega (arith, t.count);
        start = omega (arith, t.start, start);
        dead = λ j l v. elim (lt-suc_cases v) [
          | inl v' ↦
              sym (load-congr 2 p' p (slot_pos j) (λ i a b. body i (omega arith))) ∙ t.dead j l v'
          | inr e ↦ rw e (==→eq (slot_off p n) 0 z)
        ];
        body = λ i l. t.body i l ∙ body i l;
      })
]

-- Dead slots at the end add nothing.
live_bytes-tail :
    (p : Page) (m n : ℕ)
    → m ≤ n
    → ((j : ℕ) → m ≤ j → j < n → slot_off p j ≡ 0)
    → live_bytes p n ≡ live_bytes p m
unfolding live_bytes
live_bytes-tail p m zero h dead = let e : m ≡ 0 = omega arith in rw e
live_bytes-tail p m (suc n) h dead = elim (le-suc_iff.0 h) [
  | inr e ↦ rw e
  | inl l ↦ omega (
    arith,
    live_len-dead p n (dead n l (omega arith)),
    live_bytes-tail p m n l (λ j a b. dead j a (omega arith)),
  )
]

module _ (p : Page) (valid : IsValid p) (s : ℕ) (u : s < slot_count p)
    (used : slot_off p s ≢ 0) where
  -- the page once the slot is dead, before its directory is trimmed
  freed : Page
  freed = set_slot (set_frag_bytes p (frag_bytes p + slot_len p s)) s 0 0

  freed-field :
      (w o : ℕ)
      → (o + w ≤ 12) ⊎ ((14 ≤ o) × ((o + w ≤ slot_pos s) ⊎ (slot_pos s + 4 ≤ o)))
      → load w freed o ≡ load w p o
  unfolding freed
  freed-field w o h =
      set_slot-field (set_frag_bytes p (frag_bytes p + slot_len p s)) s 0 0 w o (omega arith)
      ∙ load-store_apart 2 p 12 (frag_bytes p + slot_len p s) w o (omega arith)

  len-le : slot_len p s + frag_bytes p ≤ 8192
  len-le = omega (arith, valid.used, (valid.cells s u used).below)

  freed-frag : frag_bytes freed ≡ frag_bytes p + slot_len p s
  unfolding freed
  freed-frag =
      set_slot-field (set_frag_bytes p (frag_bytes p + slot_len p s)) s 0 0 2 12 (inl (omega arith))
      ∙ load-store_self 2 p 12 (frag_bytes p + slot_len p s) (omega (arith, len-le))

  freed-slot : slot_off freed s ≡ 0
  unfolding freed
  freed-slot =
      slot_off-set_slot (set_frag_bytes p (frag_bytes p + slot_len p s)) s 0 0 (omega arith)

  freed-outside : (i : ℕ) → 14 ≤ i → slot_pos s + 4 ≤ i → freed i ≡ p i
  unfolding freed
  freed-outside i l h =
      set_slot-outside (set_frag_bytes p (frag_bytes p + slot_len p s)) s 0 0 i (inr (omega arith))
      ∙ store-outside 2 p 12 (frag_bytes p + slot_len p s) i (inr (omega arith))

  erased : Page
  erased = trim freed (slot_count p)

  trimmed : Trimmed freed erased (slot_count p)
  unfolding erased
  trimmed =
      trim-Trimmed freed (slot_count p)
        (omega (arith, valid.start, freed-field 2 8 (inl (omega arith))))
        (omega (arith, valid, freed-field 2 8 (inl (omega arith))))

  erased-field : (w o : ℕ) → 10 ≤ o → load w erased o ≡ load w freed o
  erased-field w o l = load-congr w erased freed o (λ i a b. trimmed.body i (omega arith))

  erased-end : free_end erased ≡ free_end p
  erased-end = erased-field 2 10 (omega arith) ∙ freed-field 2 10 (inl (omega arith))

  erased-frag : frag_bytes erased ≡ frag_bytes p + slot_len p s
  erased-frag = erased-field 2 12 (omega arith) ∙ freed-frag

  erased-slot : slot_off erased s ≡ 0
  erased-slot = erased-field 2 (slot_pos s) (omega arith) ∙ freed-slot

  erased-off : (j : ℕ) → j ≢ s → slot_off erased j ≡ slot_off p j
  erased-off j ne =
      erased-field 2 (slot_pos j) (omega arith) ∙ freed-field 2 (slot_pos j) (inr (omega arith))

  erased-len : (j : ℕ) → j ≢ s → slot_len erased j ≡ slot_len p j
  erased-len j ne =
      erased-field 2 (slot_pos j + 2) (omega arith)
      ∙ freed-field 2 (slot_pos j + 2) (inr (omega arith))

  erased-start : free_start erased ≡ 20 + 4 * slot_count erased
  erased-start = omega (arith, trimmed.start, freed-field 2 8 (inl (omega arith)), valid.start)

  erased-dead : (j : ℕ) → slot_count erased ≤ j → j < slot_count p → slot_off erased j ≡ 0
  erased-dead j l v = erased-field 2 (slot_pos j) (omega arith) ∙ trimmed.dead j l v

  erased-live_bytes :
      live_bytes erased (slot_count erased) + slot_len p s ≡ live_bytes p (slot_count p)
  erased-live_bytes = omega (
    arith,
    live_bytes-tail erased (slot_count erased) (slot_count p) trimmed.count erased-dead,
    live_bytes-update p erased s (slot_count p) u (λ j v ne. rw (erased-off j ne, erased-len j ne)),
    live_len-dead erased s erased-slot,
    live_len-live p s used,
  )

  erased-IsValid : IsValid erased
  erased-IsValid = record {
    start = erased-start;
    room = omega (arith, erased-start, erased-end, trimmed.count, valid.start, valid.room);
    end = omega (arith, erased-end, valid.end);
    cells = λ j v z.
        let ne : j ≢ s = λ e. z (ap (slot_off erased) e ∙ erased-slot) in
        let fits = valid.cells j (omega (arith, trimmed.count)) (λ e. z (erased-off j ne ∙ e)) in
        record {
          above = omega (arith, erased-end, erased-off j ne, fits.above);
          below = omega (arith, erased-off j ne, erased-len j ne, fits.below);
        };
    used = omega (arith, erased-end, erased-frag, erased-live_bytes, valid.used);
  }

  erased-SameCell : (j : ℕ) → j < slot_count p → j ≢ s → slot_off p j ≢ 0 → SameCell p erased j
  erased-SameCell j v ne z =
      let fits = valid.cells j v z in
      let off = erased-off j ne in
      record {
        used = λ e. z (sym off ∙ e);
        sized = erased-len j ne;
        same = λ k w. rw off (
            trimmed.body (slot_off p j + k) (omega (arith, fits.above, valid))
            ∙ freed-outside (slot_off p j + k) (omega (arith, fits.above, valid))
                (omega (arith, fits.above, valid)));
      }

  erased-record_at : (j : ℕ) → j ≢ s → record_at erased j ≡ record_at p j
  erased-record_at j ne = elim (Bool-cases (ltb j (slot_count p))) [
    | inr b ↦
        rw (record_at-beyond p j (ltb→le j (slot_count p) b))
          (record_at-beyond erased j (omega (arith, trimmed.count, ltb→le j (slot_count p) b)))
    | inl b ↦
        let v = ltb→lt j (slot_count p) b in
        elim (Bool-cases (slot_off p j == 0)) [
          | inl z ↦
              let z' = ==→eq (slot_off p j) 0 z in
              rw (record_at-dead p j z') (record_at-dead erased j (erased-off j ne ∙ z'))
          | inr z ↦
              let z' = ==→ne (slot_off p j) 0 z in
              elim (Bool-cases (ltb j (slot_count erased))) [
                | inl w ↦
                    record_at-SameCell p erased j z' v (ltb→lt j (slot_count erased) w)
                      (erased-SameCell j v ne z')
                | inr w ↦
                    absurd (
                      z' (sym (erased-off j ne) ∙ erased-dead j (ltb→le j (slot_count erased) w) v))
              ]
        ]
  ]

-- On a valid page, `erase` of a live slot succeeds: the page stays valid, the slot id holds
-- nothing, and every other slot id holds what it held.
pub erase-live :
    (p : Page) (s : ℕ)
    → IsValid p
    → live p s ≡ true
    → ((erase p s).1 ≡ true)
      × IsValid (erase p s).0
      × ((j : ℕ) → record_at (erase p s).0 j ≡ (if j == s then none else record_at p j))
unfolding erase erased freed
erase-live p s valid h =
    let u : s < slot_count p = ground arith in
    let z : slot_off p s ≢ 0 = ground arith in
    rw h (
      refl,
      erased-IsValid p valid s u z,
      λ j. elim (Bool-cases (j == s)) [
        | inl e ↦
            let e' : j ≡ s = ==→eq j s e in
            rw (e', ==_refl s) (record_at-dead (erased p valid s u z) s (erased-slot p valid s u z))
        | inr e ↦ rw e (erased-record_at p valid s u z j (==→ne j s e))
      ],
    )

-- A slot id that is not live holds nothing, and to erase it changes nothing.
pub erase-dead :
    (p : Page) (s : ℕ) → live p s ≡ false → (erase p s ≡ (p, false)) × (record_at p s ≡ none)
unfolding erase record_at
erase-dead p s h = (rw h, rw h)
