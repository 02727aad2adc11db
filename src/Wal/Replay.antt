-- ===== src/Wal/Replay.antt =====
-- The scan of `recover` as a replay of the entries of the log, and its fuel.
use native.Mathlib.Nat.{add-zero}
use labdb.Prelude.{
  ℕ, zero, suc, ◌+◌, ◌≤◌, ◌<◌, ◌≡◌, ◌≢◌, inl, inr, refl, arith, ◌∙◌, ap, Bool, true, false, none,
  some, Option-cases,
}
use labdb.Common.{load_u32}
use labdb.Io.{File}
use labdb.Wal.{
  Wal, scan_fuel, recover, Scan, Stop, scan_start, take_frame, scan, slot_offset, is_commit,
}
use labdb.Wal.Frames.{entry_at}

-- The state of the loop before the slot `n` of a log with these entries.
unfoldable pub replay : (ℕ → ℕ × Bool) → ℕ → Scan
replay entries zero = scan_start
replay entries (suc n) = take_frame (replay entries n) n (entries n).0 (entries n).1

module _ (f : File) (generation db_id : ℕ) where
  -- A round over a slot that holds an entry goes on, any other ends the loop with the maps as they are.
  scan-some :
      (fuel slot : ℕ) (r : Scan) (id : ℕ) (c : Bool)
      → entry_at f generation db_id slot ≡ some (id, c)
      → scan (suc fuel) f generation db_id slot r
        ≡ scan fuel f generation db_id (slot + 1) (take_frame r slot id c)
  unfolding scan entry_at
  scan-some fuel slot r id c h = ground arith

  scan-none :
      (fuel slot : ℕ) (r : Scan)
      → entry_at f generation db_id slot ≡ none
      → (why : Stop) × (scan (suc fuel) f generation db_id slot r ≡ record r { stopped = why })
  unfolding scan entry_at
  scan-none fuel slot r h = ((scan (suc fuel) f generation db_id slot r).stopped, ground arith)

  -- The loop over the slots of a log replays its entries.
  pub scan-replay :
      (entries : ℕ → ℕ × Bool) (d k n fuel : ℕ)
      → n ≡ d + fuel
      → ((j : ℕ) → k ≤ j → j < k + d → entry_at f generation db_id j ≡ some (entries j))
      → scan n f generation db_id k (replay entries k)
        ≡ scan fuel f generation db_id (k + d) (replay entries (k + d))
  unfolding replay
  scan-replay entries zero k n fuel e h = let n' : n ≡ fuel = omega arith in rw (n', add-zero)
  scan-replay entries (suc d) k zero fuel e h = absurd (omega arith)
  scan-replay entries (suc d) k (suc n) fuel e h =
      scan-some n k (replay entries k) (entries k).0 (entries k).1 (h k (omega arith) (omega arith))
      ∙ ap (λ j. scan n f generation db_id j (replay entries (suc k))) {y = suc k} (omega arith)
      ∙ scan-replay entries d (suc k) n fuel (omega arith)
          (λ j a b. h j (omega arith) (omega arith))
      ∙ ap (λ j. scan fuel f generation db_id j (replay entries j)) {y = k + suc d} (omega arith)

  -- Where no more commit follows, the loop changes neither the committed map nor its end.
  pub scan-quiet :
      (fuel slot : ℕ) (r : Scan)
      → ((j id : ℕ) → slot ≤ j → entry_at f generation db_id j ≢ some (id, true))
      → ((scan fuel f generation db_id slot r).committed ≡ r.committed)
        × ((scan fuel f generation db_id slot r).commit_end ≡ r.commit_end)
  unfolding take_frame scan
  scan-quiet zero slot r h = (refl, refl)
  scan-quiet (suc fuel) slot r h = elim (Option-cases (entry_at f generation db_id slot)) [
    | inl e ↦ rw (scan-none fuel slot r e).1 (refl, refl)
    | inr ((id, true), e) ↦ absurd (h slot id (omega arith) e)
    | inr ((id, false), e) ↦
        rw (scan-some fuel slot r id false e)
          (scan-quiet fuel (slot + 1) (take_frame r slot id false) (λ j i l. h j i (omega arith)))
  ]

  scan-enough :
      (n m slot : ℕ) (r : Scan)
      → f.size < slot_offset (slot + n)
      → f.size < slot_offset (slot + m)
      → scan n f generation db_id slot r ≡ scan m f generation db_id slot r
  unfolding scan
  scan-enough zero zero slot r a b = refl
  scan-enough zero (suc m) slot r a b = ground arith
  scan-enough (suc n) zero slot r a b = ground arith
  scan-enough (suc n) (suc m) slot r a b =
      let buf = λ (i : ℕ). f.bytes (slot_offset slot + i) in
      let r' = take_frame r slot (load_u32 buf 0) (is_commit (load_u32 buf 4)) in
      rw (scan-enough n m (slot + 1) r' (omega arith) (omega arith))

-- On a log with a header, `recover` gives what the loop gives on `scan_fuel` rounds or on any more of
-- them: its state and its report do not come from a loop that was stopped for want of fuel.
pub recover-scan :
    (w : Wal) (m : ℕ)
    → w.header_ok ≡ true
    → scan_fuel w.file ≤ m
    → let r = scan m w.file w.generation w.db_id 0 scan_start in
      ((recover w).0.committed ≡ r.committed)
      × ((recover w).0.end ≡ r.commit_end)
      × ((recover w).1.frames ≡ r.frames)
      × ((recover w).1.transactions ≡ r.transactions)
      × ((recover w).1.stopped ≡ r.stopped)
unfolding recover
recover-scan w m h le =
    let e =
      scan-enough w.file w.generation w.db_id (scan_fuel w.file) m 0 scan_start (omega arith)
        (omega arith) in
    rw (h, e) (refl, refl, refl, refl, refl)
