-- ===== src/Wal/Log.antt =====
-- The invariant of the log, and that its operations keep it.
use native.Mathlib.Numerals.{add-one}
use labdb.Common.Fields.{load-congr}
use labdb.Checksum.Congruence.{digest-congr}
use labdb.Prelude.{
  ℕ, zero, suc, ◌+◌, ◌^◌, ◌≤◌, ◌<◌, ◌≡◌, ◌≢◌, ◌⊎◌, inl, inr, refl, arith, ◌∙◌, ap, sym, Bool, true,
  false, none, some, [], if◌then◌else◌, ◌==◌, ltb, Bool-cases, ==_refl, ==→eq, ltb→lt, ltb→le,
  ==→ne, ==_ne, lt-add-one_cases, ap₂,
}
use labdb.Common.{load_u64}
use labdb.Page.{Page}
use labdb.Io.{File, pwrite_exact}
use labdb.Wal.{
  Wal, Scan, take_frame, frame_size, frame_image, slot_offset, header_matches, ensure_header,
  write_frame, write, commit, rollback, is_commit,
}
use labdb.Wal.Slots.{
  SlotMap, find, assign, assign_all, Unique, Absent, assign_self, assign_all-assign, assign-Unique,
  find-assign, find-assign_all,
}
use labdb.Wal.Frames.{
  entry_at, entry_at-image, entry_at-written, written-inside, size-written, written-header,
}
use labdb.Wal.Replay.{replay}

-- The maps of a replay, without its counts.
abbrev pub replay_maps : (ℕ → ℕ × Bool) → ℕ → SlotMap × SlotMap × ℕ
replay_maps entries n = let r = replay entries n in (r.pending, r.committed, r.commit_end)

-- The log's slots below `end` hold its entries: up to `commit_end` decided transactions, then the
-- pending frames, none of them a commit. The maps are what a replay gives, and no slot from `end` on
-- holds a commit of this generation.
pub record LogInv (entries : ℕ → ℕ × Bool) (w : Wal) : Type 0 where
  pub word : w.generation < 2 ^ 64
  pub order : w.commit_end ≤ w.end
  pub whole : (k : ℕ) → k < w.end → slot_offset k + frame_size ≤ w.file.size
  pub frames : (k : ℕ) → k < w.end → entry_at w.file w.generation w.db_id k ≡ some (entries k)
  pub quiet : (k id : ℕ) → w.end ≤ k → entry_at w.file w.generation w.db_id k ≢ some (id, true)
  pub undecided : (k : ℕ) → w.commit_end ≤ k → k < w.end → (entries k).1 ≡ false
  pub decided : replay_maps entries w.commit_end ≡ ([], w.committed, w.commit_end)
  pub pending : replay_maps entries w.end ≡ (w.pending, w.committed, w.commit_end)
  pub slots :
      (id s : ℕ)
      → find id w.pending ≡ some s
      → (w.commit_end ≤ s) × (s < w.end) × ((entries s).0 ≡ id)
  pub committed_slots : (id s : ℕ) → find id w.committed ≡ some s → s < w.commit_end
  pub unique : Unique w.pending
  pub no_meta : Absent 0 w.pending
  pub header :
      w.header_ok ≡ true
      → (header_matches w.file w.db_id ≡ true) × (load_u64 w.file.bytes 16 ≡ w.generation)
  pub headless : w.header_ok ≡ false → w.end ≡ 0

-- The entries with a new one in slot `n`.
abbrev pub entries_with : (ℕ → ℕ × Bool) → ℕ → ℕ × Bool → ℕ → ℕ × Bool
entries_with entries n e k = if k == n then e else entries k

replay-congr :
    (d e : ℕ → ℕ × Bool) (n : ℕ) → ((k : ℕ) → k < n → d k ≡ e k) → replay d n ≡ replay e n
unfolding replay
replay-congr d e zero h = refl
replay-congr d e (suc n) h = rw (h n (omega arith), replay-congr d e n (λ k u. h k (omega arith)))

replay_maps-with :
    (entries : ℕ → ℕ × Bool) (n m : ℕ) (e : ℕ × Bool)
    → m ≤ n
    → replay_maps (entries_with entries n e) m ≡ replay_maps entries m
replay_maps-with entries n m e h =
    ap (λ (r : Scan). (r.pending, r.committed, r.commit_end))
      (replay-congr (entries_with entries n e) entries m (λ k u. ground arith))

module _ (entries : ℕ → ℕ × Bool) (n id : ℕ) {p c : SlotMap} {end : ℕ}
    (h : replay_maps entries n ≡ (p, c, end)) where
  before : (b : Bool) → replay_maps (entries_with entries n (id, b)) n ≡ (p, c, end)
  before b = replay_maps-with entries n n (id, b) (omega arith) ∙ h

  replay_maps-frame :
      replay_maps (entries_with entries n (id, false)) (suc n) ≡ (assign id n p, c, end)
  unfolding replay take_frame
  replay_maps-frame =
      rw (==_refl n)
        (ap (λ (m : SlotMap × SlotMap × ℕ). (assign id n m.0, m.1, m.2)) (before false))

  replay_maps-commit :
      replay_maps (entries_with entries n (id, true)) (suc n)
      ≡ ([], assign_all (assign id n p) c, n + 1)
  unfolding replay take_frame
  replay_maps-commit = rw (==_refl n) (
      ap (λ (m : SlotMap × SlotMap × ℕ). ([], assign_all (assign id n m.0) m.1, n + 1))
        (before true))

pub header-congr :
    (f g : File) (db_id generation : ℕ)
    → ((i : ℕ) → i < 64 → g.bytes i ≡ f.bytes i)
    → 64 ≤ g.size
    → (header_matches f db_id ≡ true) × (load_u64 f.bytes 16 ≡ generation)
    → (header_matches g db_id ≡ true) × (load_u64 g.bytes 16 ≡ generation)
unfolding header_matches
header-congr f g db_id generation same size h =
    let field = λ (w o : ℕ) (u : o + w ≤ 64).
      load-congr w g.bytes f.bytes o (λ i a b. same i (omega arith)) in
    ground (
      arith,
      field 8 0 (omega arith),
      field 4 8 (omega arith),
      field 4 12 (omega arith),
      field 8 16 (omega arith),
      field 8 24 (omega arith),
      field 8 32 (omega arith),
      digest-congr g.bytes f.bytes 0 0 32 0 (λ k u. same (0 + k) (omega arith)),
    )

-- The file of the log `w` with a frame written to a slot.
unfoldable pub written : Wal → ℕ → ℕ → ℕ → Page → File
written w slot id flags page =
    pwrite_exact w.file (frame_image w.generation w.db_id id flags page) frame_size
      (slot_offset slot)

module _ (w : Wal) (ok : w.header_ok ≡ true) (word : w.generation < 2 ^ 64) (slot id flags : ℕ)
    (page : Page) (id_fits : id < 2 ^ 32) (flags_fit : flags < 2) where
  write_frame-written :
      write_frame w slot id flags page
      ≡ record w { file = written w slot id flags page; frames_written = w.frames_written + 1 }
  unfolding write_frame ensure_header written
  write_frame-written = rw ok

  entry-written :
      entry_at (written w slot id flags page) w.generation w.db_id slot ≡ some (id, is_commit flags)
  unfolding written
  entry-written =
      entry_at-image w.generation w.db_id id flags page word id_fits flags_fit
        (written w slot id flags page) slot
        (written-inside w.file (frame_image w.generation w.db_id id flags page) slot)
        (size-written w.file (frame_image w.generation w.db_id id flags page) slot).0

  entry-kept :
      (k : ℕ)
      → k ≢ slot
      → (slot < k) ⊎ (slot_offset k + frame_size ≤ w.file.size)
      → entry_at (written w slot id flags page) w.generation w.db_id k
        ≡ entry_at w.file w.generation w.db_id k
  unfolding written
  entry-kept k ne h =
      entry_at-written w.file (frame_image w.generation w.db_id id flags page) slot w.generation
        w.db_id k ne h

  whole-kept :
      (k : ℕ)
      → (k ≡ slot) ⊎ (slot_offset k + frame_size ≤ w.file.size)
      → slot_offset k + frame_size ≤ (written w slot id flags page).size
  unfolding written
  whole-kept k h =
      omega (arith, size-written w.file (frame_image w.generation w.db_id id flags page) slot)

  header-kept :
      (header_matches w.file w.db_id ≡ true) × (load_u64 w.file.bytes 16 ≡ w.generation)
      → (header_matches (written w slot id flags page) w.db_id ≡ true)
        × (load_u64 (written w slot id flags page).bytes 16 ≡ w.generation)
  unfolding written
  header-kept h =
      let buf = frame_image w.generation w.db_id id flags page in
      header-congr w.file (written w slot id flags page) w.db_id w.generation
        (written-header w.file buf slot) (omega (arith, (size-written w.file buf slot).0)) h

module _ (w : Wal) (id : ℕ) (page : Page) (ok : w.header_ok ≡ true) (word : w.generation < 2 ^ 64)
    (fits : id < 2 ^ 32) where
  pub write-new :
      find id w.pending ≡ none
      → write w id page ≡ record w {
        file = written w w.end id 0 page;
        frames_written = w.frames_written + 1;
        end = w.end + 1;
        pending = assign id w.end w.pending;
      }
  unfolding write
  write-new new =
      rw (new, write)
        (ap (λ (v : Wal). record v { end = w.end + 1; pending = assign id w.end v.pending })
          (write_frame-written w ok word w.end id 0 page fits (omega arith)))

  pub write-again :
      (slot : ℕ)
      → find id w.pending ≡ some slot
      → write w id page
        ≡ record w { file = written w slot id 0 page; frames_written = w.frames_written + 1 }
  unfolding write
  write-again slot old =
      rw (old, write)
        (ap (λ (v : Wal). record v { pending = assign id slot v.pending })
            (write_frame-written w ok word slot id 0 page fits (omega arith))
          ∙ rw (assign_self id slot w.pending old))

module _ (entries : ℕ → ℕ × Bool) (w : Wal) (id : ℕ) (page : Page) (ok : w.header_ok ≡ true)
    (inv : LogInv entries w) (fits : id < 2 ^ 32) (nonzero : id ≢ 0) where
  -- A pending frame in a new slot.
  pub write-LogInv_new :
      find id w.pending ≡ none → LogInv (entries_with entries w.end (id, false)) (write w id page)
  write-LogInv_new new =
      let word = inv.word in
      let kept = entry-kept w ok word w.end id 0 page fits (omega arith) in
      rw (write-new w id page ok word fits new) (record {
        word = word;
        order = omega (arith, inv.order);
        whole = λ k u. elim (lt-add-one_cases u) [
          | inl l ↦ whole-kept w ok word w.end id 0 page fits (omega arith) k (inr (inv.whole k l))
          | inr e ↦ whole-kept w ok word w.end id 0 page fits (omega arith) k (inl e)
        ];
        frames = λ k u. elim (lt-add-one_cases u) [
          | inl l ↦
              rw (==_ne k w.end (omega arith))
                (kept k (omega arith) (inr (inv.whole k l)) ∙ inv.frames k l)
          | inr e ↦
              rw (e, ==_refl w.end) (entry-written w ok word w.end id 0 page fits (omega arith))
        ];
        quiet = λ k j l e.
            inv.quiet k j (omega arith) (sym (kept k (omega arith) (inl (omega arith))) ∙ e);
        undecided = λ k l u. ground (arith, inv.undecided k l);
        decided = replay_maps-with entries w.end w.commit_end (id, false) inv.order ∙ inv.decided;
        pending = rw add-one (replay_maps-frame entries w.end id inv.pending);
        slots = λ j s e. ground (arith, find-assign j id w.end w.pending, inv.slots j s, inv.order);
        committed_slots = inv.committed_slots;
        unique = assign-Unique id w.end w.pending inv.unique;
        no_meta = find-assign 0 id w.end w.pending ∙ rw (==_ne id 0 nonzero, inv.no_meta);
        header = λ o. header-kept w ok word w.end id 0 page fits (omega arith) (inv.header o);
        headless = λ o. absurd (cc);
      })

  -- A pending frame written once more, in its own slot.
  pub write-LogInv_again :
      (slot : ℕ) → find id w.pending ≡ some slot → LogInv entries (write w id page)
  write-LogInv_again slot old =
      let word = inv.word in
      let at = inv.slots id slot old in
      let kept = entry-kept w ok word slot id 0 page fits (omega arith) in
      rw (write-again w id page ok word fits slot old) (record {
        word = word;
        order = inv.order;
        whole =
            λ k u. whole-kept w ok word slot id 0 page fits (omega arith) k (inr (inv.whole k u));
        frames = λ k u. elim (Bool-cases (k == slot)) [
          | inl e ↦
              let e' : k ≡ slot = ==→eq k slot e in
              rw e' (
                entry-written w ok word slot id 0 page fits (omega arith)
                ∙ ap₂ (λ (a : ℕ) (b : Bool). some (a, b)) (sym at.2)
                    (sym (inv.undecided slot at.0 at.1)))
          | inr e ↦ kept k (==→ne k slot e) (inr (inv.whole k u)) ∙ inv.frames k u
        ];
        quiet = λ k j l e. inv.quiet k j l (sym (kept k (omega arith) (inl (omega arith))) ∙ e);
        undecided = inv.undecided;
        decided = inv.decided;
        pending = inv.pending;
        slots = inv.slots;
        committed_slots = inv.committed_slots;
        unique = inv.unique;
        no_meta = inv.no_meta;
        header = λ o. header-kept w ok word slot id 0 page fits (omega arith) (inv.header o);
        headless = inv.headless;
      })

pending_frame : (e : ℕ × Bool) (j : ℕ) → e.1 ≡ false → some e ≢ some (j, true)
pending_frame (k, true) j h = absurd (cc)
pending_frame (k, false) j h = λ e. cc

-- `rollback` keeps the invariant: it gives up the pending frames.
pub rollback-LogInv :
    (entries : ℕ → ℕ × Bool) (w : Wal) → LogInv entries w → LogInv entries (rollback w)
unfolding rollback find
rollback-LogInv entries w inv = record {
  word = inv.word;
  order = omega arith;
  whole = λ k u. inv.whole k (omega (arith, inv.order));
  frames = λ k u. inv.frames k (omega (arith, inv.order));
  quiet = λ k j l e. elim (Bool-cases (ltb k w.end)) [
    | inl b ↦
        let u : k < w.end = ltb→lt k w.end b in
        pending_frame (entries k) j (inv.undecided k l u) (sym (inv.frames k u) ∙ e)
    | inr b ↦ inv.quiet k j (ltb→le k w.end b) e
  ];
  undecided = λ k l u. absurd (omega arith);
  decided = inv.decided;
  pending = inv.decided;
  slots = λ j s e. absurd (cc);
  committed_slots = inv.committed_slots;
  unique = tt;
  no_meta = refl;
  header = inv.header;
  headless = λ o. omega (arith, inv.headless o, inv.order);
}

module _ (entries : ℕ → ℕ × Bool) (w : Wal) (meta : Page) (durable : Bool) (ok : w.header_ok ≡ true)
    (inv : LogInv entries w) where
  unfoldable pub decided_map : SlotMap
  decided_map = assign 0 w.end (assign_all w.pending w.committed)

  pub commit-written : commit w meta durable ≡ record w {
    file = written w w.end 0 1 meta;
    frames_written = w.frames_written + 1;
    committed = decided_map;
    pending = [];
    end = w.end + 1;
    commit_end = w.end + 1;
    syncs = if durable then w.syncs + 1 else w.syncs;
  }
  unfolding commit decided_map
  commit-written =
      rw (write_frame-written w ok inv.word w.end 0 1 meta (omega arith) (omega arith))
        (ground arith)

  replay-decided :
      replay_maps (entries_with entries w.end (0, true)) (w.end + 1) ≡ ([], decided_map, w.end + 1)
  unfolding decided_map
  replay-decided =
      ap (replay_maps (entries_with entries w.end (0, true))) (add-one w.end)
      ∙ replay_maps-commit entries w.end 0 inv.pending
      ∙ ap (λ (c : SlotMap). ([], c, w.end + 1))
          (assign_all-assign 0 w.end w.pending w.committed inv.no_meta)

  decided_slots : (id s : ℕ) → find id decided_map ≡ some s → s < w.end + 1
  unfolding decided_map
  decided_slots id s e = ground (
    arith,
    find-assign id 0 w.end (assign_all w.pending w.committed),
    find-assign_all id w.pending w.committed inv.unique,
    inv.slots id s,
    inv.committed_slots id s,
    inv.order,
  )

  -- `commit` keeps the invariant: the pending frames and the meta page's are decided.
  pub commit-LogInv : LogInv (entries_with entries w.end (0, true)) (commit w meta durable)
  unfolding find
  commit-LogInv =
      let word = inv.word in
      let kept = entry-kept w ok word w.end 0 1 meta (omega arith) (omega arith) in
      rw commit-written (record {
        word = word;
        order = omega arith;
        whole = λ k u. elim (lt-add-one_cases u) [
          | inl l ↦
              whole-kept w ok word w.end 0 1 meta (omega arith) (omega arith) k
                (inr (inv.whole k l))
          | inr e ↦ whole-kept w ok word w.end 0 1 meta (omega arith) (omega arith) k (inl e)
        ];
        frames = λ k u. elim (lt-add-one_cases u) [
          | inl l ↦
              rw (==_ne k w.end (omega arith))
                (kept k (omega arith) (inr (inv.whole k l)) ∙ inv.frames k l)
          | inr e ↦
              rw (e, ==_refl w.end)
                (entry-written w ok word w.end 0 1 meta (omega arith) (omega arith))
        ];
        quiet = λ k j l e.
            inv.quiet k j (omega arith) (sym (kept k (omega arith) (inl (omega arith))) ∙ e);
        undecided = λ k l u. absurd (omega arith);
        decided = replay-decided;
        pending = replay-decided;
        slots = λ j s e. absurd (cc);
        committed_slots = decided_slots;
        unique = tt;
        no_meta = refl;
        header =
            λ o. header-kept w ok word w.end 0 1 meta (omega arith) (omega arith) (inv.header o);
        headless = λ o. absurd (cc);
      })
