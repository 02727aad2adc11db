-- ===== src/Wal/Durability.antt =====
-- A crash at any point of any sequence of operations keeps exactly the committed versions.
use labdb.Prelude.{
  ℕ, ◌+◌, ◌^◌, ◌<◌, ◌≡◌, refl, arith, ◌∙◌, true, false, Option, none, some, List, ltb-true,
}
use labdb.Page.{Page}
use labdb.Io.{File, empty_file}
use labdb.Wal.{
  Wal, frame_size, frame_header_size, slot_offset, latest, open_wal, recover, header_matches,
}
use labdb.Wal.Slots.{find}
use labdb.Wal.Frames.{entry_at}
use labdb.Wal.Replay.{replay}
use labdb.Wal.Recovery.{CrashImage, reopened, opened, reopened-eq, reopened-LogInv}
use labdb.Wal.Reads.{Store, Op, AllPageOps, Shows, Keeps, spec_run, wal_run, run-Keeps}

Shows-image :
    (f g : File) (end : ℕ) (o : Option ℕ) (p : Option Page)
    → ((i : ℕ) → i < slot_offset end → g.bytes i ≡ f.bytes i)
    → ((s : ℕ) → o ≡ some s → s < end)
    → Shows f o p
    → Shows g o p
Shows-image f g end none none h l x = tt
Shows-image f g end none (some p) h l x = elim x [ ]
Shows-image f g end (some s) none h l x = elim x [ ]
Shows-image f g end (some s) (some p) h l x =
    λ i u. h (slot_offset s + frame_header_size + i) (omega (arith, l s refl)) ∙ x i u

-- The store after a crash: what was durable.
abbrev pub crashed : Store → Store
crashed s = record { durable = s.durable; current = s.durable }

-- The log as it is opened again and recovered from the file `f`.
abbrev pub restart : Wal → File → ℕ → Wal
restart w f fresh = (recover (open_wal f w.db_id fresh)).0

restart-Keeps :
    (w : Wal) (s : Store) (f : File) (fresh : ℕ)
    → Keeps w s
    → w.header_ok ≡ true
    → CrashImage w f
    → Keeps (restart w f fresh) (crashed s)
unfolding reopened opened latest find
restart-Keeps w s f fresh k header image =
    let e = reopened-eq k.entries w f fresh k.inv header image in
    let shows = λ (id : ℕ).
      Shows-image w.file f w.commit_end (find id w.committed) (s.durable id) image.same
        (k.inv.committed_slots id) (k.refines.durable id) in
    record {
      entries = k.entries;
      inv = reopened-LogInv k.entries w f fresh k.inv header image;
      refines = rw e (record { current = shows; durable = shows });
      db_fits = rw e k.db_fits;
    }

-- From a well-formed log that holds the versions of a store, run any writes to pages other
-- than 0 with 32-bit ids, commits and rollbacks. If a header is in the file by then, and a
-- crash leaves a file with all bytes up to the last commit and no later slot that passes for a
-- commit of the generation, then opening that file and recovering gives a well-formed log that
-- holds the versions that were committed, and no other.
pub crash-Keeps :
    (w : Wal) (s : Store) (ops : List Op) (f : File) (fresh : ℕ)
    → Keeps w s
    → AllPageOps ops
    → (wal_run w ops).header_ok ≡ true
    → CrashImage (wal_run w ops) f
    → Keeps (restart (wal_run w ops) f fresh) (crashed (spec_run s ops))
crash-Keeps w s ops f fresh k ok header image =
    restart-Keeps (wal_run w ops) (spec_run s ops) f fresh (run-Keeps w s ops ok k) header image

abbrev pub empty_store : Store
empty_store = record { durable = λ id. none; current = λ id. none }

entry_at-empty : (generation db_id k : ℕ) → entry_at empty_file generation db_id k ≡ none
unfolding entry_at
entry_at-empty generation db_id k = rw (ltb-true 0 (slot_offset k + frame_size) (omega arith))

-- A log that is created in an empty file, with 64-bit numbers for the database and the
-- generation, is well formed and holds no page.
pub create-Keeps :
    (db_id fresh : ℕ)
    → db_id < 2 ^ 64
    → fresh < 2 ^ 64
    → Keeps (open_wal empty_file db_id fresh) empty_store
unfolding open_wal header_matches latest find replay
create-Keeps db_id fresh db word = record {
  entries = λ k. (0, false);
  inv = record {
    word = word;
    order = omega arith;
    whole = λ k u. absurd (omega arith);
    frames = λ k u. absurd (omega arith);
    quiet = λ k j l e. absurd (cc (entry_at-empty fresh db_id k));
    undecided = λ k l u. refl;
    decided = refl;
    pending = refl;
    slots = λ j s e. absurd (cc);
    committed_slots = λ j s e. absurd (cc);
    unique = tt;
    no_meta = refl;
    header = λ o. absurd (cc);
    headless = λ o. refl;
  };
  refines = record { current = λ j. tt; durable = λ j. tt };
  db_fits = db;
}
