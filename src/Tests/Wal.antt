-- ===== src/Tests/Wal.antt =====
-- Runs of the log: two transactions, the second of them rolled back or cut off by a crash.
use labdb.Prelude.{ℕ, ◌<◌, ◌≤◌, ◌≡◌, refl, arith, true, List, [], ◌∷◌, some, ok}
use labdb.Common.{zeroes}
use labdb.Page.{Page, page_size}
use labdb.Io.{pwrite_exact, empty_file}
use labdb.Wal.{
  Wal, scan_fuel, open_wal, recover, read_frame, scan, scan_start, commit, write, rollback, latest,
  ensure_header, write_header, write_frame, header_matches,
}
use labdb.Wal.Slots.{find, assign, assign_all}
use labdb.Wal.Log.{LogInv}
use labdb.Wal.Replay.{recover-scan}
use labdb.Wal.Recovery.{recover-committed, CrashImage, CrashImage-file}
use labdb.Wal.Reads.{
  Op, write_op, commit_op, rollback_op, AllPageOps, Keeps, spec_run, wal_run, wal_step, run-Keeps,
}
use labdb.Wal.Durability.{create-Keeps, crash-Keeps, restart, crashed, empty_store}

abbrev ops : List Op
ops =
    write_op 3 (λ i. i)
    ∷ write_op 4 zeroes
    ∷ commit_op (λ i. 9) true
    ∷ write_op 3 zeroes
    ∷ rollback_op
    ∷ write_op 5 (λ i. 1)
    ∷ []

ops-AllPageOps : AllPageOps ops
ops-AllPageOps = (
  (omega arith, omega arith),
  (
    (omega arith, omega arith),
    (tt, ((omega arith, omega arith), (tt, ((omega arith, omega arith), tt)))),
  ),
)

abbrev new_log : Wal
new_log = open_wal empty_file 1 2

create-Keeps_example : Keeps new_log empty_store
create-Keeps_example = create-Keeps 1 2 (omega arith) (omega arith)

run-Keeps_example : Keeps (wal_run new_log ops) (spec_run empty_store ops)
run-Keeps_example =
    run-Keeps new_log empty_store ops ops-AllPageOps (create-Keeps 1 2 (omega arith) (omega arith))

abbrev log : Wal
log = wal_run new_log ops

log-Keeps : Keeps log (spec_run empty_store ops)
log-Keeps =
    run-Keeps new_log empty_store ops ops-AllPageOps (create-Keeps 1 2 (omega arith) (omega arith))

-- Four frames, two of them and the commit decided; the last one waits for a commit.
log_ends : (log.commit_end ≡ 3) × (log.end ≡ 4) × (log.header_ok ≡ true)
unfolding wal_run wal_step write commit rollback ensure_header write_header write_frame open_wal
    header_matches latest find assign assign_all
log_ends = (refl, refl, refl)

log_fuel : scan_fuel log.file ≤ 100
unfolding wal_run wal_step write commit rollback ensure_header write_header write_frame open_wal
    header_matches latest find assign assign_all pwrite_exact
log_fuel = omega arith

log-CrashImage : CrashImage log log.file
log-CrashImage = let k = log-Keeps in CrashImage-file k.entries log log_ends.2 k.inv

crash-Keeps_example : Keeps (restart log log.file 0) (crashed (spec_run empty_store ops))
crash-Keeps_example =
    crash-Keeps new_log empty_store ops log.file 0 (create-Keeps 1 2 (omega arith) (omega arith))
      ops-AllPageOps log_ends.2 log-CrashImage

recover-committed_example :
    let v = (recover (open_wal log.file log.db_id 0)).0 in
    (v.committed ≡ log.committed)
    × (v.pending ≡ [])
    × (v.end ≡ log.commit_end)
    × (v.commit_end ≡ log.commit_end)
    × (v.generation ≡ log.generation)
    × ((id slot : ℕ)
        → find id log.committed ≡ some slot
        → (p : Page) × (q : Page) × (read_frame v slot ≡ ok p)
          × (read_frame log slot ≡ ok q)
          × ((i : ℕ) → i < page_size → p i ≡ q i))
    × LogInv log-Keeps.entries v
recover-committed_example =
    recover-committed log-Keeps.entries log log.file 0 log-Keeps.inv log_ends.2 log-CrashImage

-- The file of this log has room for four frames, and the loop takes five rounds or a hundred.
recover-scan_example :
    let r = scan 100 log.file log.generation log.db_id 0 scan_start in
    ((recover log).0.committed ≡ r.committed)
    × ((recover log).0.end ≡ r.commit_end)
    × ((recover log).1.frames ≡ r.frames)
    × ((recover log).1.transactions ≡ r.transactions)
    × ((recover log).1.stopped ≡ r.stopped)
recover-scan_example = recover-scan log 100 log_ends.2 log_fuel
