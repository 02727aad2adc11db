-- ===== src/Tests/Joins.antt =====
-- Runs of the hash table of a join.
use labdb.Prelude.{◌≡◌, refl, [], ◌∷◌}
use labdb.JoinHash.{
  JoinHashTable, new_table, add_key, bucket_count, bucket_range, finish, occupancy, chain_class,
  bucket_loop, zeros, count_rows, add_up, place_ids, tally, tally_all, class_loop, fnv1a,
  fnv1a_from,
}

bucket_count_run :
    (bucket_count 0 ≡ 1) × (bucket_count 1 ≡ 1) × (bucket_count 5 ≡ 8) × (bucket_count 8 ≡ 8)
unfolding bucket_count bucket_loop
bucket_count_run = (refl, refl, refl, refl)

-- Five rows with the hashes 1, 9, 2, 1 and 4, which are not mixed, in eight buckets.
abbrev five : JoinHashTable
unfolding add_key
five = add_key (add_key (add_key (add_key (add_key (new_table (λ h. h)) 1) 9) 2) 1) 4

-- The bucket of 1 has the rows 0, 1 and 3.
finish_run :
    (bucket_range (finish five) 1 ≡ (0, 3))
    × ((finish five).order ≡ 0 ∷ 1 ∷ 3 ∷ 2 ∷ 4 ∷ [])
    × (bucket_range (finish five) 7 ≡ (5, 5))
unfolding five add_key finish bucket_count bucket_loop zeros count_rows add_up place_ids
finish_run = (refl, refl, refl)

occupancy_run :
    ((occupancy (finish five)).used ≡ 3)
    × ((occupancy (finish five)).longest ≡ 3)
    × ((occupancy (finish five)).chain_hist ≡ 5 ∷ 2 ∷ 0 ∷ 1 ∷ [])
unfolding five add_key finish bucket_count bucket_loop zeros count_rows add_up place_ids occupancy
    tally_all tally chain_class class_loop
occupancy_run = (refl, refl, refl)

fnv1a_run : fnv1a (97 ∷ []) ≡ 12638187200555641996
unfolding fnv1a fnv1a_from
fnv1a_run = refl
