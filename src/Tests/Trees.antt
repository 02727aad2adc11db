-- ===== src/Tests/Trees.antt =====
-- Runs of the B+Tree's nodes on small pages.
mod Stock
use labdb.Prelude.{
  ℕ, zero, suc, ◌+◌, ◌-◌, ◌≤◌, ◌<◌, ◌^◌, ◌≡◌, ◌≢◌, refl, arith, ◌∙◌, Bool, true, false, ◌||◌,
  Option, none, some, [], ◌∷◌, ◌++◌, if◌then◌else◌, ◌==◌, ==_ne, ==→eq, ok, Bool-cases, inl, inr,
  List, sym, subst, ok-injective, check_that,
}
use labdb.Common.{load, store, put, memcpy, zeroes}
use labdb.Page.{Page, null_page, slot_count, set_slot_count, id}
use labdb.PageStore.{View}
use labdb.Io.{empty_file}
use labdb.Wal.{Wal, open_wal, recover}
use labdb.Wal.Reads.{Store, Op, write_op, Keeps, spec_run, wal_run, run-Keeps}
use labdb.Wal.Durability.{create-Keeps, empty_store}
use labdb.Pager.{Pager, Durability, new_meta}
use labdb.Pool.{Pool, new_pool, repeat, pool_store}
use labdb.Pool.Sound.{Held, PoolShows, page-injective}
use labdb.Pool.Laws.{pool_store-PageLaws}
use labdb.Pool.Start.{logged-Held, new_pool-PoolShows, persist_global, persist_global-Persists}
use labdb.Btree.{
  init_leaf, leaf_key_at, value_at, bound_loop, lower_bound, upper_bound, insert_at, erase_at,
  move_suffix_to, append_from, init_internal, key_at, set_key_at, child_at, set_child_at,
  child_index_for, first_child_for,
}
use labdb.Btree.Bounds.{IsSorted, IsLower, IsUpper, leaf-bounds, child-bounds}
use labdb.Btree.Indexed.{listed, insert_index, remove_index}
use labdb.Btree.Leaves.{
  entries, entries-insert_at, entries-erase_at, entries-move_suffix_to, entries-append_from,
}
use labdb.Btree.Tree.{Tree, search, insert, insert_new, height_from, open_tree}
use labdb.Btree.Shape.{IsStrict, IsLeaf, IsNode, IsTree, leaf, node, Owned, low_of, high_of}
use labdb.Btree.Search.{search-IsTree}
use labdb.Btree.Grown.{put_key, is_new}
use labdb.Btree.Fresh.{empty_map, open_tree-IsTree, search-insert}
use labdb.Btree.Height.{height_from-IsTree}
use labdb.Btree.Root.{Bound, unique_tree, insert-Bound, insert_new-Bound}

two-IsSorted : (keys : ℕ → ℕ) → keys 0 ≤ keys 1 → IsSorted keys 2
two-IsSorted keys h zero zero l u = omega arith
two-IsSorted keys h zero (suc zero) l u = h
two-IsSorted keys h zero (suc (suc j)) l u = absurd (omega arith)
two-IsSorted keys h (suc i) zero l u = absurd (omega arith)
two-IsSorted keys h (suc zero) (suc zero) l u = omega arith
two-IsSorted keys h (suc zero) (suc (suc j)) l u = absurd (omega arith)
two-IsSorted keys h (suc (suc i)) (suc j) l u = absurd (omega arith)

one-IsSorted : (keys : ℕ → ℕ) → IsSorted keys 1
one-IsSorted keys zero zero l u = omega arith
one-IsSorted keys (suc i) zero l u = absurd (omega arith)
one-IsSorted keys i (suc j) l u = absurd (omega arith)

-- A leaf with the entries 5 ↦ 50 and 7 ↦ 70, and one with 9 ↦ 90.
abbrev pub low_leaf : Page
unfolding init_leaf insert_at
low_leaf = insert_at (insert_at (init_leaf zeroes 2) 0 5 50) 1 7 70

abbrev pub high_leaf : Page
unfolding init_leaf insert_at
high_leaf = insert_at (init_leaf zeroes 3) 0 9 90

-- An internal node over both.
abbrev pub top : Page
unfolding init_internal set_key_at set_child_at
top =
    set_slot_count (set_child_at (set_child_at (set_key_at (init_internal zeroes 1) 0 9) 0 2) 1 3) 1

entries_run : (entries low_leaf ≡ (5, 50) ∷ (7, 70) ∷ []) × (entries high_leaf ≡ (9, 90) ∷ [])
unfolding low_leaf high_leaf top load store put memcpy listed init_leaf insert_at init_internal
    set_key_at set_child_at
entries_run = (refl, refl)

low-IsSorted : IsSorted (leaf_key_at low_leaf) (slot_count low_leaf)
unfolding low_leaf high_leaf top load store put memcpy listed init_leaf insert_at init_internal
    set_key_at set_child_at
low-IsSorted = two-IsSorted (leaf_key_at low_leaf) (omega arith)

high-IsSorted : IsSorted (leaf_key_at high_leaf) (slot_count high_leaf)
unfolding low_leaf high_leaf top load store put memcpy listed init_leaf insert_at init_internal
    set_key_at set_child_at
high-IsSorted = one-IsSorted (leaf_key_at high_leaf)

top-IsSorted : IsSorted (key_at top) (slot_count top)
unfolding low_leaf high_leaf top load store put memcpy listed init_leaf insert_at init_internal
    set_key_at set_child_at
top-IsSorted = one-IsSorted (key_at top)

leaf-bounds_example :
    IsLower (leaf_key_at low_leaf) (slot_count low_leaf) 7 (lower_bound low_leaf 7)
    × IsUpper (leaf_key_at low_leaf) (slot_count low_leaf) 7 (upper_bound low_leaf 7)
leaf-bounds_example = leaf-bounds low_leaf 7 low-IsSorted

child-bounds_example :
    IsUpper (key_at top) (slot_count top) 9 (child_index_for top 9)
    × IsLower (key_at top) (slot_count top) 9 (first_child_for top 9)
child-bounds_example = child-bounds top 9 top-IsSorted

-- Keys that repeat: each bound stands on its side of the run.
abbrev repeats : Page
unfolding low_leaf high_leaf top load store put memcpy listed init_leaf insert_at init_internal
    set_key_at set_child_at
repeats = insert_at (insert_at low_leaf 1 7 71) 1 7 72

bounds_run :
    (lower_bound repeats 7 ≡ 1)
    × (upper_bound repeats 7 ≡ 4)
    × (lower_bound repeats 8 ≡ 4)
    × (upper_bound repeats 4 ≡ 0)
unfolding low_leaf high_leaf top load store put memcpy listed init_leaf insert_at init_internal
    set_key_at set_child_at repeats lower_bound upper_bound bound_loop
bounds_run = (refl, refl, refl, refl)

entries-insert_at_example :
    entries (insert_at low_leaf 1 6 60) ≡ insert_index 1 (6, 60) (entries low_leaf)
unfolding low_leaf high_leaf top load store put memcpy listed init_leaf insert_at init_internal
    set_key_at set_child_at
entries-insert_at_example =
    entries-insert_at low_leaf 1 6 60 (omega arith) (omega arith) (omega arith) (omega arith)

entries-erase_at_example : entries (erase_at low_leaf 0) ≡ remove_index 0 (entries low_leaf)
unfolding low_leaf high_leaf top load store put memcpy listed init_leaf insert_at init_internal
    set_key_at set_child_at
entries-erase_at_example = entries-erase_at low_leaf 0 (omega arith) (omega arith)

entries-move_suffix_to_example :
    let halves = move_suffix_to low_leaf (init_leaf zeroes 3) 1 in
    (slot_count halves.0 ≡ 1)
    × (slot_count halves.1 ≡ slot_count low_leaf - 1)
    × (entries low_leaf ≡ entries halves.0 ++ entries halves.1)
unfolding low_leaf high_leaf top load store put memcpy listed init_leaf insert_at init_internal
    set_key_at set_child_at
entries-move_suffix_to_example =
    entries-move_suffix_to low_leaf (init_leaf zeroes 3) 1 (omega arith) (omega arith)

entries-append_from_example :
    entries (append_from low_leaf high_leaf) ≡ entries low_leaf ++ entries high_leaf
unfolding low_leaf high_leaf top load store put memcpy listed init_leaf insert_at init_internal
    set_key_at set_child_at
entries-append_from_example = entries-append_from low_leaf high_leaf (omega arith)
