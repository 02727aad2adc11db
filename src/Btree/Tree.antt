-- ===== src/Btree/Tree.antt =====
-- src/btree.cpp: the tree over a store of pages `S`. `persist` is `on_root_changed_`, or the store's
-- `set_btree_root` without one. A descent, which the code runs until it meets a leaf, is on fuel.
use labdb.Prelude.{
  ℕ, zero, suc, ◌+◌, ◌-◌, ◌/◌, Bool, true, false, ◌&&◌, not, Option, none, some, if◌then◌else◌,
  ◌==◌, ltb, Outcome, ok, fail, check_that, ◌>>=◌, ◌>>◌,
}
use labdb.Common.{zeroes}
use labdb.Page.{
  Page, PageType, page_type_code, null_page, type_code, slot_count, set_slot_count, next_page,
  set_next_page,
}
use labdb.PageStore.{PageStore}
use labdb.Btree.{
  init_leaf, leaf_is_full, leaf_key_at, value_at, set_value_at, lower_bound, upper_bound, insert_at,
  move_suffix_to, init_internal, internal_is_full, key_at, set_key_at, child_at, set_child_at,
  child_index_for, insert_child_at,
}

-- The fields of `BTree` but for the pool and the callback.
pub record Tree : Type 0 where
  pub root : ℕ
  pub unique : Bool

-- What a node's split leaves for its parent.
pub record Split : Type 0 where
  pub sep_key : ℕ
  pub right : ℕ

-- What an insertion below a node found.
pub record Inserted : Type 0 where
  pub split : Option Split
  pub inserted : Bool

abbrev pub is_leaf : Page → Bool
is_leaf p = type_code p == page_type_code PageType.btree_leaf

-- for (k = from; k < from + left; ++k, ++r) copy key and child `k` of `node` to `r` of `right`
unfoldable pub copy_pairs : Page → ℕ → ℕ → Page → ℕ → Page
copy_pairs node from zero right r = right
copy_pairs node from (suc left) right r =
    copy_pairs node (from + 1) left
      (set_child_at (set_key_at right r (key_at node from)) r (child_at node from)) (r + 1)

-- The two halves of a full node, and the key between them.
unfoldable pub split_internal : Page → ℕ → Page × Page × ℕ
unfolding copy_pairs
split_internal node right_id =
    let n = slot_count node in
    let mid = n / 2 in
    let moved = n - mid - 1 in
    let right = copy_pairs node (mid + 1) moved (init_internal zeroes right_id) 0 in
    let right' = set_slot_count (set_child_at right moved (child_at node n)) moved in
    (set_slot_count node mid, right', key_at node mid)

-- The separator that the split of a child sends up, put into the half that owns its range.
unfoldable pub route : Page → Page → ℕ → Split → Page × Page
route left right median up =
    if ltb up.sep_key median
    then (insert_child_at left (child_index_for left up.sep_key) up.sep_key up.right, right)
    else (left, insert_child_at right (child_index_for right up.sep_key) up.sep_key up.right)

-- The place of a new entry in a leaf.
unfoldable pub entry_place : Bool → Page → ℕ → ℕ
entry_place unique p key = if unique then lower_bound p key else upper_bound p key

-- A full leaf cut in two, linked, with the new entry in the half where it belongs.
unfoldable pub split_leaf : Bool → Page → ℕ → ℕ → ℕ → Page × Page
unfolding entry_place
split_leaf unique p right_id key value =
    let cut = move_suffix_to p (init_leaf zeroes right_id) (slot_count p / 2) in
    let right = set_next_page cut.1 (next_page p) in
    let left = set_next_page cut.0 right_id in
    if ltb key (leaf_key_at right 0)
    then (insert_at left (entry_place unique left key) key value, right)
    else (left, insert_at right (entry_place unique right key) key value)

-- for (i = from; left > 0; ++i) set_key_at(to + i, r.key_at(i)), and the like for children
unfoldable pub copy_keys : Page → ℕ → ℕ → ℕ → Page → Page
copy_keys r from zero to l = l
copy_keys r from (suc left) to l =
    copy_keys r (from + 1) left to (set_key_at l (to + from) (key_at r from))

unfoldable pub copy_children : Page → ℕ → ℕ → ℕ → Page → Page
copy_children r from zero to l = l
copy_children r from (suc left) to l =
    copy_children r (from + 1) left to (set_child_at l (to + from) (child_at r from))

-- The keys and the children of `r` behind those of `l`, with the separator between them.
unfoldable pub merge_internal : Page → ℕ → Page → Page
unfolding copy_keys copy_children
merge_internal l sep r =
    let lc = slot_count l in
    let rc = slot_count r in
    let q = copy_keys r 0 rc (lc + 1) (set_key_at l lc sep) in
    set_slot_count (copy_children r 0 (rc + 1) (lc + 1) q) (lc + 1 + rc)

-- The value of `key` in a leaf.
unfoldable pub search_leaf : Page → ℕ → Option ℕ
search_leaf p key =
    let i = lower_bound p key in
    if ltb i (slot_count p) && leaf_key_at p i == key then some (value_at p i) else none

-- The new root above the two halves of the old one.
unfoldable pub new_root : ℕ → ℕ → Split → Page
new_root id old split =
    let p = set_key_at (init_internal zeroes id) 0 split.sep_key in
    set_slot_count (set_child_at (set_child_at p 0 old) 1 split.right) 1

module _ {S : Type 0} (store : PageStore S) where
  unfoldable pub search_from : ℕ → S → ℕ → ℕ → Outcome (S × Option ℕ)
  unfolding search_leaf
  search_from zero s id key = fail "out of fuel"
  search_from (suc fuel) s id key = do
    (s', p) ← store.read_page s id
    elim (is_leaf p) [
      | true ↦ ok (s', search_leaf p key)
      | false ↦ search_from fuel s' (child_at p (child_index_for p key)) key
    ]

  unfoldable pub search : ℕ → S → Tree → ℕ → Outcome (S × Option ℕ)
  unfolding search_from
  search fuel s t key = do
    check_that t.unique "search() names one entry; a non-unique tree is read with seek()"
    search_from fuel s t.root key

  unfoldable pub height_from : ℕ → S → ℕ → Outcome (S × ℕ)
  height_from zero s id = fail "out of fuel"
  height_from (suc fuel) s id = do
    (s', p) ← store.read_page s id
    elim (is_leaf p) [
      | true ↦ ok (s', 1)
      | false ↦ do (s'', levels) ← height_from fuel s' (child_at p 0); ok (s'', levels + 1)
    ]

module _ {S : Type 0} (store : PageStore S) (persist : S → ℕ → Outcome S) where
  -- The constructors: `root` is the tree's last known root.
  unfoldable pub open_tree : S → ℕ → Bool → Outcome (S × Tree)
  open_tree s root unique =
      if root == null_page
      then (do
        (s1, id) ← store.allocate_page s
        s2 ← store.write_page s1 id (init_leaf zeroes id)
        s3 ← persist s2 id
        ok (s3, record { root = id; unique = unique }))
      else ok (s, record { root = root; unique = unique })

  unfoldable pub insert_leaf : S → Bool → ℕ → Page → ℕ → ℕ → Bool → Outcome (S × Inserted)
  unfolding split_leaf entry_place
  insert_leaf s unique id p key value overwrite =
      let i = lower_bound p key in
      if unique && ltb i (slot_count p) && leaf_key_at p i == key
      then (do
        s' ← if overwrite then store.write_page s id (set_value_at p i value) else ok s
        ok (s', record { split = none; inserted = false }))
      else if not (leaf_is_full p)
      then (do
        s' ← store.write_page s id (insert_at p (entry_place unique p key) key value)
        ok (s', record { split = none; inserted = true }))
      else do
        (s1, right_id) ← store.allocate_page s
        let halves = split_leaf unique p right_id key value
        s2 ← store.write_page s1 id halves.0
        s3 ← store.write_page s2 right_id halves.1
        ok (
          s3,
          record {
            split = some (record { sep_key = leaf_key_at halves.1 0; right = right_id });
            inserted = true;
          },
        )

  -- An internal node behind the insertion into its child `ci`.
  unfoldable pub absorb : S → ℕ → Page → ℕ → Inserted → Outcome (S × Inserted)
  unfolding split_internal route
  absorb s id node ci below = elim below.split [
    | none ↦ ok (s, below)
    | some up ↦
        if not (internal_is_full node)
        then (do
          s' ← store.write_page s id (insert_child_at node ci up.sep_key up.right)
          ok (s', record { split = none; inserted = below.inserted }))
        else do
          (s1, right_id) ← store.allocate_page s
          let (left, right, median) = split_internal node right_id
          let halves = route left right median up
          s2 ← store.write_page s1 id halves.0
          s3 ← store.write_page s2 right_id halves.1
          ok (
            s3,
            record {
              split = some (record { sep_key = median; right = right_id });
              inserted = below.inserted;
            },
          )
  ]

  unfoldable pub insert_rec : ℕ → S → Bool → ℕ → ℕ → ℕ → Bool → Outcome (S × Inserted)
  unfolding insert_leaf absorb
  insert_rec zero s unique id key value overwrite = fail "out of fuel"
  insert_rec (suc fuel) s unique id key value overwrite = do
    (s', p) ← store.read_page s id
    elim (is_leaf p) [
      | true ↦ insert_leaf s' unique id p key value overwrite
      | false ↦ do
        let ci = child_index_for p key
        (s'', below) ← insert_rec fuel s' unique (child_at p ci) key value overwrite
        absorb s'' id p ci below
    ]

  unfoldable pub insert_with : ℕ → S → Tree → ℕ → ℕ → Bool → Outcome (S × Tree × Bool)
  unfolding insert_rec new_root
  insert_with fuel s t key value overwrite = do
    (s', r) ← insert_rec fuel s t.unique t.root key value overwrite
    elim r.split [
      | none ↦ ok (s', t, r.inserted)
      | some split ↦ do
        (s1, id) ← store.allocate_page s'
        s2 ← store.write_page s1 id (new_root id t.root split)
        s3 ← persist s2 id
        ok (s3, record t { root = id }, r.inserted)
    ]

  unfoldable pub insert : ℕ → S → Tree → ℕ → ℕ → Outcome (S × Tree × Bool)
  unfolding insert_with
  insert fuel s t key value = insert_with fuel s t key value true

  unfoldable pub insert_new : ℕ → S → Tree → ℕ → ℕ → Outcome (S × Tree × Bool)
  unfolding insert_with
  insert_new fuel s t key value = insert_with fuel s t key value false
