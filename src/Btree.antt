-- ===== src/Btree.antt =====
-- src/btree.hpp: the two shapes of a node. An index is a `uint16_t` that no operation carries past the
-- node's capacity, so its sums are written without a wrap-around.
pub mod Bounds
pub mod Indexed
pub mod Leaves
pub mod Tree
pub mod Erase
pub mod Cursors
pub mod Branches
pub mod Shape
pub mod Search
pub mod LeafInsert
pub mod Grown
pub mod Pieces
pub mod Descend
pub mod SplitChild
pub mod Runs
pub mod NodeSplit
pub mod Halved
pub mod Separate
pub mod Absorb
pub mod Insert
pub mod Root
pub mod Fresh
pub mod Height
pub mod InsertLeaf
pub mod LeafSplit
use labdb.Prelude.{ℕ, zero, suc, ◌+◌, ◌-◌, ◌*◌, ◌/◌, Bool, true, false, if◌then◌else◌, leb, ltb}
use labdb.Common.{memcpy, load_u32, load_u64, store_u32, store_u64}
use labdb.Page.{
  Page, PageType, page_size, page_header_size, null_page, set_id, set_type, slot_count,
  set_slot_count, next_page, set_next_page,
}

abbrev pub leaf_entry_size : ℕ
leaf_entry_size = 16

abbrev pub leaf_max_entries : ℕ
leaf_max_entries = (page_size - page_header_size) / leaf_entry_size

abbrev pub leaf_min_entries : ℕ
leaf_min_entries = leaf_max_entries / 2

abbrev pub internal_max_keys : ℕ
internal_max_keys = 339

abbrev pub internal_min_keys : ℕ
internal_min_keys = internal_max_keys / 2

abbrev pub internal_key_base : ℕ
internal_key_base = page_header_size

abbrev pub internal_child_base : ℕ
internal_child_base = internal_key_base + internal_max_keys * 8

-- The loop of the binary searches: `right mid` tells whether the bound lies behind `mid`. Each round
-- takes an index off the range at least.
unfoldable pub bound_loop : (ℕ → Bool) → ℕ → ℕ → ℕ → ℕ
bound_loop right zero lo hi = lo
bound_loop right (suc fuel) lo hi =
    let mid = (lo + hi) / 2 in
    elim (ltb lo hi) [
      | false ↦ lo
      | true ↦ elim (right mid) [
        | true ↦ bound_loop right fuel (mid + 1) hi
        | false ↦ bound_loop right fuel lo mid
      ]
    ]

-- LeafNode

unfoldable pub init_leaf : Page → ℕ → Page
init_leaf p id =
    set_next_page (set_slot_count (set_type (set_id p id) PageType.btree_leaf) 0) null_page

abbrev pub base : ℕ → ℕ
base i = page_header_size + i * leaf_entry_size

abbrev pub leaf_is_full : Page → Bool
leaf_is_full p = leb leaf_max_entries (slot_count p)

abbrev pub leaf_key_at : Page → ℕ → ℕ
leaf_key_at p i = load_u64 p (base i)

abbrev pub value_at : Page → ℕ → ℕ
value_at p i = load_u64 p (base i + 8)

unfoldable pub set_value_at : Page → ℕ → ℕ → Page
set_value_at p i v = store_u64 p (base i + 8) v

unfoldable pub lower_bound : Page → ℕ → ℕ
unfolding bound_loop
lower_bound p k = bound_loop (λ mid. ltb (leaf_key_at p mid) k) (slot_count p) 0 (slot_count p)

unfoldable pub upper_bound : Page → ℕ → ℕ
unfolding bound_loop
upper_bound p k = bound_loop (λ mid. leb (leaf_key_at p mid) k) (slot_count p) 0 (slot_count p)

-- The caller ensures that the leaf is not full, so that the entry lies inside of the page.
unfoldable pub insert_at : Page → ℕ → ℕ → ℕ → Page
insert_at p i k v =
    let n = slot_count p in
    let q = memcpy p (base (i + 1)) p (base i) ((n - i) * leaf_entry_size) in
    set_slot_count (store_u64 (store_u64 q (base i) k) (base i + 8) v) (n + 1)

-- The leaf cut at `from`, and `r` with the entries behind.
unfoldable pub move_suffix_to : Page → Page → ℕ → Page × Page
move_suffix_to p r from =
    let moved = slot_count p - from in
    (
      set_slot_count p from,
      set_slot_count (memcpy r (base 0) p (base from) (moved * leaf_entry_size)) moved,
    )

abbrev pub leaf_is_underflow : Page → Bool
leaf_is_underflow p = ltb (slot_count p) leaf_min_entries

unfoldable pub erase_at : Page → ℕ → Page
erase_at p i =
    let n = slot_count p in
    set_slot_count (memcpy p (base i) p (base (i + 1)) ((n - i - 1) * leaf_entry_size)) (n - 1)

unfoldable pub append_from : Page → Page → Page
append_from p r =
    let n = slot_count p in
    let m = slot_count r in
    set_slot_count (memcpy p (base n) r (base 0) (m * leaf_entry_size)) (n + m)

-- InternalNode

unfoldable pub init_internal : Page → ℕ → Page
init_internal p id =
    set_next_page (set_slot_count (set_type (set_id p id) PageType.btree_internal) 0) null_page

abbrev pub internal_is_full : Page → Bool
internal_is_full p = leb internal_max_keys (slot_count p)

abbrev pub key_at : Page → ℕ → ℕ
key_at p i = load_u64 p (internal_key_base + i * 8)

unfoldable pub set_key_at : Page → ℕ → ℕ → Page
set_key_at p i k = store_u64 p (internal_key_base + i * 8) k

abbrev pub child_at : Page → ℕ → ℕ
child_at p i = load_u32 p (internal_child_base + i * 4)

unfoldable pub set_child_at : Page → ℕ → ℕ → Page
set_child_at p i c = store_u32 p (internal_child_base + i * 4) c

unfoldable pub child_index_for : Page → ℕ → ℕ
unfolding bound_loop
child_index_for p k = bound_loop (λ mid. leb (key_at p mid) k) (slot_count p) 0 (slot_count p)

unfoldable pub first_child_for : Page → ℕ → ℕ
unfolding bound_loop
first_child_for p k = bound_loop (λ mid. ltb (key_at p mid) k) (slot_count p) 0 (slot_count p)

-- for (i = lo + left; i > lo; --i) set_key_at(i, key_at(i - 1))
unfoldable pub shift_keys_right : Page → ℕ → ℕ → Page
unfolding set_key_at
shift_keys_right p lo zero = p
shift_keys_right p lo (suc left) =
    shift_keys_right (set_key_at p (lo + left + 1) (key_at p (lo + left))) lo left

unfoldable pub shift_children_right : Page → ℕ → ℕ → Page
unfolding set_child_at
shift_children_right p lo zero = p
shift_children_right p lo (suc left) =
    shift_children_right (set_child_at p (lo + left + 1) (child_at p (lo + left))) lo left

-- for (left more indexes from i on) set_key_at(i, key_at(i + 1))
unfoldable pub shift_keys_left : Page → ℕ → ℕ → Page
unfolding set_key_at
shift_keys_left p i zero = p
shift_keys_left p i (suc left) = shift_keys_left (set_key_at p i (key_at p (i + 1))) (i + 1) left

unfoldable pub shift_children_left : Page → ℕ → ℕ → Page
unfolding set_child_at
shift_children_left p i zero = p
shift_children_left p i (suc left) =
    shift_children_left (set_child_at p i (child_at p (i + 1))) (i + 1) left

unfoldable pub insert_child_at : Page → ℕ → ℕ → ℕ → Page
unfolding shift_keys_right shift_children_right set_key_at set_child_at
insert_child_at p ki k c =
    let n = slot_count p in
    let q = shift_children_right (shift_keys_right p ki (n - ki)) (ki + 1) (n - ki) in
    set_slot_count (set_child_at (set_key_at q ki k) (ki + 1) c) (n + 1)

abbrev pub internal_is_underflow : Page → Bool
internal_is_underflow p = ltb (slot_count p) internal_min_keys

unfoldable pub erase_key_child_at : Page → ℕ → Page
unfolding shift_keys_left shift_children_left
erase_key_child_at p ki =
    let n = slot_count p in
    set_slot_count (shift_children_left (shift_keys_left p ki (n - 1 - ki)) (ki + 1) (n - (ki + 1)))
      (n - 1)

unfoldable pub prepend_child_key : Page → ℕ → ℕ → Page
unfolding shift_keys_right shift_children_right set_key_at set_child_at
prepend_child_key p k c =
    let n = slot_count p in
    let q = shift_children_right (shift_keys_right p 0 n) 0 (n + 1) in
    set_slot_count (set_child_at (set_key_at q 0 k) 0 c) (n + 1)

unfoldable pub append_child_key : Page → ℕ → ℕ → Page
unfolding set_key_at set_child_at
append_child_key p k c =
    let n = slot_count p in set_slot_count (set_child_at (set_key_at p n k) (n + 1) c) (n + 1)

unfoldable pub erase_front : Page → Page
unfolding shift_keys_left shift_children_left
erase_front p =
    let n = slot_count p in
    set_slot_count (shift_children_left (shift_keys_left p 0 (n - 1)) 0 n) (n - 1)
