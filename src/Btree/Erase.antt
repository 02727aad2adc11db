-- ===== src/Btree/Erase.antt =====
-- src/btree.cpp: deletion, with its borrowing and merging.
use labdb.Prelude.{
  ℕ, zero, suc, ◌+◌, ◌-◌, Bool, true, false, ◌&&◌, not, if◌then◌else◌, ◌==◌, ltb, Outcome, ok, fail,
  check_that, ◌>>=◌, ◌>>◌,
}
use labdb.Page.{
  Page, PageType, page_type_code, type_code, slot_count, set_slot_count, next_page, set_next_page,
}
use labdb.PageStore.{PageStore}
use labdb.Btree.{
  leaf_min_entries, internal_min_keys, leaf_key_at, value_at, lower_bound, insert_at,
  leaf_is_underflow, erase_at, append_from, key_at, set_key_at, child_at, child_index_for,
  internal_is_underflow, erase_key_child_at, prepend_child_key, append_child_key, erase_front,
}
use labdb.Btree.Tree.{Tree, is_leaf, merge_internal}

-- Whether a sibling can give an entry away.
abbrev pub can_spare : Bool → Page → Bool
can_spare leaf p = ltb (if leaf then leaf_min_entries else internal_min_keys) (slot_count p)

-- The sibling, the child and the parent's separator behind a loan.
pub record Loan : Type 0 where
  pub sibling : Page
  pub child : Page
  pub sep : ℕ

-- From the left sibling `l`: its last entry, or its last child by way of the parent.
unfoldable pub borrow_left : Bool → Page → Page → ℕ → Loan
borrow_left true l c sep =
    let li = slot_count l - 1 in
    let c' = insert_at c 0 (leaf_key_at l li) (value_at l li) in
    record { sibling = erase_at l li; child = c'; sep = leaf_key_at c' 0 }
borrow_left false l c sep =
    let lc = slot_count l in
    record {
      sibling = set_slot_count l (lc - 1);
      child = prepend_child_key c sep (child_at l lc);
      sep = key_at l (lc - 1);
    }

-- From the right sibling `r`: its first entry, or its first child.
unfoldable pub borrow_right : Bool → Page → Page → ℕ → Loan
borrow_right true r c sep =
    let r' = erase_at r 0 in
    record {
      sibling = r';
      child = insert_at c (slot_count c) (leaf_key_at r 0) (value_at r 0);
      sep = leaf_key_at r' 0;
    }
borrow_right false r c sep = record {
  sibling = erase_front r;
  child = append_child_key c sep (child_at r 0);
  sep = key_at r 0;
}

-- The node `l` with the node `r` on its right merged into it.
unfoldable pub merge : Bool → Page → ℕ → Page → Page
unfolding merge_internal
merge true l sep r = set_next_page (append_from l r) (next_page r)
merge false l sep r = merge_internal l sep r

module _ {S : Type 0} (store : PageStore S) (persist : S → ℕ → Outcome S) where
  -- The merge of the children `si` and `si + 1` of the parent, which are `l` and `r`.
  unfoldable pub merge_children : S → Page → ℕ → Bool → Page → Page → Outcome (S × Page)
  unfolding merge
  merge_children s parent si leaf l r = do
    s1 ← store.write_page s (child_at parent si) (merge leaf l (key_at parent si) r)
    s2 ← store.free_page s1 (child_at parent (si + 1))
    ok (s2, erase_key_child_at parent si)

  -- Neither sibling can spare an entry.
  unfoldable pub merge_child : S → Page → ℕ → Bool → Page → Outcome (S × Page)
  unfolding merge_children
  merge_child s parent ci leaf c =
      if ltb 0 ci
      then (do
        (s', l) ← store.read_page s (child_at parent (ci - 1))
        merge_children s' parent (ci - 1) leaf l c)
      else do
        (s', r) ← store.read_page s (child_at parent (ci + 1))
        merge_children s' parent ci leaf c r

  unfoldable pub try_right : S → Page → ℕ → Bool → Page → Outcome (S × Page)
  unfolding borrow_right merge_child
  try_right s parent ci leaf c =
      if ltb ci (slot_count parent)
      then (do
        (s1, r) ← store.read_page s (child_at parent (ci + 1))
        let loan = borrow_right leaf r c (key_at parent ci)
        if can_spare leaf r
            then (do
              s2 ← store.write_page s1 (child_at parent ci) loan.child
              s3 ← store.write_page s2 (child_at parent (ci + 1)) loan.sibling
              ok (s3, set_key_at parent ci loan.sep))
            else merge_child s1 parent ci leaf c)
      else merge_child s parent ci leaf c

  -- The parent repaired around its child `ci`, which the caller writes.
  unfoldable pub fix_child_underflow : S → Page → ℕ → Outcome (S × Page)
  unfolding borrow_left try_right
  fix_child_underflow s parent ci = do
    (s0, c) ← store.read_page s (child_at parent ci)
    let leaf = is_leaf c
    if ltb 0 ci
        then (do
          (s1, l) ← store.read_page s0 (child_at parent (ci - 1))
          let loan = borrow_left leaf l c (key_at parent (ci - 1))
          if can_spare leaf l
              then (do
                s2 ← store.write_page s1 (child_at parent (ci - 1)) loan.sibling
                s3 ← store.write_page s2 (child_at parent ci) loan.child
                ok (s3, set_key_at parent (ci - 1) loan.sep))
              else try_right s1 parent ci leaf c)
        else try_right s0 parent ci leaf c

  -- Whether the key was there, and whether the node is too small now.
  unfoldable pub erase_rec : ℕ → S → ℕ → ℕ → Outcome (S × Bool × Bool)
  unfolding fix_child_underflow
  erase_rec zero s id key = fail "out of fuel"
  erase_rec (suc fuel) s id key = do
    (s0, p) ← store.read_page s id
    elim (is_leaf p) [
      | true ↦
          let i = lower_bound p key in
          let q = erase_at p i in
          if ltb i (slot_count p) && leaf_key_at p i == key
          then (do s1 ← store.write_page s0 id q; ok (s1, true, leaf_is_underflow q))
          else ok (s0, false, false)
      | false ↦ do
        let ci = child_index_for p key
        (s1, found, underflow) ← erase_rec fuel s0 (child_at p ci) key
        if not found then ok (s1, false, internal_is_underflow p) else do
          (s2, q) ← if underflow then fix_child_underflow s1 p ci else ok (s1, p)
          s3 ← store.write_page s2 id q
          ok (s3, true, internal_is_underflow q)
    ]

  -- The root gives way to its only child.
  unfoldable pub collapse : S → Tree → Outcome (S × Tree)
  collapse s t = do
    (s1, p) ← store.read_page s t.root
    let only = child_at p 0
    if type_code p == page_type_code PageType.btree_internal && slot_count p == 0
        then (do
          s2 ← store.free_page s1 t.root
          s3 ← persist s2 only
          ok (s3, record t { root = only }))
        else ok (s1, t)

  unfoldable pub erase : ℕ → S → Tree → ℕ → Outcome (S × Tree × Bool)
  unfolding erase_rec collapse
  erase fuel s t key = do
    check_that t.unique "erase() on a non-unique tree (no statement deletes a row yet)"
    (s1, found, underflow) ← erase_rec fuel s t.root key
    if not found then ok (s1, t, false) else do (s2, t') ← collapse s1 t; ok (s2, t', true)
