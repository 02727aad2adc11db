-- ===== src/Btree/Cursors.antt =====
-- src/btree.hpp, src/btree.cpp: cursors, which walk the leaves by their links.
use labdb.Prelude.{
  ℕ, zero, suc, ◌+◌, ◌-◌, Bool, true, false, if◌then◌else◌, ◌==◌, ltb, Outcome, ok, fail, ◌>>=◌,
}
use labdb.Page.{Page, null_page, slot_count, next_page}
use labdb.PageStore.{PageStore}
use labdb.Btree.{leaf_key_at, value_at, lower_bound, child_at, child_index_for, first_child_for}
use labdb.Btree.Tree.{Tree, is_leaf}

pub record Cursor : Type 0 where
  pub leaf : Page
  pub leaf_id : ℕ
  pub idx : ℕ
  pub valid : Bool
  pub key : ℕ
  pub value : ℕ

abbrev pub rightmost_child : Page → ℕ → ℕ
rightmost_child p k = child_index_for p k

abbrev pub leftmost_child : Page → ℕ → ℕ
leftmost_child p k = first_child_for p k

-- A cursor as it is made, at an entry of a leaf.
abbrev pub cursor_at : Page → ℕ → ℕ → Cursor
cursor_at leaf id idx = record {
  leaf = leaf;
  leaf_id = id;
  idx = idx;
  valid = false;
  key = 0;
  value = 0;
}

module _ {S : Type 0} (store : PageStore S) where
  -- The walk goes on while leaves are empty, on fuel.
  unfoldable pub settle : ℕ → S → Cursor → Outcome (S × Cursor)
  settle zero s c = fail "out of fuel"
  settle (suc fuel) s c =
      let id = next_page c.leaf in
      elim (c.leaf_id == null_page) [
        | true ↦ ok (s, record c { valid = false })
        | false ↦ elim (ltb c.idx (slot_count c.leaf)) [
          | true ↦ ok (
            s,
            record c {
              key = leaf_key_at c.leaf c.idx;
              value = value_at c.leaf c.idx;
              valid = true;
            },
          )
          | false ↦ elim (id == null_page) [
            | true ↦ ok (s, record c { leaf_id = id; valid = false })
            | false ↦ do
              (s', p) ← store.read_page s id
              settle fuel s' (record c { leaf = p; leaf_id = id; idx = 0 })
          ]
        ]
      ]

  unfoldable pub next : ℕ → S → Cursor → Outcome (S × Cursor)
  unfolding settle
  next fuel s c = settle fuel s (record c { idx = c.idx + 1 })

  -- The leaf that a rule for children leads to.
  unfoldable pub descend : ℕ → S → (Page → ℕ) → ℕ → Outcome (S × ℕ × Page)
  descend zero s rule id = fail "out of fuel"
  descend (suc fuel) s rule id = do
    (s', p) ← store.read_page s id
    elim (is_leaf p) [ true ↦ ok (s', id, p) | false ↦ descend fuel s' rule (child_at p (rule p)) ]

  unfoldable pub seek_by : ℕ → S → Tree → ℕ → (Page → ℕ → ℕ) → Outcome (S × Cursor)
  unfolding descend settle
  seek_by fuel s t lo rule = do
    (s', id, p) ← descend fuel s (λ p. rule p lo) t.root
    settle fuel s' (cursor_at p id (lower_bound p lo))

  unfoldable pub seek : ℕ → S → Tree → ℕ → Outcome (S × Cursor)
  unfolding seek_by
  seek fuel s t lo = seek_by fuel s t lo (if t.unique then rightmost_child else leftmost_child)

  unfoldable pub last : ℕ → S → Tree → Outcome (S × Cursor)
  unfolding descend settle
  last fuel s t = do
    (s', id, p) ← descend fuel s (λ p. slot_count p) t.root
    settle fuel s' (cursor_at p id (slot_count p - 1))
