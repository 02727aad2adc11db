-- ===== src/Btree/Runs.antt =====
-- Pages with a run of the separators and trees, behind the steps of an insertion.
use labdb.Prelude.{
  ℕ, zero, suc, ◌+◌, ◌-◌, ◌*◌, ◌≤◌, ◌<◌, ◌^◌, ◌≡◌, ◌⊎◌, inl, inr, refl, arith, ap, sym, ◌∙◌, ◌==◌,
  Bool-cases,
}
use labdb.Common.{load}
use labdb.Common.Fields.{load-store_apart, load-store_self}
use labdb.Page.{Page, slot_count}
use labdb.Btree.{internal_max_keys, key_at, child_at, set_key_at, set_child_at, insert_child_at}
use labdb.Btree.Branches.{
  header-insert_child_at, count-insert_child_at, key_before, key_here, key_after, child_before,
  child_here, child_after,
}
use labdb.Btree.Tree.{copy_pairs}
use labdb.Btree.Pieces.{Run}
use labdb.Btree.Descend.{
  before, first, second, after, origin, keys_with, ids_with, key-before, key-first, key-after,
  id-before, id-second, id-after,
}

module _ (p : Page) (keys ids : ℕ → ℕ) (from m c sep right : ℕ) (run : Run p keys ids from m) where
  -- A run with one more separator, which the node takes.
  pub Run-insert_child_at :
      m < internal_max_keys
      → c ≤ m
      → sep < 2 ^ 64
      → right < 2 ^ 32
      → ((i : ℕ) → i < m → keys (from + i) < 2 ^ 64)
      → ((i : ℕ) → i ≤ m → ids (from + i) < 2 ^ 32)
      → Run
          (insert_child_at p c sep right)
          (keys_with keys (from + c) sep)
          (ids_with ids (from + c) right)
          from
          (m + 1)
  Run-insert_child_at room at key child big small =
      let n = run.count in
      let r : slot_count p < internal_max_keys = omega (arith, n) in
      let a : c ≤ slot_count p = omega (arith, n) in
      let ks : (i : ℕ) → i < slot_count p → key_at p i < 2 ^ 64 =
        λ i u. omega (arith, run.key i (omega (arith, n)), big i (omega (arith, n))) in
      let cs : (i : ℕ) → i ≤ slot_count p → child_at p i < 2 ^ 32 =
        λ i u. omega (arith, run.child i (omega (arith, n)), small i (omega (arith, n))) in
      record {
        node =
            ap (λ (t : ℕ). t == 4)
              (header-insert_child_at p c sep right r a key child ks cs 2 4 (omega arith))
            ∙ run.node;
        count = count-insert_child_at p c sep right r a key child ks cs ∙ omega (arith, n);
        fits = omega arith;
        key = λ i u. elim (origin c i) [
          | before b ↦
              key_before p c sep right r a key child ks cs i b
              ∙ run.key i (omega arith)
              ∙ sym (key-before keys (from + c) sep (from + i) (omega arith))
          | first b ↦
              ap (key_at (insert_child_at p c sep right)) b
              ∙ key_here p c sep right r a key child ks cs
              ∙ sym (key-first keys (from + c) sep (from + i) (omega arith))
          | second b ↦
              key_after p c sep right r a key child ks cs i (omega arith) (omega (arith, n))
              ∙ run.key (i - 1) (omega arith)
              ∙ ap keys (omega arith)
              ∙ sym (key-after keys (from + c) sep (from + i) (omega arith))
          | after b ↦
              key_after p c sep right r a key child ks cs i (omega arith) (omega (arith, n))
              ∙ run.key (i - 1) (omega arith)
              ∙ ap keys (omega arith)
              ∙ sym (key-after keys (from + c) sep (from + i) (omega arith))
        ];
        child = λ i u. elim (origin c i) [
          | before b ↦
              child_before p c sep right r a key child ks cs i (omega arith)
              ∙ run.child i (omega arith)
              ∙ sym (id-before ids (from + c) right (from + i) (omega arith))
          | first b ↦
              child_before p c sep right r a key child ks cs i (omega arith)
              ∙ run.child i (omega arith)
              ∙ sym (id-before ids (from + c) right (from + i) (omega arith))
          | second b ↦
              ap (child_at (insert_child_at p c sep right)) b
              ∙ child_here p c sep right r a key child ks cs
              ∙ sym (id-second ids (from + c) right (from + i) (omega arith))
          | after b ↦
              child_after p c sep right r a key child ks cs i b (omega (arith, n))
              ∙ run.child (i - 1) (omega arith)
              ∙ ap ids (omega arith)
              ∙ sym (id-after ids (from + c) right (from + i) (omega arith))
        ];
      }

  -- A run before the new separator, and one behind it.
  pub Run-before : from + m ≤ c → Run p (keys_with keys c sep) (ids_with ids c right) from m
  Run-before h = record {
    node = run.node;
    count = run.count;
    fits = run.fits;
    key = λ i u. run.key i u ∙ sym (key-before keys c sep (from + i) (omega arith));
    child = λ i u. run.child i u ∙ sym (id-before ids c right (from + i) (omega arith));
  }

  pub Run-behind : c < from → Run p (keys_with keys c sep) (ids_with ids c right) (from + 1) m
  Run-behind h = record {
    node = run.node;
    count = run.count;
    fits = run.fits;
    key = λ i u.
        run.key i u
        ∙ ap keys (omega arith)
        ∙ sym (key-after keys c sep (from + 1 + i) (omega arith));
    child = λ i u.
        run.child i u
        ∙ ap ids (omega arith)
        ∙ sym (id-after ids c right (from + 1 + i) (omega arith));
  }

-- The loop of a split copies keys and children, and nothing else.
pub copy_pairs-apart :
    (node : Page) (from left : ℕ) (right : Page) (r w o : ℕ)
    → r + left ≤ internal_max_keys
    → (o + w ≤ 20 + r * 8)
      ⊎ ((20 + (r + left) * 8 ≤ o) × ((o + w ≤ 2732 + r * 4) ⊎ (2732 + (r + left) * 4 ≤ o)))
    → load w (copy_pairs node from left right r) o ≡ load w right o
unfolding copy_pairs set_key_at set_child_at
copy_pairs-apart node from zero right r w o fits h = refl
copy_pairs-apart node from (suc left) right r w o fits h =
    let q = set_key_at right r (key_at node from) in
    copy_pairs-apart node (from + 1) left (set_child_at q r (child_at node from)) (r + 1) w o
      (omega arith) (omega arith)
    ∙ load-store_apart 4 q (2732 + r * 4) (child_at node from) w o (omega arith)
    ∙ load-store_apart 8 right (20 + r * 8) (key_at node from) w o (omega arith)

pub copy_pairs-inside :
    (node : Page) (from left : ℕ) (right : Page) (r i : ℕ)
    → r + left ≤ internal_max_keys
    → ((j : ℕ) → from ≤ j → j < from + left → (key_at node j < 2 ^ 64) × (child_at node j < 2 ^ 32))
    → i < left
    → (key_at (copy_pairs node from left right r) (r + i) ≡ key_at node (from + i))
      × (child_at (copy_pairs node from left right r) (r + i) ≡ child_at node (from + i))
unfolding copy_pairs set_key_at set_child_at
copy_pairs-inside node from zero right r i fits small u = absurd (omega arith)
copy_pairs-inside node from (suc left) right r i fits small u =
    let k = key_at node from in
    let c = child_at node from in
    let q = set_key_at right r k in
    let q' = set_child_at q r c in
    let (key, child) = small from (omega arith) (omega arith) in
    elim (Bool-cases (i == 0)) [
      | inl e ↦ (
        copy_pairs-apart node (from + 1) left q' (r + 1) 8 (20 + (r + i) * 8) (omega arith)
              (ground arith)
            ∙ ap (key_at q') {x = r + i} {y = r} (ground arith)
            ∙ load-store_apart 4 q (2732 + r * 4) c 8 (20 + r * 8) (omega arith)
            ∙ load-store_self 8 right (20 + r * 8) k (omega arith)
            ∙ ap (key_at node) (ground arith),
        copy_pairs-apart node (from + 1) left q' (r + 1) 4 (2732 + (r + i) * 4) (omega arith)
              (ground arith)
            ∙ ap (child_at q') {x = r + i} {y = r} (ground arith)
            ∙ load-store_self 4 q (2732 + r * 4) c (omega arith)
            ∙ ap (child_at node) (ground arith),
      )
      | inr e ↦
          let p = copy_pairs node (from + 1) left q' (r + 1) in
          let (a, b) =
            copy_pairs-inside node (from + 1) left q' (r + 1) (i - 1) (omega arith)
              (λ j l v. small j (omega arith) (omega arith)) (ground arith) in
          (
            ap (key_at p) {x = r + i} {y = r + 1 + (i - 1)} (ground arith)
                ∙ a
                ∙ ap (key_at node) (ground arith),
            ap (child_at p) {x = r + i} {y = r + 1 + (i - 1)} (ground arith)
                ∙ b
                ∙ ap (child_at node) (ground arith),
          )
    ]
