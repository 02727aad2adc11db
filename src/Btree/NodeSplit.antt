-- ===== src/Btree/NodeSplit.antt =====
-- The split of a full internal node, with the new separator in one of its halves.
use labdb.Prelude.{
  ℕ, ◌+◌, ◌-◌, ◌*◌, ◌≤◌, ◌<◌, ◌^◌, ◌≡◌, ◌⊎◌, inl, inr, refl, arith, ap, subst, ◌∙◌, ◌==◌, ltb,
  Bool-cases,
}
use labdb.Common.{load, zeroes}
use labdb.Common.Fields.{load-store_apart, load-store_self}
use labdb.Page.{Page, slot_count, set_slot_count, id, type_code}
use labdb.Btree.{
  internal_max_keys, key_at, child_at, set_child_at, init_internal, insert_child_at,
  child_index_for,
}
use labdb.Btree.Bounds.{child-bounds}
use labdb.Btree.Branches.{header-insert_child_at}
use labdb.Btree.Tree.{Split, copy_pairs, split_internal, route}
use labdb.Btree.Shape.{IsStrict, IsStrict-IsSorted, IsNode}
use labdb.Btree.Pieces.{Run}
use labdb.Btree.Descend.{keys_with, ids_with, key-before, key-after}
use labdb.Btree.Runs.{
  Run-insert_child_at, Run-before, Run-behind, copy_pairs-apart, copy_pairs-inside,
}

module _ (q : Page) (n lo hi rid : ℕ) (h : IsNode q n lo hi)
    (full : slot_count q ≡ internal_max_keys) (named : rid < 2 ^ 32) (top : hi ≤ 2 ^ 64) where
  pub left : Page
  left = set_slot_count q 169

  copied : Page
  copied = copy_pairs q 170 169 (init_internal zeroes rid) 0

  pub right : Page
  right = set_slot_count (set_child_at copied 169 (child_at q 339)) 169

  pub split_internal-halves : split_internal q rid ≡ (left, right, key_at q 169)
  unfolding split_internal left right copied
  split_internal-halves = rw full refl

  left-Run : Run left (key_at q) (child_at q) 0 169
  unfolding left
  left-Run = record {
    node = ap (λ (t : ℕ). t == 4) (load-store_apart 2 q 6 169 2 4 (omega arith)) ∙ h.node;
    count = load-store_self 2 q 6 169 (omega arith);
    fits = omega arith;
    key = λ i u.
        load-store_apart 2 q 6 169 8 (20 + i * 8) (omega arith) ∙ ap (key_at q) (omega arith);
    child = λ i u.
        load-store_apart 2 q 6 169 4 (2732 + i * 4) (omega arith) ∙ ap (child_at q) (omega arith);
  }

  left-id : id left ≡ n
  unfolding left
  left-id = load-store_apart 2 q 6 169 4 0 (omega arith) ∙ h.self

  small : (j : ℕ) → j < internal_max_keys → (key_at q j < 2 ^ 64) × (child_at q j < 2 ^ 32)
  small j u = (omega (arith, h.high j (omega (arith, full)), top), h.ids j (omega (arith, full)))

  field-right :
      (w o : ℕ)
      → (o + w ≤ 6) ⊎ ((8 ≤ o) × (o + w ≤ 2732 + 169 * 4))
      → load w right o ≡ load w copied o
  unfolding right set_child_at
  field-right w o a =
      load-store_apart 2 _ 6 169 w o (omega arith)
      ∙ load-store_apart 4 copied (2732 + 169 * 4) (child_at q 339) w o (omega arith)

  header_copied : (w o : ℕ) → o + w ≤ 6 → load w copied o ≡ load w (init_internal zeroes rid) o
  unfolding copied
  header_copied w o a =
      copy_pairs-apart q 170 169 (init_internal zeroes rid) 0 w o (omega arith) (omega arith)

  right-id : id right ≡ rid
  unfolding init_internal
  right-id =
      field-right 4 0 (omega arith)
      ∙ header_copied 4 0 (omega arith)
      ∙ load-store_apart 4 _ 16 0 4 0 (omega arith)
      ∙ load-store_apart 2 _ 6 0 4 0 (omega arith)
      ∙ load-store_apart 2 _ 4 5 4 0 (omega arith)
      ∙ load-store_self 4 zeroes 0 rid (omega (arith, named))

  right-type : type_code right ≡ 5
  unfolding init_internal
  right-type =
      field-right 2 4 (omega arith)
      ∙ header_copied 2 4 (omega arith)
      ∙ load-store_apart 4 _ 16 0 2 4 (omega arith)
      ∙ load-store_apart 2 _ 6 0 2 4 (omega arith)
      ∙ load-store_self 2 _ 4 5 (omega arith)

  pair_copied :
      (i : ℕ)
      → i < 169
      → (key_at copied (0 + i) ≡ key_at q (170 + i))
        × (child_at copied (0 + i) ≡ child_at q (170 + i))
  unfolding copied
  pair_copied i u =
      copy_pairs-inside q 170 169 (init_internal zeroes rid) 0 i (omega arith)
        (λ j a b. small j (omega arith)) u

  right-Run : Run right (key_at q) (child_at q) 170 169
  unfolding right set_child_at
  right-Run = record {
    node = (let e = right-type in ground arith);
    count = load-store_self 2 _ 6 169 (omega arith);
    fits = omega arith;
    key = λ i u.
        field-right 8 (20 + i * 8) (omega arith)
        ∙ ap (key_at copied) (omega arith)
        ∙ (pair_copied i u).0;
    child = λ i u. elim (Bool-cases (i == 169)) [
      | inl e ↦
          load-store_apart 2 _ 6 169 4 (2732 + i * 4) (omega arith)
          ∙ ap (child_at (set_child_at copied 169 (child_at q 339))) {x = i} {y = 169}
              (ground arith)
          ∙ load-store_self 4 copied (2732 + 169 * 4) (child_at q 339)
              (omega (arith, h.ids 339 (omega (arith, full))))
          ∙ ap (child_at q) {x = 339} {y = 170 + i} (ground arith)
      | inr e ↦
          field-right 4 (2732 + i * 4) (ground arith)
          ∙ ap (child_at copied) {x = i} {y = 0 + i} (omega arith)
          ∙ (pair_copied i (ground arith)).1
    ];
  }

-- Two nodes with the separators around the one in the middle.
pub record Cut (l r : Page) (keys ids : ℕ → ℕ) (count n rid median : ℕ) : Type 0 where
  pub mid : ℕ
  pub within : 0 < mid
  pub room : mid < count
  pub median_key : keys mid ≡ median
  pub left_id : id l ≡ n
  pub right_id : id r ≡ rid
  pub left_run : Run l keys ids 0 mid
  pub right_run : Run r keys ids (mid + 1) (count - mid - 1)

-- The place that a half's own search finds for the separator.
place-Run :
    (p : Page) (keys ids : ℕ → ℕ) (from m ci sep : ℕ)
    → Run p keys ids from m
    → IsStrict keys (from + m)
    → from ≤ ci
    → ci ≤ from + m
    → ((i : ℕ) → i < ci → keys i < sep)
    → ((i : ℕ) → ci ≤ i → i < from + m → sep < keys i)
    → from + child_index_for p sep ≡ ci
place-Run p keys ids from m ci sep run strict l u below above =
    let c = run.count in
    let sorted = IsStrict-IsSorted (key_at p) (slot_count p) (λ i j a b. omega (
      arith,
      run.key i (omega (arith, c)),
      run.key j (omega (arith, c)),
      strict (from + i) (from + j) (omega arith) (omega (arith, c)),
    )) in
    let r = child_index_for p sep in
    let b = (child-bounds p sep sorted).0 in
    let not_less : ¬ (from + r < ci) = λ a.
      let inside : r < m = omega arith in
      absurd (
        omega (
          arith,
          b.above r (omega arith) (omega (arith, c)),
          run.key r inside,
          below (from + r) a,
        )) in
    let not_more : ¬ (ci < from + r) = λ a.
      let inside : r - 1 < m = omega (arith, b.within, c) in
      absurd (
        omega (
          arith,
          b.below (r - 1) (omega arith),
          run.key (r - 1) inside,
          above (from + (r - 1)) (omega arith) (omega arith),
        )) in
    omega (arith, not_less, not_more)

-- The number of a half that takes the separator.
pub id-insert :
    (p : Page) (keys ids : ℕ → ℕ) (from m c sep right : ℕ)
    → Run p keys ids from m
    → m < internal_max_keys
    → c ≤ m
    → sep < 2 ^ 64
    → right < 2 ^ 32
    → ((i : ℕ) → i < m → keys (from + i) < 2 ^ 64)
    → ((i : ℕ) → i ≤ m → ids (from + i) < 2 ^ 32)
    → id (insert_child_at p c sep right) ≡ id p
id-insert p keys ids from m c sep right run room at key child big small =
    let n = run.count in
    header-insert_child_at p c sep right (omega (arith, n)) (omega (arith, n)) key child
      (λ i u. omega (arith, run.key i (omega (arith, n)), big i (omega (arith, n))))
      (λ i u. omega (arith, run.child i (omega (arith, n)), small i (omega (arith, n)))) 4 0
      (omega arith)

module _ (q : Page) (n lo hi rid ci : ℕ) (h : IsNode q n lo hi)
    (full : slot_count q ≡ internal_max_keys) (named : rid < 2 ^ 32) (top : hi ≤ 2 ^ 64)
    (up : Split) (chosen : ci ≤ slot_count q) (below : (i : ℕ) → i < ci → key_at q i < up.sep_key)
    (above : (i : ℕ) → ci ≤ i → i < slot_count q → up.sep_key < key_at q i)
    (key : up.sep_key < 2 ^ 64) (child : up.right < 2 ^ 32) where
  l : Page
  l = left q n lo hi rid h full named top

  r : Page
  r = right q n lo hi rid h full named top

  keys : ℕ → ℕ
  keys = keys_with (key_at q) ci up.sep_key

  ids : ℕ → ℕ
  ids = ids_with (child_at q) ci up.right

  bits : (i : ℕ) → i < internal_max_keys → key_at q i < 2 ^ 64
  bits i u = omega (arith, h.high i (omega (arith, full)), top)

  goes_left :
      up.sep_key < key_at q 169
      → Cut
          (insert_child_at l (child_index_for l up.sep_key) up.sep_key up.right)
          r
          keys
          ids
          340
          n
          rid
          (key_at q 169)
  unfolding l r keys ids
  goes_left less =
      let a = left-Run q n lo hi rid h full named top in
      let early : ci ≤ 169 = elim (Bool-cases (ltb 169 ci)) [
        | inl e ↦ absurd (omega (arith, below 169 (ground arith), less))
        | inr e ↦ ground arith
      ] in
      let pos = child_index_for l up.sep_key in
      let here : 0 + pos ≡ ci =
        place-Run l (key_at q) (child_at q) 0 169 ci up.sep_key a
          (λ i j b c. h.strict i j b (omega (arith, full))) (omega arith) early below
          (λ i b c. above i b (omega (arith, full))) in
      record {
        mid = 170;
        within = omega arith;
        room = omega arith;
        median_key = key-after (key_at q) ci up.sep_key 170 (omega arith);
        left_id =
            id-insert l (key_at q) (child_at q) 0 169 pos up.sep_key up.right a (omega arith)
              (omega arith) key child (λ i u. bits (0 + i) (omega arith))
              (λ i u. h.ids (0 + i) (omega (arith, full)))
            ∙ left-id q n lo hi rid h full named top;
        right_id = right-id q n lo hi rid h full named top;
        left_run =
            subst
              (λ c.
                Run (insert_child_at l pos up.sep_key up.right) (keys_with (key_at q) c up.sep_key)
                  (ids_with (child_at q) c up.right) 0 170)
              here
              (Run-insert_child_at l (key_at q) (child_at q) 0 169 pos up.sep_key up.right a
                (omega arith) (omega arith) key child (λ i u. bits (0 + i) (omega arith))
                (λ i u. h.ids (0 + i) (omega (arith, full))));
        right_run =
            Run-behind r (key_at q) (child_at q) 170 169 ci up.sep_key up.right
              (right-Run q n lo hi rid h full named top) (omega arith);
      }

  goes_right :
      key_at q 169 ≤ up.sep_key
      → Cut l
          (insert_child_at r (child_index_for r up.sep_key) up.sep_key up.right)
          keys
          ids
          340
          n
          rid
          (key_at q 169)
  unfolding l r keys ids
  goes_right more =
      let a = right-Run q n lo hi rid h full named top in
      let late : 170 ≤ ci = elim (Bool-cases (ltb 169 ci)) [
        | inl e ↦ ground arith
        | inr e ↦ absurd (omega (arith, above 169 (ground arith) (omega (arith, full)), more))
      ] in
      let pos = child_index_for r up.sep_key in
      let here : 170 + pos ≡ ci =
        place-Run r (key_at q) (child_at q) 170 169 ci up.sep_key a
          (λ i j b c. h.strict i j b (omega (arith, full))) late (omega (arith, full)) below
          (λ i b c. above i b (omega (arith, full))) in
      record {
        mid = 169;
        within = omega arith;
        room = omega arith;
        median_key = key-before (key_at q) ci up.sep_key 169 (omega arith);
        left_id = left-id q n lo hi rid h full named top;
        right_id =
            id-insert r (key_at q) (child_at q) 170 169 pos up.sep_key up.right a (omega arith)
              (omega (arith, full)) key child (λ i u. bits (170 + i) (omega arith))
              (λ i u. h.ids (170 + i) (omega (arith, full)))
            ∙ right-id q n lo hi rid h full named top;
        left_run =
            Run-before l (key_at q) (child_at q) 0 169 ci up.sep_key up.right
              (left-Run q n lo hi rid h full named top) (omega arith);
        right_run =
            subst
              (λ c.
                Run (insert_child_at r pos up.sep_key up.right) (keys_with (key_at q) c up.sep_key)
                  (ids_with (child_at q) c up.right) 170 170)
              here
              (Run-insert_child_at r (key_at q) (child_at q) 170 169 pos up.sep_key up.right a
                (omega arith) (omega (arith, full)) key child (λ i u. bits (170 + i) (omega arith))
                (λ i u. h.ids (170 + i) (omega (arith, full))));
      }

  -- The halves of a full node hold all the separators and trees, with the new ones at their place.
  pub route-Cut :
      let halves = split_internal q rid in
      let (a, b, median) = halves in
      let routed = route a b median up in
      Cut routed.0 routed.1
        (keys_with (key_at q) ci up.sep_key)
        (ids_with (child_at q) ci up.right)
        340
        n
        rid
        median
  unfolding route l r keys ids
  route-Cut =
      rw (split_internal-halves q n lo hi rid h full named top)
        (elim (Bool-cases (ltb up.sep_key (key_at q 169))) [
          | inl e ↦ rw e (goes_left (ground arith))
          | inr e ↦ rw e (goes_right (ground arith))
        ])
