-- ===== src/Btree/LeafSplit.antt =====
-- The split of a full leaf, with the new entry in one of its halves.
use labdb.Prelude.{
  ℕ, ◌+◌, ◌-◌, ◌*◌, ◌≤◌, ◌<◌, ◌^◌, ◌≡◌, ◌≢◌, ◌⊎◌, refl, arith, ap, sym, ◌∙◌, true, none, some,
  if◌then◌else◌, ◌==◌, ltb, inl, inr, Bool-cases, ==→eq,
}
use labdb.Common.{load, memcpy, zeroes}
use labdb.Common.Fields.{load-store_apart, load-store_self, load-memcpy_apart, load-memcpy_inside}
use labdb.Page.{Page, slot_count, set_slot_count, next_page, set_next_page, id}
use labdb.Btree.{
  leaf_max_entries, base, leaf_key_at, value_at, lower_bound, insert_at, init_leaf, move_suffix_to,
}
use labdb.Btree.Leaves.{insert_at-before}
use labdb.Btree.Tree.{is_leaf, entry_place, split_leaf}
use labdb.Btree.Shape.{Map, IsLeaf, IsLeaf-congr}
use labdb.Btree.Search.{place}
use labdb.Btree.LeafInsert.{Assigns, IsLeaf-insert_at}

-- A page with a run of a leaf's entries, just those of its own range.
IsLeaf-part :
    (p q : Page) (n m lo hi lo' hi' from cnt : ℕ) (map : Map)
    → IsLeaf p n lo hi map
    → is_leaf q ≡ true
    → id q ≡ m
    → slot_count q ≡ cnt
    → from + cnt ≤ slot_count p
    → ((i : ℕ) → i < cnt → leaf_key_at q i ≡ leaf_key_at p (from + i))
    → ((i : ℕ) → i < cnt → value_at q i ≡ value_at p (from + i))
    → lo ≤ lo'
    → hi' ≤ hi
    → ((i : ℕ) → i < slot_count p → i < from → leaf_key_at p i < lo')
    → ((i : ℕ) → i < slot_count p → from ≤ i → lo' ≤ leaf_key_at p i)
    → ((i : ℕ) → i < slot_count p → i < from + cnt → leaf_key_at p i < hi')
    → ((i : ℕ) → i < slot_count p → from + cnt ≤ i → hi' ≤ leaf_key_at p i)
    → IsLeaf q m lo' hi' map
IsLeaf-part p q n m lo hi lo' hi' from cnt map h is self count fits key value l u before low high
      after =
    record {
      leaf = is;
      self = self;
      fits = omega (arith, count, fits, h.fits);
      strict = λ i j a b. omega (
        arith,
        key i (omega (arith, count)),
        key j (omega (arith, count)),
        h.strict (from + i) (from + j) (omega arith) (omega (arith, count)),
      );
      low = λ i b. omega (
        arith,
        key i (omega (arith, count)),
        low (from + i) (omega (arith, count)) (omega arith),
      );
      high = λ i b. omega (
        arith,
        key i (omega (arith, count)),
        high (from + i) (omega (arith, count)) (omega (arith, count)),
      );
      here = λ i b.
          ap map (key i (omega (arith, count)))
          ∙ h.here (from + i) (omega (arith, count))
          ∙ ap some (sym (value i (omega (arith, count))));
      gone = λ k a b free. h.gone k (omega arith) (omega arith) (λ i c e.
          elim (Bool-cases (ltb i from)) [
            | inl s ↦ absurd (omega (arith, before i c (ground arith), e))
            | inr s ↦ elim (Bool-cases (ltb i (from + cnt))) [
              | inr s' ↦ absurd (omega (arith, after i c (ground arith), e))
              | inl s' ↦
                  let d : i - from < cnt = ground arith in
                  free (i - from) (omega (arith, count))
                    (key (i - from) d ∙ ap (leaf_key_at p) (ground arith) ∙ e)
            ]
          ]);
    }

module _ (p : Page) (n lo hi rid : ℕ) (map : Map) (h : IsLeaf p n lo hi map)
    (full : slot_count p ≡ leaf_max_entries) (named : rid < 2 ^ 32) where
  left : Page
  left = set_next_page (set_slot_count p 127) rid

  right_copy : Page
  right_copy = memcpy (init_leaf zeroes rid) (base 0) p (base 127) (127 * 16)

  right : Page
  right = set_next_page (set_slot_count right_copy 127) (next_page p)

  sep : ℕ
  sep = leaf_key_at p 127

  -- A field of the halves that the counts and the links leave alone.
  field_linked :
      (q : Page) (cnt link w o : ℕ)
      → (o + w ≤ 6) ⊎ (20 ≤ o)
      → load w (set_next_page (set_slot_count q cnt) link) o ≡ load w q o
  field_linked q cnt link w o a =
      load-store_apart 4 (set_slot_count q cnt) 16 link w o (omega arith)
      ∙ load-store_apart 2 q 6 cnt w o (omega arith)

  count_linked :
      (q : Page) (cnt link : ℕ)
      → cnt < 65536
      → slot_count (set_next_page (set_slot_count q cnt) link) ≡ cnt
  count_linked q cnt link u =
      load-store_apart 4 (set_slot_count q cnt) 16 link 2 6 (omega arith)
      ∙ load-store_self 2 q 6 cnt (omega arith)

  left-IsLeaf : IsLeaf left n lo sep map
  unfolding left sep
  left-IsLeaf =
      IsLeaf-part p left n n lo hi lo sep 0 127 map h
        (ap (λ (t : ℕ). t == 4) (field_linked p 127 rid 2 4 (omega arith)) ∙ h.leaf)
        (field_linked p 127 rid 4 0 (omega arith) ∙ h.self) (count_linked p 127 rid (omega arith))
        (omega (arith, full))
        (λ i u. field_linked p 127 rid 8 (base i) (omega arith) ∙ ap (leaf_key_at p) (omega arith))
        (λ i u. field_linked p 127 rid 8 (base i + 8) (omega arith) ∙ ap (value_at p) (omega arith))
        (omega arith) (omega (arith, h.high 127 (omega (arith, full))))
        (λ i b a. absurd (omega arith)) (λ i b a. h.low i b)
        (λ i b a. h.strict i 127 (omega arith) (omega (arith, full)))
        (λ i b a. elim (Bool-cases (i == 127)) [
          | inl e ↦ let same : i ≡ 127 = ==→eq i 127 e in rw same (omega arith)
          | inr e ↦ omega (arith, h.strict 127 i (ground arith) b)
        ])

  copied : (o : ℕ) → 20 ≤ o → o + 8 ≤ 20 + 127 * 16 → load 8 right_copy o ≡ load 8 p (o + 127 * 16)
  unfolding right_copy
  copied o a b =
      load-memcpy_inside 8 (init_leaf zeroes rid) (base 0) p (base 127) (127 * 16) o (o + 127 * 16)
        (omega arith) (omega arith) (omega arith)

  right-is_leaf : is_leaf right ≡ true
  unfolding right right_copy init_leaf
  right-is_leaf =
      ap (λ (t : ℕ). t == 4)
        (field_linked right_copy 127 (next_page p) 2 4 (omega arith)
          ∙ load-memcpy_apart 2 (init_leaf zeroes rid) (base 0) p (base 127) (127 * 16) 4
              (omega arith)
          ∙ load-store_apart 4 _ 16 0 2 4 (omega arith)
          ∙ load-store_apart 2 _ 6 0 2 4 (omega arith)
          ∙ load-store_self 2 _ 4 4 (omega arith))

  right-id : id right ≡ rid
  unfolding right right_copy init_leaf
  right-id =
      field_linked right_copy 127 (next_page p) 4 0 (omega arith)
      ∙ load-memcpy_apart 4 (init_leaf zeroes rid) (base 0) p (base 127) (127 * 16) 0 (omega arith)
      ∙ load-store_apart 4 _ 16 0 4 0 (omega arith)
      ∙ load-store_apart 2 _ 6 0 4 0 (omega arith)
      ∙ load-store_apart 2 _ 4 4 4 0 (omega arith)
      ∙ load-store_self 4 zeroes 0 rid (omega (arith, named))

  right_key : (i : ℕ) → i < 127 → leaf_key_at right i ≡ leaf_key_at p (127 + i)
  unfolding right
  right_key i u =
      field_linked right_copy 127 (next_page p) 8 (base i) (omega arith)
      ∙ copied (base i) (omega arith) (omega arith)
      ∙ ap (load 8 p) (omega arith)

  right-IsLeaf : IsLeaf right rid sep hi map
  unfolding right sep
  right-IsLeaf =
      IsLeaf-part p right n rid lo hi sep hi 127 127 map h right-is_leaf right-id
        (count_linked right_copy 127 (next_page p) (omega arith)) (omega (arith, full)) right_key
        (λ i u.
          field_linked right_copy 127 (next_page p) 8 (base i + 8) (omega arith)
          ∙ copied (base i + 8) (omega arith) (omega arith)
          ∙ ap (load 8 p) (omega arith))
        (h.low 127 (omega (arith, full))) (omega arith)
        (λ i b a. h.strict i 127 (omega arith) (omega (arith, full)))
        (λ i b a. elim (Bool-cases (i == 127)) [
          | inl e ↦ let same : i ≡ 127 = ==→eq i 127 e in rw same (omega arith)
          | inr e ↦ omega (arith, h.strict 127 i (ground arith) b)
        ])
        (λ i b a. h.high i b) (λ i b a. absurd (omega (arith, full)))

  -- The halves that the code leaves.
  split_leaf-halves :
      (k v : ℕ)
      → split_leaf true p rid k v ≡ (
          if ltb k (leaf_key_at right 0)
          then (insert_at left (lower_bound left k) k v, right)
          else (left, insert_at right (lower_bound right k) k v))
  unfolding split_leaf entry_place move_suffix_to left right right_copy
  split_leaf-halves k v = rw full refl

-- What a split leaves for the parent: two leaves on the two sides of the separator.
pub record Halves (left right : Page) (n rid lo hi : ℕ) (map : Map) : Type 0 where
  pub low : lo < leaf_key_at right 0
  pub high : leaf_key_at right 0 < hi
  pub left_leaf : IsLeaf left n lo (leaf_key_at right 0) map
  pub right_leaf : IsLeaf right rid (leaf_key_at right 0) hi map

module _ (p : Page) (n lo hi rid k v : ℕ) (map map' : Map) (h : IsLeaf p n lo hi map)
    (full : slot_count p ≡ leaf_max_entries) (named : rid < 2 ^ 32) (assigns : Assigns map map' k v)
    (free : map k ≡ none) (l : lo ≤ k) (u : k < hi) (key : k < 2 ^ 64) (value : v < 2 ^ 64) where
  mid : ℕ
  mid = leaf_key_at p 127

  a : Page
  a = left p n lo hi rid map h full named

  b : Page
  b = right p n lo hi rid map h full named

  first : leaf_key_at b 0 ≡ mid
  unfolding b mid
  first = right_key p n lo hi rid map h full named 0 (omega arith)

  a-IsLeaf : IsLeaf a n lo mid map
  unfolding a mid sep
  a-IsLeaf = left-IsLeaf p n lo hi rid map h full named

  b-IsLeaf : IsLeaf b rid mid hi map
  unfolding b mid sep
  b-IsLeaf = right-IsLeaf p n lo hi rid map h full named

  count_a : slot_count a ≡ 127
  unfolding a left
  count_a = count_linked p n lo hi rid map h full named p 127 rid (omega arith)

  count_b : slot_count b ≡ 127
  unfolding b right
  count_b =
      count_linked p n lo hi rid map h full named (right_copy p n lo hi rid map h full named) 127
        (next_page p) (omega arith)

  below-Halves : k < mid → Halves (insert_at a (lower_bound a k) k v) b n rid lo hi map'
  unfolding mid
  below-Halves less = record {
    low = omega (
      arith,
      first,
      h.low 0 (omega (arith, full)),
      h.strict 0 127 (omega arith) (omega (arith, full)),
    );
    high = omega (arith, first, h.high 127 (omega (arith, full)));
    left_leaf = rw first (
        IsLeaf-insert_at a n lo mid map map' (lower_bound a k) k v a-IsLeaf assigns free
          (place a n lo mid k map a-IsLeaf) l less key value (omega (arith, count_a)));
    right_leaf =
        rw first
          (IsLeaf-congr b rid mid hi map map' (λ j c d. assigns.other j (omega arith)) b-IsLeaf);
  }

  above-Halves : mid ≤ k → Halves a (insert_at b (lower_bound b k) k v) n rid lo hi map'
  unfolding mid
  above-Halves more =
      let r = lower_bound b k in
      let at = place b rid mid hi k map b-IsLeaf in
      let not_first : r ≢ 0 = λ e.
        let same : leaf_key_at b 0 ≡ k =
          omega (arith, first, at.above 0 (omega arith) (omega (arith, count_b)), more) in
        absurd (cc (free, b-IsLeaf.here 0 (omega (arith, count_b)), ap map same)) in
      let kept : leaf_key_at (insert_at b r k v) 0 ≡ mid =
        ap (λ x. x.0) (insert_at-before b r k v key value 0 (omega arith)) ∙ first in
      record {
        low = omega (
          arith,
          kept,
          h.low 0 (omega (arith, full)),
          h.strict 0 127 (omega arith) (omega (arith, full)),
        );
        high = omega (arith, kept, h.high 127 (omega (arith, full)));
        left_leaf =
            rw kept
              (IsLeaf-congr a n lo mid map map' (λ j c d. assigns.other j (omega arith)) a-IsLeaf);
        right_leaf = rw kept (
            IsLeaf-insert_at b rid mid hi map map' r k v b-IsLeaf assigns free at more u key value
              (omega (arith, count_b)));
      }

  -- A full leaf splits into two that hold the map with the new entry.
  pub split_leaf-Halves :
      let halves = split_leaf true p rid k v in Halves halves.0 halves.1 n rid lo hi map'
  unfolding a b
  split_leaf-Halves =
      rw (split_leaf-halves p n lo hi rid map h full named k v)
        (elim (Bool-cases (ltb k (leaf_key_at b 0))) [
          | inl e ↦ rw e (below-Halves (ground (arith, first)))
          | inr e ↦ rw e (above-Halves (ground (arith, first)))
        ])
