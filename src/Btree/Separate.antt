-- ===== src/Btree/Separate.antt =====
-- A full node's two halves, written to their pages, as the roots of two trees.
use labdb.Prelude.{
  ℕ, suc, ◌+◌, ◌-◌, ◌≤◌, ◌<◌, ◌^◌, ◌≡◌, ◌≢◌, ◌⊎◌, inl, inr, refl, arith, ap, sym, subst, ◌∙◌, Bool,
  true, false, ◌||◌, none, some, ◌==◌, Bool-cases, ==_refl, ==→eq,
}
use labdb.Common.{zeroes}
use labdb.Page.{Page, set_id}
use labdb.PageStore.{View, put_page}
use labdb.Btree.Shape.{Map, IsTree, Owned}
use labdb.Btree.Pieces.{
  low_key, high_key, Pieces, IsTree-cast, Pieces-congr, gather, union, union-part, union-inverse,
}
use labdb.Btree.Grown.{put_page_here, put_page_other, Below, halves, with_page}
use labdb.Btree.NodeSplit.{Cut}

module _ (view1 : View) (map' : Map) (own1 : ℕ → Bool) (n lo hi levels rid median : ℕ)
    (p left_page right_page : Page) (keys ids : ℕ → ℕ) (trees : ℕ → ℕ → Bool)
    (pieces : Pieces view1 map' own1 n lo hi levels 340 keys ids trees)
    (cut : Cut left_page right_page keys ids 340 n rid median) (at1 : view1 n ≡ some p)
    (mine1 : own1 n ≡ true) (owned : Owned view1 own1) (fresh : view1 rid ≡ none)
    (named : rid < 2 ^ 32) where
  abbrev pub view2 : View
  view2 = put_page view1 rid (set_id zeroes rid)

  abbrev pub view3 : View
  view3 = put_page view2 n left_page

  abbrev pub view4 : View
  view4 = put_page view3 rid right_page

  rid-n : rid ≢ n
  rid-n e = absurd (cc (fresh, at1, ap view1 e))

  pub at2 : view2 n ≡ some p
  at2 = put_page_other view1 rid n (set_id zeroes rid) rid-n ∙ at1

  pub at3 : view3 rid ≡ some (set_id zeroes rid)
  at3 =
      put_page_other view2 n rid left_page (λ e. rid-n (sym e))
      ∙ put_page_here view1 rid (set_id zeroes rid)

  tree-rid : (i j : ℕ) → i ≤ 340 → trees i j ≡ true → j ≢ rid
  tree-rid i j b e same' =
      let (x, there) = owned j (pieces.owns i j b e) in absurd (cc (there, fresh, ap view1 same'))

  pieces4 : Pieces view4 map' own1 n lo hi levels 340 keys ids trees
  pieces4 = Pieces-congr view1 map' own1 n lo hi levels 340 keys ids trees pieces view4 (λ i j b c.
      let ne : rid ≢ j = λ e'. tree-rid i j b c (sym e') in
      put_page_other view3 rid j right_page ne
      ∙ put_page_other view2 n j left_page (λ e'. pieces.others i j b c (sym e'))
      ∙ put_page_other view1 rid j (set_id zeroes rid) ne)

  one : ℕ → Bool
  one j = n == j || union trees 0 cut.mid j

  two : ℕ → Bool
  two j = rid == j || union trees (cut.mid + 1) (340 - cut.mid - 1) j

  one-union : (j : ℕ) → union trees 0 cut.mid j ≡ true → one j ≡ true
  unfolding one
  one-union j e' = elim (Bool-cases (n == j)) [ inl t ↦ rw t refl | inr t ↦ rw (t, e') refl ]

  two-union : (j : ℕ) → union trees (cut.mid + 1) (340 - cut.mid - 1) j ≡ true → two j ≡ true
  unfolding two
  two-union j e' = elim (Bool-cases (rid == j)) [ inl t ↦ rw t refl | inr t ↦ rw (t, e') refl ]

  one-inverse : (j : ℕ) → one j ≡ true → (n ≡ j) ⊎ (union trees 0 cut.mid j ≡ true)
  unfolding one
  one-inverse j e' = elim (Bool-cases (n == j)) [
    | inl t ↦ inl (==→eq n j t)
    | inr t ↦ inr (subst (λ x. (x || union trees 0 cut.mid j) ≡ true) t e')
  ]

  two-inverse :
      (j : ℕ) → two j ≡ true → (rid ≡ j) ⊎ (union trees (cut.mid + 1) (340 - cut.mid - 1) j ≡ true)
  unfolding two
  two-inverse j e' = elim (Bool-cases (rid == j)) [
    | inl t ↦ inl (==→eq rid j t)
    | inr t ↦ inr (subst (λ x. (x || union trees (cut.mid + 1) (340 - cut.mid - 1) j) ≡ true) t e')
  ]

  one_self : one n ≡ true
  unfolding one
  one_self = let e' : (n == n) ≡ true = ==_refl n in rw e' refl

  two_self : two rid ≡ true
  unfolding two
  two_self = let e' : (rid == rid) ≡ true = ==_refl rid in rw e' refl

  left_half : IsTree view4 map' one lo median (suc levels) n
  left_half =
      let m = cut.mid in
      let tree =
        gather view4 map' own1 n lo hi levels 340 keys ids trees pieces4 left_page n 0 m one
          (put_page_other view3 rid n right_page rid-n ∙ put_page_here view2 n left_page)
          cut.left_id (one_self)
          (λ i j a b c. (
            one-union j (union-part trees 0 m i j a b c),
            pieces4.others i j (omega (arith, cut.room)) c,
          ))
          (omega (arith, cut.room)) cut.left_run in
      IsTree-cast view4 map' one lo lo (high_key keys 340 hi (0 + m)) median (suc levels) n n refl
        (let e' : (0 + m == 340) ≡ false = ground (arith, cut.room) in
          rw e' (ap keys (omega arith) ∙ cut.median_key))
        refl tree

  right_half : IsTree view4 map' two median hi (suc levels) rid
  right_half =
      let m = cut.mid in
      let tree =
        gather view4 map' own1 n lo hi levels 340 keys ids trees pieces4 right_page rid (m + 1)
          (340 - m - 1) two (put_page_here view3 rid right_page) cut.right_id (two_self)
          (λ i j a b c. (
            two-union j (union-part trees (m + 1) (340 - m - 1) i j a b c),
            tree-rid i j (omega (arith, cut.room)) c,
          ))
          (omega (arith, cut.room)) cut.right_run in
      IsTree-cast view4 map' two (low_key keys lo (m + 1)) median
        (high_key keys 340 hi (m + 1 + (340 - m - 1))) hi (suc levels) rid rid
        (let e' : (m + 1 == 0) ≡ false = ground arith in
          rw e' (ap keys (omega arith) ∙ cut.median_key))
        (let e' : (m + 1 + (340 - m - 1) == 340) ≡ true = ground (arith, cut.room) in rw e' refl)
        refl tree

  one-own : (j : ℕ) → one j ≡ true → with_page own1 rid j ≡ true
  unfolding with_page
  one-own j e' = elim (one-inverse j e') [
    | inl s ↦ let f : own1 j ≡ true = ap own1 (sym s) ∙ mine1 in rw f refl
    | inr s ↦
        let (i, a, b, c) = union-inverse trees 0 cut.mid j s in
        let f : own1 j ≡ true = pieces.owns i j (omega (arith, cut.room)) c in rw f refl
  ]

  two-own : (j : ℕ) → two j ≡ true → with_page own1 rid j ≡ true
  unfolding with_page
  two-own j e' = elim (two-inverse j e') [
    | inl s ↦
        let f : (rid == j) ≡ true = ap (λ (x : ℕ). rid == x) (sym s) ∙ ==_refl rid in
        elim (Bool-cases (own1 j)) [ inl t ↦ rw t refl | inr t ↦ rw (t, f) refl ]
    | inr s ↦
        let (i, a, b, c) = union-inverse trees (cut.mid + 1) (340 - cut.mid - 1) j s in
        let f : own1 j ≡ true = pieces.owns i j (omega (arith, cut.room)) c in rw f refl
  ]

  halves-disjoint : (j : ℕ) → one j ≡ true → two j ≡ true → ⊥
  halves-disjoint j e' e'' = elim (one-inverse j e') [
    | inl s ↦ elim (two-inverse j e'') [
      | inl s' ↦ rid-n (s' ∙ sym s)
      | inr s' ↦
          let (i, a, b, c) = union-inverse trees (cut.mid + 1) (340 - cut.mid - 1) j s' in
          pieces.others i j (omega (arith, cut.room)) c (sym s)
    ]
    | inr s ↦
        let (i, a, b, c) = union-inverse trees 0 cut.mid j s in
        elim (two-inverse j e'') [
          | inl s' ↦ tree-rid i j (omega (arith, cut.room)) c (sym s')
          | inr s' ↦
              let (i', a', b', c') = union-inverse trees (cut.mid + 1) (340 - cut.mid - 1) j s' in
              let same' =
                pieces.apart i i' j (omega (arith, cut.room)) (omega (arith, cut.room)) c c' in
              absurd (omega arith)
        ]
  ]

  -- The two nodes are the roots of the halves of the tree.
  pub Below-cut :
      Below view4 map'
        (with_page own1 rid)
        lo
        hi
        (suc levels)
        n
        (some (record { sep_key = median; right = rid }))
  Below-cut =
      halves one two (record { sep_key = median; right = rid })
        (omega (
          arith,
          cut.median_key,
          pieces.low 0 (omega arith),
          pieces.strict 0 cut.mid cut.within cut.room,
        ))
        (omega (arith, cut.median_key, pieces.high cut.mid cut.room)) named one-own two-own
        halves-disjoint left_half right_half
