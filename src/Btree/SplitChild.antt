-- ===== src/Btree/SplitChild.antt =====
-- The trees below a node when the insertion split one of them.
use labdb.Prelude.{
  ℕ, ◌+◌, ◌-◌, ◌≤◌, ◌<◌, ◌^◌, ◌≡◌, ◌≢◌, refl, arith, ap, sym, subst, ◌∙◌, Bool, true, false,
  if◌then◌else◌, ◌==◌, inl, inr, Bool-cases, ltb,
}
use labdb.Page.{Page, slot_count}
use labdb.PageStore.{View}
use labdb.Btree.{key_at, child_at}
use labdb.Btree.Shape.{Map, IsStrict, IsStrict-IsSorted, IsNode, IsTree, low_of, high_of}
use labdb.Btree.Pieces.{low_key, high_key, Pieces, IsTree-cast}
use labdb.Btree.Grown.{joined, joined-left, joined-right}
use labdb.Btree.Descend.{
  before, first, second, after, origin, keys_with, ids_with, parts_with, key-before, key-first,
  key-after, id-before, id-second, id-after, part-before, part-first, part-second, part-after,
}

-- The new separator lies between the old ones around the child.
module _ (q : Page) (n lo hi ci sep : ℕ) (h : IsNode q n lo hi) (chosen : ci ≤ slot_count q) where
  key_sorted : (i j : ℕ) → i ≤ j → j < slot_count q → key_at q i ≤ key_at q j
  key_sorted = IsStrict-IsSorted (key_at q) (slot_count q) h.strict

  pub below_sep : low_of q lo ci < sep → (i : ℕ) → i < ci → key_at q i < sep
  below_sep low i u =
      let e : low_of q lo ci ≡ key_at q (ci - 1) =
        (let e' : (ci == 0) ≡ false = ground arith in rw e' refl) in
      omega (arith, e, low, key_sorted i (ci - 1) (omega arith) (omega arith))

  pub above_sep : sep < high_of q hi ci → (i : ℕ) → ci ≤ i → i < slot_count q → sep < key_at q i
  above_sep high i l u =
      let e : high_of q hi ci ≡ key_at q ci =
        (let e' : (ci == slot_count q) ≡ false = ground arith in rw e' refl) in
      omega (arith, e, high, key_sorted ci i l u)

  pub sep-low : low_of q lo ci < sep → lo < sep
  sep-low low = elim (Bool-cases (ci == 0)) [
    | inl e ↦ let e' : low_of q lo ci ≡ lo = rw e refl in omega (arith, e', low)
    | inr e ↦ omega (arith, below_sep low 0 (ground arith), h.low 0 (ground (arith, chosen)))
  ]

  pub sep-high : sep < high_of q hi ci → sep < hi
  sep-high high = elim (Bool-cases (ci == slot_count q)) [
    | inl e ↦ let e' : high_of q hi ci ≡ hi = rw e refl in omega (arith, e', high)
    | inr e ↦
        let b : ci < slot_count q = ground (arith, chosen) in
        omega (arith, above_sep high ci (omega arith) b, h.high ci b)
  ]

module _ (view' : View) (map' : Map) (q : Page) (n lo hi levels ci sep right : ℕ)
    (own own' one two : ℕ → Bool) (part : ℕ → ℕ → Bool) (h : IsNode q n lo hi)
    (chosen : ci ≤ slot_count q)
    (inside : (i j : ℕ) → i ≤ slot_count q → part i j ≡ true → (own j ≡ true) × (j ≢ n))
    (apart : (i i' j : ℕ)
      → i ≤ slot_count q
      → i' ≤ slot_count q
      → part i j ≡ true
      → part i' j ≡ true
      → i ≡ i')
    (rest : (i : ℕ)
      → i ≤ slot_count q
      → i ≢ ci
      → IsTree view' map' (part i) (low_of q lo i) (high_of q hi i) levels (child_at q i))
    (new-others : (j : ℕ) → own' j ≡ true → j ≢ n)
    (new-apart : (i j : ℕ) → i ≤ slot_count q → part i j ≡ true → own' j ≡ true → i ≡ ci)
    (low : low_of q lo ci < sep) (high : sep < high_of q hi ci) (small : right < 2 ^ 32)
    (in_one : (j : ℕ) → one j ≡ true → own' j ≡ true)
    (in_two : (j : ℕ) → two j ≡ true → own' j ≡ true)
    (disjoint : (j : ℕ) → one j ≡ true → two j ≡ true → ⊥)
    (left_tree : IsTree view' map' one (low_of q lo ci) sep levels (child_at q ci))
    (right_tree : IsTree view' map' two sep (high_of q hi ci) levels right) where
  keys : ℕ → ℕ
  keys = keys_with (key_at q) ci sep

  ids : ℕ → ℕ
  ids = ids_with (child_at q) ci right

  parts : ℕ → ℕ → Bool
  parts = parts_with part ci one two

  -- A key's place in the sequence: an old key, or the separator.
  data Key (i : ℕ) : Type 0 where
    lower : i < ci → keys i ≡ key_at q i → Key i
    fresh : i ≡ ci → keys i ≡ sep → Key i
    upper : ci < i → keys i ≡ key_at q (i - 1) → Key i

  key_of : (i : ℕ) → Key i
  unfolding keys
  key_of i = elim (origin ci i) [
    | before a ↦ lower a (key-before (key_at q) ci sep i a)
    | first a ↦ fresh a (key-first (key_at q) ci sep i a)
    | second a ↦ upper (omega arith) (key-after (key_at q) ci sep i (omega arith))
    | after a ↦ upper (omega arith) (key-after (key_at q) ci sep i (omega arith))
  ]

  keys-IsStrict : IsStrict keys (slot_count q + 1)
  keys-IsStrict i j a b =
      let go : Key i → Key j → keys i < keys j = λ x y. elim x [
        | lower c e ↦ elim y [
          | lower d f ↦ omega (arith, e, f, h.strict i j a (omega arith))
          | fresh d f ↦ omega (arith, e, f, below_sep q n lo hi ci sep h chosen low i c)
          | upper d f ↦ omega (arith, e, f, h.strict i (j - 1) (omega arith) (omega arith))
        ]
        | fresh c e ↦ elim y [
          | lower d f ↦ absurd (omega arith)
          | fresh d f ↦ absurd (omega arith)
          | upper d f ↦ omega (
            arith,
            e,
            f,
            above_sep q n lo hi ci sep h chosen high (j - 1) (omega arith) (omega arith),
          )
        ]
        | upper c e ↦ elim y [
          | lower d f ↦ absurd (omega arith)
          | fresh d f ↦ absurd (omega arith)
          | upper d f ↦ omega (arith, e, f, h.strict (i - 1) (j - 1) (omega arith) (omega arith))
        ]
      ] in
      go (key_of i) (key_of j)

  key_bounds : (i : ℕ) → i < slot_count q + 1 → (lo ≤ keys i) × (keys i < hi)
  key_bounds i b = elim (key_of i) [
    | lower c e ↦
        (omega (arith, e, h.low i (omega arith)), omega (arith, e, h.high i (omega arith)))
    | fresh c e ↦ (
      omega (arith, e, sep-low q n lo hi ci sep h chosen low),
      omega (arith, e, sep-high q n lo hi ci sep h chosen high),
    )
    | upper c e ↦ (
      omega (arith, e, h.low (i - 1) (omega arith)),
      omega (arith, e, h.high (i - 1) (omega arith)),
    )
  ]

  id_small : (i : ℕ) → i ≤ slot_count q + 1 → ids i < 2 ^ 32
  unfolding ids
  id_small i b = elim (origin ci i) [
    | before c ↦
        omega (arith, id-before (child_at q) ci right i (omega arith), h.ids i (omega arith))
    | first c ↦
        omega (arith, id-before (child_at q) ci right i (omega arith), h.ids i (omega arith))
    | second c ↦ omega (arith, id-second (child_at q) ci right i c, small)
    | after c ↦ omega (arith, id-after (child_at q) ci right i c, h.ids (i - 1) (omega arith))
  ]

  -- Which tree a page belongs to.
  data Member (i j : ℕ) : Type 0 where
    old :
        (i' : ℕ)
        → i' ≤ slot_count q
        → i' ≢ ci
        → part i' j ≡ true
        → i ≡ (if ltb i' ci then i' else i' + 1)
        → Member i j
    in_left : i ≡ ci → one j ≡ true → Member i j
    in_right : i ≡ ci + 1 → two j ≡ true → Member i j

  member : (i j : ℕ) → i ≤ slot_count q + 1 → parts i j ≡ true → Member i j
  unfolding parts
  member i j b e = elim (origin ci i) [
    | before c ↦
        old i (omega arith) (omega arith)
          (subst (λ f. f j ≡ true) (part-before part ci one two i c) e) (ground arith)
    | first c ↦ in_left c (subst (λ f. f j ≡ true) (part-first part ci one two i c) e)
    | second c ↦ in_right c (subst (λ f. f j ≡ true) (part-second part ci one two i c) e)
    | after c ↦
        old (i - 1) (omega arith) (omega arith)
          (subst (λ f. f j ≡ true) (part-after part ci one two i c) e) (ground arith)
  ]

  parts-others : (i j : ℕ) → i ≤ slot_count q + 1 → parts i j ≡ true → j ≢ n
  parts-others i j b e = elim (member i j b e) [
    | old i' c ne f g ↦ (inside i' j c f).1
    | in_left c f ↦ new-others j (in_one j f)
    | in_right c f ↦ new-others j (in_two j f)
  ]

  parts-owns : (i j : ℕ) → i ≤ slot_count q + 1 → parts i j ≡ true → joined own own' j ≡ true
  parts-owns i j b e = elim (member i j b e) [
    | old i' c ne f g ↦ joined-left own own' j (inside i' j c f).0
    | in_left c f ↦ joined-right own own' j (in_one j f)
    | in_right c f ↦ joined-right own own' j (in_two j f)
  ]

  parts-apart :
      (i i' j : ℕ)
      → i ≤ slot_count q + 1
      → i' ≤ slot_count q + 1
      → parts i j ≡ true
      → parts i' j ≡ true
      → i ≡ i'
  parts-apart i i' j b b' e e' =
      let go : Member i j → Member i' j → i ≡ i' = λ x y. elim x [
        | old a c ne f g ↦ elim y [
          | old a' c' ne' f' g' ↦ let same = apart a a' j c c' f f' in ground arith
          | in_left c' f' ↦ absurd (ne (new-apart a j c f (in_one j f')))
          | in_right c' f' ↦ absurd (ne (new-apart a j c f (in_two j f')))
        ]
        | in_left c f ↦ elim y [
          | old a' c' ne' f' g' ↦ absurd (ne' (new-apart a' j c' f' (in_one j f)))
          | in_left c' f' ↦ c ∙ sym c'
          | in_right c' f' ↦ absurd (disjoint j f f')
        ]
        | in_right c f ↦ elim y [
          | old a' c' ne' f' g' ↦ absurd (ne' (new-apart a' j c' f' (in_two j f)))
          | in_left c' f' ↦ absurd (disjoint j f' f)
          | in_right c' f' ↦ c ∙ sym c'
        ]
      ] in
      go (member i j b e) (member i' j b' e')

  count1 : ℕ
  count1 = slot_count q + 1

  low-before : (i : ℕ) → i ≤ ci → low_of q lo i ≡ low_key keys lo i
  unfolding keys
  low-before i u = elim (Bool-cases (i == 0)) [
    | inl e ↦ rw e refl
    | inr e ↦ rw e (sym (key-before (key_at q) ci sep (i - 1) (ground arith)))
  ]

  low-after : (i : ℕ) → ci + 1 < i → low_of q lo (i - 1) ≡ low_key keys lo i
  unfolding keys
  low-after i u =
      let e : (i == 0) ≡ false = ground arith in
      let e' : (i - 1 == 0) ≡ false = ground arith in
      rw (e, e') (sym (key-after (key_at q) ci sep (i - 1) (omega arith)))

  low-second : (i : ℕ) → i ≡ ci + 1 → sep ≡ low_key keys lo i
  unfolding keys
  low-second i u =
      let e : (i == 0) ≡ false = ground arith in
      rw e (sym (key-first (key_at q) ci sep (i - 1) (omega arith)))

  high-before : (i : ℕ) → i < ci → high_of q hi i ≡ high_key keys count1 hi i
  unfolding keys count1
  high-before i u =
      let e : (i == slot_count q) ≡ false = ground (arith, chosen) in
      let e' : (i == slot_count q + 1) ≡ false = ground (arith, chosen) in
      rw (e, e') (sym (key-before (key_at q) ci sep i u))

  high-first : (i : ℕ) → i ≡ ci → sep ≡ high_key keys count1 hi i
  unfolding keys count1
  high-first i u =
      let e : (i == slot_count q + 1) ≡ false = ground (arith, chosen) in
      rw e (sym (key-first (key_at q) ci sep i u))

  high-behind : (i : ℕ) → ci < i → high_of q hi (i - 1) ≡ high_key keys count1 hi i
  unfolding keys count1
  high-behind i u = elim (Bool-cases (i == slot_count q + 1)) [
    | inl e ↦ let e' : (i - 1 == slot_count q) ≡ true = ground arith in rw (e, e') refl
    | inr e ↦
        let e' : (i - 1 == slot_count q) ≡ false = ground arith in
        rw (e, e') (sym (key-after (key_at q) ci sep i u))
  ]

  Sub : ℕ → (ℕ → Bool) → Type 0
  Sub i pages =
      IsTree view' map' pages (low_key keys lo i) (high_key keys count1 hi i) levels (ids i)

  parts-Sub : (i : ℕ) → i ≤ slot_count q + 1 → Sub i (parts i)
  unfolding Sub parts ids
  parts-Sub i b = elim (origin ci i) [
    | before c ↦ subst (Sub i) (sym (part-before part ci one two i c)) (
        IsTree-cast view' map' (part i) (low_of q lo i) (low_key keys lo i) (high_of q hi i)
          (high_key keys count1 hi i) levels (child_at q i) (ids i) (low-before i (omega arith))
          (high-before i c) (sym (id-before (child_at q) ci right i (omega arith)))
          (rest i (omega arith) (omega arith)))
    | first c ↦ subst (Sub i) (sym (part-first part ci one two i c)) (
        IsTree-cast view' map' one (low_of q lo ci) (low_key keys lo i) sep
          (high_key keys count1 hi i) levels (child_at q ci) (ids i)
          (ap (low_of q lo) (sym c) ∙ low-before i (omega arith)) (high-first i c)
          (ap (child_at q) (sym c) ∙ sym (id-before (child_at q) ci right i (omega arith)))
          left_tree)
    | second c ↦ subst (Sub i) (sym (part-second part ci one two i c)) (
        IsTree-cast view' map' two sep (low_key keys lo i) (high_of q hi ci)
          (high_key keys count1 hi i) levels right (ids i) (low-second i c)
          (ap (high_of q hi) (omega arith) ∙ high-behind i (omega arith))
          (sym (id-second (child_at q) ci right i c)) right_tree)
    | after c ↦ subst (Sub i) (sym (part-after part ci one two i c)) (
        IsTree-cast view' map' (part (i - 1)) (low_of q lo (i - 1)) (low_key keys lo i)
          (high_of q hi (i - 1)) (high_key keys count1 hi i) levels (child_at q (i - 1)) (ids i)
          (low-after i c) (high-behind i (omega arith)) (sym (id-after (child_at q) ci right i c))
          (rest (i - 1) (omega arith) (omega arith)))
  ]

  -- The child is two trees, with the new separator between them.
  pub Pieces-split :
      Pieces view' map'
        (joined own own')
        n
        lo
        hi
        levels
        (slot_count q + 1)
        (keys_with (key_at q) ci sep)
        (ids_with (child_at q) ci right)
        (parts_with part ci one two)
  unfolding keys ids parts Sub count1
  Pieces-split = record {
    strict = keys-IsStrict;
    low = λ i b. (key_bounds i b).0;
    high = λ i b. (key_bounds i b).1;
    small = id_small;
    owns = parts-owns;
    others = parts-others;
    apart = parts-apart;
    sub = parts-Sub;
  }
