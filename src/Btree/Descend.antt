-- ===== src/Btree/Descend.antt =====
-- The trees below a node behind the insertion into one of them.
use labdb.Prelude.{
  ℕ, ◌+◌, ◌-◌, ◌≤◌, ◌<◌, ◌≡◌, ◌≢◌, inl, inr, refl, arith, ap, sym, subst, ◌∙◌, Bool, true, false,
  some, if◌then◌else◌, ◌==◌, leb, ltb, Bool-cases, ==→eq, ==→ne,
}
use labdb.Page.{Page, slot_count}
use labdb.PageStore.{View}
use labdb.Btree.{key_at, child_at}
use labdb.Btree.Shape.{Map, IsStrict-IsSorted, IsNode, IsTree, IsTree-congr, Owned, low_of, high_of}
use labdb.Btree.Pieces.{Pieces}
use labdb.Btree.Grown.{Grows, joined, joined-left, joined-right}

-- The pages of the trees when the tree `ci` has others, or two trees stand for it.
unfoldable pub replaced : (ℕ → ℕ → Bool) → ℕ → (ℕ → Bool) → ℕ → ℕ → Bool
replaced part ci own i = if i == ci then own else part i

unfoldable pub keys_with : (ℕ → ℕ) → ℕ → ℕ → ℕ → ℕ
keys_with keys ci sep i = if ltb i ci then keys i else if i == ci then sep else keys (i - 1)

unfoldable pub ids_with : (ℕ → ℕ) → ℕ → ℕ → ℕ → ℕ
ids_with ids ci right i = if leb i ci then ids i else if i == ci + 1 then right else ids (i - 1)

unfoldable pub parts_with : (ℕ → ℕ → Bool) → ℕ → (ℕ → Bool) → (ℕ → Bool) → ℕ → ℕ → Bool
parts_with part ci one two i =
    if ltb i ci then part i else if i == ci then one else if i == ci + 1 then two else part (i - 1)

-- Where the tree `i` comes from.
pub data Origin (ci i : ℕ) : Type 0 where
  before : i < ci → Origin ci i
  first : i ≡ ci → Origin ci i
  second : i ≡ ci + 1 → Origin ci i
  after : ci + 1 < i → Origin ci i

pub origin : (ci i : ℕ) → Origin ci i
origin ci i = elim (Bool-cases (ltb i ci)) [
  | inl e ↦ before (ground arith)
  | inr e ↦ elim (Bool-cases (i == ci)) [
    | inl e' ↦ first (==→eq i ci e')
    | inr e' ↦ elim (Bool-cases (i == ci + 1)) [
      | inl e'' ↦ second (==→eq i (ci + 1) e'')
      | inr e'' ↦ after (ground arith)
    ]
  ]
]

module _ (keys : ℕ → ℕ) (ci sep : ℕ) where
  pub key-before : (i : ℕ) → i < ci → keys_with keys ci sep i ≡ keys i
  unfolding keys_with
  key-before i u = let e : ltb i ci ≡ true = ground arith in rw e refl

  pub key-first : (i : ℕ) → i ≡ ci → keys_with keys ci sep i ≡ sep
  unfolding keys_with
  key-first i u =
      let e : ltb i ci ≡ false = ground arith in
      let e' : (i == ci) ≡ true = ground arith in rw (e, e') refl

  pub key-after : (i : ℕ) → ci < i → keys_with keys ci sep i ≡ keys (i - 1)
  unfolding keys_with
  key-after i u =
      let e : ltb i ci ≡ false = ground arith in
      let e' : (i == ci) ≡ false = ground arith in rw (e, e') refl

module _ (ids : ℕ → ℕ) (ci right : ℕ) where
  pub id-before : (i : ℕ) → i ≤ ci → ids_with ids ci right i ≡ ids i
  unfolding ids_with
  id-before i u = let e : leb i ci ≡ true = ground arith in rw e refl

  pub id-second : (i : ℕ) → i ≡ ci + 1 → ids_with ids ci right i ≡ right
  unfolding ids_with
  id-second i u =
      let e : leb i ci ≡ false = ground arith in
      let e' : (i == ci + 1) ≡ true = ground arith in rw (e, e') refl

  pub id-after : (i : ℕ) → ci + 1 < i → ids_with ids ci right i ≡ ids (i - 1)
  unfolding ids_with
  id-after i u =
      let e : leb i ci ≡ false = ground arith in
      let e' : (i == ci + 1) ≡ false = ground arith in rw (e, e') refl

module _ (part : ℕ → ℕ → Bool) (ci : ℕ) (one two : ℕ → Bool) where
  pub part-before : (i : ℕ) → i < ci → parts_with part ci one two i ≡ part i
  unfolding parts_with
  part-before i u = let e : ltb i ci ≡ true = ground arith in rw e refl

  pub part-first : (i : ℕ) → i ≡ ci → parts_with part ci one two i ≡ one
  unfolding parts_with
  part-first i u =
      let e : ltb i ci ≡ false = ground arith in
      let e' : (i == ci) ≡ true = ground arith in rw (e, e') refl

  pub part-second : (i : ℕ) → i ≡ ci + 1 → parts_with part ci one two i ≡ two
  unfolding parts_with
  part-second i u =
      let e : ltb i ci ≡ false = ground arith in
      let e' : (i == ci) ≡ false = ground arith in
      let e'' : (i == ci + 1) ≡ true = ground arith in rw (e, e', e'') refl

  pub part-after : (i : ℕ) → ci + 1 < i → parts_with part ci one two i ≡ part (i - 1)
  unfolding parts_with
  part-after i u =
      let e : ltb i ci ≡ false = ground arith in
      let e' : (i == ci) ≡ false = ground arith in
      let e'' : (i == ci + 1) ≡ false = ground arith in rw (e, e', e'') refl

module _ (view view' : View) (map map' : Map) (p q : Page) (n lo hi levels ci k : ℕ)
    (own own' : ℕ → Bool) (part : ℕ → ℕ → Bool) (at : view n ≡ some p) (h : IsNode q n lo hi)
    (chosen : ci ≤ slot_count q) (owned : Owned view own)
    (inside : (i j : ℕ) → i ≤ slot_count q → part i j ≡ true → (own j ≡ true) × (j ≢ n))
    (apart : (i i' j : ℕ)
      → i ≤ slot_count q
      → i' ≤ slot_count q
      → part i j ≡ true
      → part i' j ≡ true
      → i ≡ i')
    (sub : (i : ℕ)
      → i ≤ slot_count q
      → IsTree view map (part i) (low_of q lo i) (high_of q hi i) levels (child_at q i))
    (l : low_of q lo ci ≤ k) (u : k < high_of q hi ci) (grows : Grows view (part ci) view' own')
    (other : (j : ℕ) → k ≢ j → map' j ≡ map j) where
  keys_sorted : (i j : ℕ) → i ≤ j → j < slot_count q → key_at q i ≤ key_at q j
  keys_sorted = IsStrict-IsSorted (key_at q) (slot_count q) h.strict

  high_of-low_of : (i i' : ℕ) → i < i' → i' ≤ slot_count q → high_of q hi i ≤ low_of q lo i'
  high_of-low_of i i' a b =
      let e : (i == slot_count q) ≡ false = ground arith in
      let e' : (i' == 0) ≡ false = ground arith in
      rw (e, e') (keys_sorted i (i' - 1) (omega arith) (omega arith))

  -- The other trees are what they were.
  pub rest :
      (i : ℕ)
      → i ≤ slot_count q
      → i ≢ ci
      → IsTree view' map' (part i) (low_of q lo i) (high_of q hi i) levels (child_at q i)
  rest i b ne =
      IsTree-congr view view' map map' (part i) (low_of q lo i) (high_of q hi i) levels
        (child_at q i)
        (λ j e.
          let (x, there) = owned j (inside i j b e).0 in
          let not_in : part ci j ≡ false = elim (Bool-cases (part ci j)) [
            | inl t ↦ absurd (ne (apart i ci j b chosen e t))
            | inr t ↦ t
          ] in
          grows.kept j x not_in there ∙ sym there)
        (λ j c d. other j (λ same. elim (Bool-cases (ltb i ci)) [
          | inl s ↦ absurd (omega (arith, high_of-low_of i ci (ground arith) chosen))
          | inr s ↦ absurd (omega (arith, high_of-low_of ci i (ground arith) b))
        ]))
        (sub i b)

  pub new-others : (j : ℕ) → own' j ≡ true → j ≢ n
  new-others j e same = elim (grows.old j e) [
    | inl t ↦ (inside ci j chosen t).1 same
    | inr t ↦ absurd (cc (at, t, ap view same))
  ]

  pub new-apart : (i j : ℕ) → i ≤ slot_count q → part i j ≡ true → own' j ≡ true → i ≡ ci
  new-apart i j b e e' = elim (grows.old j e') [
    | inl t ↦ apart i ci j b chosen e t
    | inr t ↦ let (x, there) = owned j (inside i j b e).0 in absurd (cc (there, t))
  ]

  pub node-kept : view' n ≡ some p
  node-kept =
      grows.kept n p
        (elim (Bool-cases (part ci n)) [
          | inl t ↦ absurd ((inside ci n chosen t).1 refl)
          | inr t ↦ t
        ])
        at

  -- The child stays one tree.
  pub Pieces-replaced :
      IsTree view' map' own' (low_of q lo ci) (high_of q hi ci) levels (child_at q ci)
      → Pieces view' map'
          (joined own own')
          n
          lo
          hi
          levels
          (slot_count q)
          (key_at q)
          (child_at q)
          (replaced part ci own')
  unfolding replaced
  Pieces-replaced tree = record {
    strict = h.strict;
    low = h.low;
    high = h.high;
    small = h.ids;
    owns = λ i j b e. elim (Bool-cases (i == ci)) [
      | inl s ↦ joined-right own own' j (subst (λ x. (if x then own' else part i) j ≡ true) s e)
      | inr s ↦
          joined-left own own' j
            (inside i j b (subst (λ x. (if x then own' else part i) j ≡ true) s e)).0
    ];
    others = λ i j b e. elim (Bool-cases (i == ci)) [
      | inl s ↦ new-others j (subst (λ x. (if x then own' else part i) j ≡ true) s e)
      | inr s ↦ (inside i j b (subst (λ x. (if x then own' else part i) j ≡ true) s e)).1
    ];
    apart = λ i i' j b b' e e'. elim (Bool-cases (i == ci)) [
      | inl s ↦ elim (Bool-cases (i' == ci)) [
        | inl s' ↦ ==→eq i ci s ∙ sym (==→eq i' ci s')
        | inr s' ↦
            let f = subst (λ x. (if x then own' else part i) j ≡ true) s e in
            let f' = subst (λ x. (if x then own' else part i') j ≡ true) s' e' in
            ==→eq i ci s ∙ sym (new-apart i' j b' f' f)
      ]
      | inr s ↦ elim (Bool-cases (i' == ci)) [
        | inl s' ↦
            let f = subst (λ x. (if x then own' else part i) j ≡ true) s e in
            let f' = subst (λ x. (if x then own' else part i') j ≡ true) s' e' in
            new-apart i j b f f' ∙ sym (==→eq i' ci s')
        | inr s' ↦
            let f = subst (λ x. (if x then own' else part i) j ≡ true) s e in
            let f' = subst (λ x. (if x then own' else part i') j ≡ true) s' e' in
            apart i i' j b b' f f'
      ]
    ];
    sub = λ i b. elim (Bool-cases (i == ci)) [
      | inl s ↦
          let same : i ≡ ci = ==→eq i ci s in
          rw s (
            subst
              (λ x. IsTree view' map' own' (low_of q lo x) (high_of q hi x) levels (child_at q x))
              (sym same) tree)
      | inr s ↦ rw s (rest i b (==→ne i ci s))
    ];
  }
