-- ===== src/Btree/LeafInsert.antt =====
-- Insertion into a leaf that has room, and a new value for a key that is there.
use labdb.Prelude.{
  ℕ, ◌+◌, ◌-◌, ◌≤◌, ◌<◌, ◌^◌, ◌≡◌, ◌≢◌, ◌⊎◌, arith, ap, sym, ◌∙◌, none, some, ◌==◌, ltb, inl, inr,
  Bool-cases, ==→eq,
}
use labdb.Common.{load}
use labdb.Common.Fields.{load-store_apart, load-store_self}
use labdb.Page.{Page, slot_count}
use labdb.Btree.{leaf_max_entries, base, leaf_key_at, value_at, insert_at, set_value_at}
use labdb.Btree.Bounds.{IsLower}
use labdb.Btree.Leaves.{
  insert_at-before, insert_at_here, insert_at_after, count-insert_at, header-insert_at,
}
use labdb.Btree.Shape.{Map, IsLeaf}

-- `map'` is `map` but for the key `k`, which has the value `v`.
pub record Assigns (map map' : Map) (k v : ℕ) : Type 0 where
  pub at : map' k ≡ some v
  pub other : (j : ℕ) → k ≢ j → map' j ≡ map j

-- Where the entry `i` of a leaf comes from, when the entry of `k` is put at `r`.
data Source (p q : Page) (r k v : ℕ) (i : ℕ) : Type 0 where
  old : i < r → leaf_key_at q i ≡ leaf_key_at p i → value_at q i ≡ value_at p i → Source p q r k v i
  new : i ≡ r → leaf_key_at q i ≡ k → value_at q i ≡ v → Source p q r k v i
  moved :
      r < i
      → leaf_key_at q i ≡ leaf_key_at p (i - 1)
      → value_at q i ≡ value_at p (i - 1)
      → Source p q r k v i

module _ (p : Page) (n lo hi : ℕ) (map map' : Map) (r k v : ℕ) (h : IsLeaf p n lo hi map)
    (assigns : Assigns map map' k v) (free : map k ≡ none)
    (lower : IsLower (leaf_key_at p) (slot_count p) k r) (l : lo ≤ k) (u : k < hi)
    (key : k < 2 ^ 64) (value : v < 2 ^ 64) where
  q : Page
  q = insert_at p r k v

  source : (i : ℕ) → i ≤ slot_count p → Source p q r k v i
  unfolding q
  source i b = elim (Bool-cases (i == r)) [
    | inl e ↦
        let same : i ≡ r = ==→eq i r e in
        let here = insert_at_here p r k v key value in
        new same (ap (leaf_key_at q) same ∙ ap (λ x. x.0) here)
          (ap (value_at q) same ∙ ap (λ x. x.1) here)
    | inr e ↦ elim (Bool-cases (ltb i r)) [
      | inl e' ↦
          let before = insert_at-before p r k v key value i (ground arith) in
          old (ground arith) (ap (λ x. x.0) before) (ap (λ x. x.1) before)
      | inr e' ↦
          let less : r < i = ground arith in
          let after = insert_at_after p r k v key value (i - 1) (omega arith) (omega arith) in
          let here : i ≡ i - 1 + 1 = omega arith in
          moved less (ap (leaf_key_at q) here ∙ ap (λ x. x.0) after)
            (ap (value_at q) here ∙ ap (λ x. x.1) after)
    ]
  ]

  other_key : (i : ℕ) → i < slot_count p → k ≢ leaf_key_at p i
  other_key i b e = absurd (cc (free, h.here i b, ap map e))

  new-IsStrict : (i j : ℕ) → i < j → j ≤ slot_count p → leaf_key_at q i < leaf_key_at q j
  new-IsStrict i j a b =
      let go : Source p q r k v i → Source p q r k v j → leaf_key_at q i < leaf_key_at q j = λ f g.
        elim f [
          | old x e _ ↦ elim g [
            | old y e' _ ↦ omega (arith, e, e', h.strict i j a (omega (arith, lower.within)))
            | new y e' _ ↦ omega (arith, e, e', lower.below i x)
            | moved y e' _ ↦ omega (arith, e, e', h.strict i (j - 1) (omega arith) (omega arith))
          ]
          | new x e _ ↦ elim g [
            | old y e' _ ↦ absurd (omega arith)
            | new y e' _ ↦ absurd (omega arith)
            | moved y e' _ ↦ omega (
              arith,
              e,
              e',
              lower.above (j - 1) (omega arith) (omega arith),
              other_key (j - 1) (omega arith),
            )
          ]
          | moved x e _ ↦ elim g [
            | old y e' _ ↦ absurd (omega arith)
            | new y e' _ ↦ absurd (omega arith)
            | moved y e' _ ↦
                omega (arith, e, e', h.strict (i - 1) (j - 1) (omega arith) (omega arith))
          ]
        ] in
      go (source i (omega arith)) (source j b)

  new_low : (i : ℕ) → i ≤ slot_count p → (lo ≤ leaf_key_at q i) × (leaf_key_at q i < hi)
  new_low i b = elim (source i b) [
    | old x e _ ↦
        let c : i < slot_count p = omega (arith, lower.within) in
        (omega (arith, e, h.low i c), omega (arith, e, h.high i c))
    | new x e _ ↦ (omega (arith, e), omega (arith, e))
    | moved x e _ ↦ (
      omega (arith, e, h.low (i - 1) (omega arith)),
      omega (arith, e, h.high (i - 1) (omega arith)),
    )
  ]

  new_here : (i : ℕ) → i ≤ slot_count p → map' (leaf_key_at q i) ≡ some (value_at q i)
  new_here i b = elim (source i b) [
    | old x e f ↦
        let c : i < slot_count p = omega (arith, lower.within) in
        ap map' e ∙ assigns.other (leaf_key_at p i) (other_key i c) ∙ h.here i c ∙ ap some (sym f)
    | new x e f ↦ ap map' e ∙ assigns.at ∙ ap some (sym f)
    | moved x e f ↦
        let c : i - 1 < slot_count p = omega arith in
        ap map' e
        ∙ assigns.other (leaf_key_at p (i - 1)) (other_key (i - 1) c)
        ∙ h.here (i - 1) c
        ∙ ap some (sym f)
  ]

  new_gone :
      (j : ℕ) → lo ≤ j → j < hi → ((i : ℕ) → i ≤ slot_count p → leaf_key_at q i ≢ j) → map' j ≡ none
  unfolding q
  new_gone j a b none_here =
      let here = ap (λ x. x.0) (insert_at_here p r k v key value) in
      let ne : k ≢ j = λ e. none_here r lower.within (here ∙ e) in
      assigns.other j ne
      ∙ h.gone j a b (λ i c e. elim (Bool-cases (ltb i r)) [
        | inl s ↦
            none_here i (omega arith)
              (ap (λ x. x.0) (insert_at-before p r k v key value i (ground arith)) ∙ e)
        | inr s ↦
            none_here (i + 1) (omega arith)
              (ap (λ x. x.0) (insert_at_after p r k v key value i (ground arith) c) ∙ e)
      ])

  -- A leaf with room keeps well formed, and holds the map with the new entry.
  pub IsLeaf-insert_at : slot_count p < leaf_max_entries → IsLeaf (insert_at p r k v) n lo hi map'
  unfolding q
  IsLeaf-insert_at room =
      let count : slot_count (insert_at p r k v) ≡ slot_count p + 1 =
        count-insert_at p r k v key value (omega arith) in
      record {
        leaf =
            ap (λ (t : ℕ). t == 4) (header-insert_at p r k v key value 2 4 (omega arith)) ∙ h.leaf;
        self = header-insert_at p r k v key value 4 0 (omega arith) ∙ h.self;
        fits = omega (arith, count);
        strict = λ i j a b. new-IsStrict i j a (omega (arith, count));
        low = λ i b. (new_low i (omega (arith, count))).0;
        high = λ i b. (new_low i (omega (arith, count))).1;
        here = λ i b. new_here i (omega (arith, count));
        gone = λ j a b c. new_gone j a b (λ i d. c i (omega (arith, count)));
      }

-- The value of the entry `r` replaced.
module _ (p : Page) (n lo hi : ℕ) (map map' : Map) (r v : ℕ) (h : IsLeaf p n lo hi map)
    (inside : r < slot_count p) (assigns : Assigns map map' (leaf_key_at p r) v)
    (value : v < 2 ^ 64) where
  field_apart :
      (w o : ℕ)
      → (o + w ≤ base r + 8) ⊎ (base (r + 1) ≤ o)
      → load w (set_value_at p r v) o ≡ load w p o
  unfolding set_value_at
  field_apart w o a = load-store_apart 8 p (base r + 8) v w o (omega arith)

  same_key : (i : ℕ) → leaf_key_at (set_value_at p r v) i ≡ leaf_key_at p i
  same_key i = elim (Bool-cases (ltb r i)) [
    | inl e ↦ field_apart 8 (base i) (inr (ground arith))
    | inr e ↦ field_apart 8 (base i) (inl (ground arith))
  ]

  pub IsLeaf-set_value_at : IsLeaf (set_value_at p r v) n lo hi map'
  unfolding set_value_at
  IsLeaf-set_value_at =
      let p' = set_value_at p r v in
      let count : slot_count p' ≡ slot_count p = field_apart 2 6 (omega arith) in
      record {
        leaf = ap (λ (t : ℕ). t == 4) (field_apart 2 4 (omega arith)) ∙ h.leaf;
        self = field_apart 4 0 (omega arith) ∙ h.self;
        fits = omega (arith, count, h.fits);
        strict =
            λ i j a b. omega (arith, same_key i, same_key j, h.strict i j a (omega (arith, count)));
        low = λ i b. omega (arith, same_key i, h.low i (omega (arith, count)));
        high = λ i b. omega (arith, same_key i, h.high i (omega (arith, count)));
        here = λ i b. elim (Bool-cases (i == r)) [
          | inl e ↦
              let same : i ≡ r = ==→eq i r e in
              ap map' (same_key i ∙ ap (leaf_key_at p) same)
              ∙ assigns.at
              ∙ ap some
                  (sym (ap (value_at p') same ∙ load-store_self 8 p (base r + 8) v (omega arith)))
          | inr e ↦
              let c : i < slot_count p = omega (arith, count) in
              let ne : leaf_key_at p r ≢ leaf_key_at p i = λ e'. elim (Bool-cases (ltb i r)) [
                | inl s ↦ omega (arith, h.strict i r (ground arith) inside)
                | inr s ↦ omega (arith, h.strict r i (ground arith) c)
              ] in
              ap map' (same_key i)
              ∙ assigns.other (leaf_key_at p i) ne
              ∙ h.here i c
              ∙ ap some (sym (field_apart 8 (base i + 8) (ground arith)))
        ];
        gone = λ j a b c.
            let ne : leaf_key_at p r ≢ j = λ e. c r (omega (arith, count)) (same_key r ∙ e) in
            assigns.other j ne
            ∙ h.gone j a b (λ i d e. c i (omega (arith, count)) (same_key i ∙ e));
      }
