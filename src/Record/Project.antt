-- ===== src/Record/Project.antt =====
-- One column read by `project` is the column that `decode` gives.
use native.Mathlib.Nat.{add-zero}
use labdb.Prelude.{
  ℕ, zero, suc, ◌+◌, ◌<◌, ◌≡◌, arith, ap, sym, ◌∙◌, [], ◌∷◌, some, leb, ltb-true, length, get_elem?,
  ok, check_that, returned, checked, ok-injective,
}
use labdb.Record.{
  Schema, Field, Row, Encoded, null_bitmap_bytes, column_type, column_value, decode_columns, decode,
  project,
}

module _ (s : Schema) (rec : Encoded) where
  decode_columns-column_value :
      (cs : Schema) (i : ℕ) (row : Row) (k : ℕ)
      → decode_columns s cs rec i ≡ ok row
      → k < length cs
      → (v : Field) × (get_elem? row k ≡ some v)
        × (column_value s rec (column_type cs k) (i + k) ≡ ok v)
  unfolding decode_columns
  decode_columns-column_value [] i row k h u = absurd (omega arith)
  decode_columns-column_value (c ∷ cs) i row zero h u =
      let (v, e, h1) = returned (column_value s rec c.type i) _ row h in
      let (vs, e', h2) = returned (decode_columns s cs rec (i + 1)) _ row h1 in
      (
        v,
        ap (λ (r : Row). get_elem? r 0) (sym (ok-injective h2)),
        ap (λ (j : ℕ). column_value s rec c.type j) (add-zero i) ∙ e,
      )
  decode_columns-column_value (c ∷ cs) i row (suc k) h u =
      let (v, e, h1) = returned (column_value s rec c.type i) _ row h in
      let (vs, e', h2) = returned (decode_columns s cs rec (i + 1)) _ row h1 in
      let (w, g, f) = decode_columns-column_value cs (i + 1) vs k e' (omega arith) in
      (
        w,
        ap (λ (r : Row). get_elem? r (suc k)) (sym (ok-injective h2)) ∙ g,
        ap (λ (j : ℕ). column_value s rec (column_type cs k) j) {x = i + suc k} {y = i + 1 + k}
              (omega arith)
            ∙ f,
      )

-- Where a record decodes to a row, reading one column alone gives that column of the row.
pub project-decode :
    (s : Schema) (rec : Encoded) (row : Row) (col : ℕ)
    → decode s rec ≡ ok row
    → col < length s
    → (v : Field) × (get_elem? row col ≡ some v) × (project s rec col ≡ ok v)
unfolding decode project check_that
project-decode s rec row col h u =
    let (t, e, h1) =
      returned (check_that (leb (null_bitmap_bytes s) rec.size) "record shorter than its bitmap") _
        row h in
    let whole = checked (leb (null_bitmap_bytes s) rec.size) _ t e in
    let (v, g, f) = decode_columns-column_value s rec s 0 row col h1 u in
    (
      v,
      g,
      rw (ltb-true col (length s) u, whole)
          (ap (λ (j : ℕ). column_value s rec (column_type s col) j) {x = col} {y = 0 + col}
              (omega arith)
            ∙ f),
    )
