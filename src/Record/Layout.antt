-- ===== src/Record/Layout.antt =====
-- The decoders agree: `decode` is `project` of each column, and `decode_into` with the offsets of a
-- `RecordLayout` is `decode`, over whatever row.
use labdb.Prelude.{[], ◌∷◌, true, false, Outcome, ok, ◌>>=◌}
use labdb.Record.{ColType, Field, Row}

-- A field as its readers see it: the number beside a text, which may be an earlier row's, is not read.
abbrev pub seen : Field → Field
seen v = elim v.is_null [
  | true ↦ v
  | false ↦ elim v.type [ ColType.text_ ↦ record v { bits = 0 } | _ ↦ v ]
]

abbrev pub seen_row : Row → Row
seen_row [] = []
seen_row (v ∷ row) = seen v ∷ seen_row row

abbrev pub seen_field : Outcome Field → Outcome Field
seen_field r = r >>= λ v. ok (seen v)

abbrev pub seen_result : Outcome Row → Outcome Row
seen_result r = r >>= λ row. ok (seen_row row)
