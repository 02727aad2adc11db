-- ===== src/Tests/Codec.antt =====
-- Runs of the lexer and of the record codec.
use labdb.Prelude.{
  List, get_elem?, check_that, ok, ◌<◌, ◌^◌, ◌≡◌, refl, arith, true, false, [], ◌∷◌, ◌++◌, some,
  ltb, ◌-◌, ◌≤◌,
}
use labdb.Token.{Token, codes}
use labdb.Lexer.Progress.{tokenize-IsReturned}
use labdb.Lexer.{Lexed, tokenize, Cursor, string_body, start}
use labdb.Lexer.Escape.{escape, string_body-escape}
use labdb.Common.{zeroes, put, load}
use labdb.Record.Project.{project-decode}
use labdb.Record.{
  Row, Field, project, Rid, rid_encode, rid_decode, order_key_int, order_key_text, ColType, Schema,
  Encoded, decode, fixed_part_bytes,
}
use labdb.Record.Rids.{rid_decode-rid_encode}
use labdb.Record.Keys.{order_key_int-ltb, order_key_text_mono, int_ltb, int_value}

-- The text of `it's` behind its first quote, with a comma after it.
string_body-escape_example :
    (s' : Cursor) × (string_body (escape (105 ∷ 116 ∷ 39 ∷ 115 ∷ []) ++ 39 ∷ 44 ∷ []) (start [])
      ≡ some (105 ∷ 116 ∷ 39 ∷ 115 ∷ [], s'))
    × (s'.rest ≡ 44 ∷ [])
string_body-escape_example =
    string_body-escape (105 ∷ 116 ∷ 39 ∷ 115 ∷ []) (44 ∷ []) (start [])
      (λ e. absurd (omega (arith, e)))

abbrev rid : Rid
rid = record { page = 12; slot = 34 }

rid_decode-rid_encode_example : (rid_encode rid < 2 ^ 64) × (rid_decode (rid_encode rid) ≡ rid)
rid_decode-rid_encode_example = rid_decode-rid_encode rid (omega arith) (omega arith)

-- minus one and one
order_key_int-ltb_example :
    ltb (order_key_int (2 ^ 64 - 1)) (order_key_int 1)
    ≡ int_ltb (int_value (2 ^ 64 - 1)) (int_value 1)
order_key_int-ltb_example = order_key_int-ltb (2 ^ 64 - 1) 1 (omega arith) (omega arith)

order_key_text_mono_example : order_key_text (97 ∷ 98 ∷ []) ≤ order_key_text (98 ∷ [])
order_key_text_mono_example =
    order_key_text_mono (97 ∷ 98 ∷ []) (98 ∷ []) (omega arith, (omega arith, tt)) (omega arith, tt)
      refl

abbrev schema : Schema
schema =
    record { name = 105 ∷ []; type = ColType.int64; nullable = false }
    ∷ record { name = 116 ∷ []; type = ColType.text_; nullable = true }
    ∷ []

-- 42 and "hi"
abbrev row_record : Encoded
row_record = record { bytes = put (put (put (put zeroes 1 42) 11 2) 13 104) 14 105; size = 20 }

abbrev row : Row
row =
    record { type = ColType.int64; is_null = false; bits = 42; text = [] }
    ∷ record { type = ColType.text_; is_null = false; bits = 0; text = 104 ∷ 105 ∷ [] }
    ∷ []

decodes : decode schema row_record ≡ ok row
unfolding decode fixed_part_bytes load put check_that
decodes = refl

-- Three stale fields, the first of them a text.
abbrev stale : Row
stale =
    record { type = ColType.text_; is_null = false; bits = 7; text = 120 ∷ [] }
    ∷ record { type = ColType.int64; is_null = true; bits = 8; text = [] }
    ∷ record { type = ColType.bool; is_null = false; bits = 1; text = [] }
    ∷ []

project-decode_example :
    (v : Field) × (get_elem? row 1 ≡ some v) × (project schema row_record 1 ≡ ok v)
project-decode_example = project-decode schema row_record row 1 decodes (omega arith)

tokenize-IsReturned_example :
    (r : Lexed (List Token)) × (tokenize (codes "SELECT 'a' <= -3.5;") ≡ some r)
tokenize-IsReturned_example = tokenize-IsReturned (codes "SELECT 'a' <= -3.5;")
