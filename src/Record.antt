-- ===== src/Record.antt =====
-- src/record.hpp: typed rows as bytes. An `int64_t` is its 64-bit pattern, and so is a `double`, which
-- the codec only moves; texts are lists of bytes.
pub mod Keys
pub mod Rids
pub mod Layout
pub mod Project
use Prim.Native.Nat.{bit_or}
use labdb.Prelude.{
  ℕ, zero, suc, ◌+◌, ◌-◌, ◌*◌, ◌/◌, ◌%◌, ◌^◌, Bool, true, false, not, List, [], ◌∷◌, ◌++◌, Option,
  none, some, if◌then◌else◌, ◌==◌, leb, ltb, length, get_or, Outcome, ok, fail, check_that, ◌>>=◌,
  ◌>>◌,
}
use labdb.Common.{Bytes, zeroes, put, load_u16, load_u32, load_u64, store_u16, store_u32, store_u64}

pub data ColType : Type 0 where
  int64 int32 bool text_ double : ColType

abbrev pub is_fixed : ColType → Bool
is_fixed ColType.text_ = false
is_fixed _ = true

abbrev pub fixed_width : ColType → ℕ
fixed_width ColType.int64 = 8
fixed_width ColType.int32 = 4
fixed_width ColType.bool = 1
fixed_width ColType.text_ = 0
fixed_width ColType.double = 8

abbrev pub slot_width : ColType → ℕ
slot_width ColType.text_ = 4
slot_width t = fixed_width t

pub record Column : Type 0 where
  pub name : List ℕ
  pub type : ColType
  pub nullable : Bool

abbrev pub Schema : Type 0
Schema = List Column

abbrev pub null_bitmap_bytes : Schema → ℕ
null_bitmap_bytes s = (length s + 7) / 8

unfoldable pub fixed_part_bytes : Schema → ℕ
fixed_part_bytes [] = 0
fixed_part_bytes (c ∷ s) = slot_width c.type + fixed_part_bytes s

-- The loop of `slot_offset`, over the columns before the `i`th.
unfoldable pub slots_before : Schema → ℕ → ℕ
slots_before [] i = 0
slots_before (c ∷ s) zero = 0
slots_before (c ∷ s) (suc i) = slot_width c.type + slots_before s i

unfoldable pub slot_offset : Schema → ℕ → ℕ
unfolding slots_before
slot_offset s i = null_bitmap_bytes s + slots_before s i

pub record Field : Type 0 where
  pub type : ColType
  pub is_null : Bool
  pub bits : ℕ
  pub text : List ℕ

abbrev pub Row : Type 0
Row = List Field

-- Field()
abbrev pub new_field : Field
new_field = record { type = ColType.int64; is_null = false; bits = 0; text = [] }

-- Field::Null
abbrev pub null_field : ColType → Field
null_field t = record { type = t; is_null = true; bits = 0; text = [] }

-- A record's bytes.
pub record Encoded : Type 0 where
  pub bytes : Bytes
  pub size : ℕ

-- What the loop of `encode` writes: the bitmap and the fixed part, and the variable part.
pub record Parts : Type 0 where
  pub out : Bytes
  pub var : List ℕ

-- The write of the value of `v`, not null, to the slot at `off`.
unfoldable pub encode_value : ColType → Field → ℕ → Parts → Outcome Parts
encode_value ColType.int64 v off p = ok (record p { out = store_u64 p.out off v.bits })
encode_value ColType.int32 v off p = ok (record p { out = store_u32 p.out off (v.bits % 2 ^ 32) })
encode_value ColType.bool v off p =
    ok (record p { out = put p.out off (if v.bits == 0 then 0 else 1) })
encode_value ColType.double v off p = ok (record p { out = store_u64 p.out off v.bits })
encode_value ColType.text_ v off p = do
  check_that (leb (length v.text) 0xFFFF) "text too long for a 16-bit length"
  ok (record {
    out = store_u16 (store_u16 p.out off (length p.var)) (off + 2) (length v.text);
    var = p.var ++ v.text;
  })

-- One round of the loop of `encode`, for the `i`th column.
unfoldable pub encode_column : ColType → Field → ℕ → ℕ → Parts → Outcome Parts
unfolding encode_value
encode_column t v i off p =
    if v.is_null
    then ok (record p { out = put p.out (i / 8) (bit_or (p.out (i / 8)) (2 ^ (i % 8))) })
    else encode_value t v off p

unfoldable pub encode_columns : Schema → Schema → Row → ℕ → Parts → Outcome Parts
unfolding encode_column slot_offset
encode_columns s (c ∷ cs) (v ∷ row) i p = do
  p' ← encode_column c.type v i (slot_offset s i) p
  encode_columns s cs row (i + 1) p'
encode_columns s _ _ i p = ok p

-- The parts put together: the variable part behind the fixed part.
unfoldable pub assemble : Schema → Parts → Encoded
assemble s p =
    let head = null_bitmap_bytes s + fixed_part_bytes s in
    record {
      bytes = λ i. if ltb i head then p.out i else get_or p.var (i - head) 0;
      size = head + length p.var;
    }

unfoldable pub encode : Schema → Row → Outcome Encoded
unfolding encode_columns assemble
encode s row = do
  check_that (length row == length s) "row has the wrong number of columns"
  p ← encode_columns s s row 0 (record { out = zeroes; var = [] })
  ok (assemble s p)

abbrev pub null_at : Bytes → ℕ → Bool
null_at rec i = rec (i / 8) / 2 ^ (i % 8) % 2 == 1

-- static_cast<int64_t> of an int32_t's pattern
unfoldable pub sign_extend : ℕ → ℕ
sign_extend n = if ltb n (2 ^ 31) then n else n + (2 ^ 64 - 2 ^ 32)

-- The `n` bytes from `at` on.
unfoldable pub text_at : Bytes → ℕ → ℕ → List ℕ
text_at p at zero = []
text_at p at (suc n) = p at ∷ text_at p (at + 1) n

unfoldable pub fixed_bits : ColType → Bytes → ℕ → ℕ
unfolding sign_extend
fixed_bits ColType.int64 p off = load_u64 p off
fixed_bits ColType.int32 p off = sign_extend (load_u32 p off)
fixed_bits ColType.double p off = load_u64 p off
fixed_bits _ p off = if p off == 0 then 0 else 1

read_text : Schema → Encoded → ℕ → Outcome Field
unfolding text_at
read_text s rec off = do
  check_that (leb (off + 4) rec.size) "record truncated at a text pointer"
  let vstart = null_bitmap_bytes s + fixed_part_bytes s + load_u16 rec.bytes off
  let vlen = load_u16 rec.bytes (off + 2)
  check_that (leb (vstart + vlen) rec.size) "text pointer runs off the record"
  ok (record {
    type = ColType.text_;
    is_null = false;
    bits = 0;
    text = text_at rec.bytes vstart vlen;
  })

read_fixed : ColType → Encoded → ℕ → Outcome Field
unfolding fixed_bits
read_fixed t rec off = do
  check_that (leb (off + fixed_width t) rec.size) "record truncated mid-column"
  ok (record { type = t; is_null = false; bits = fixed_bits t rec.bytes off; text = [] })

unfoldable pub read_at : Schema → Encoded → ColType → ℕ → Outcome Field
unfolding read_text read_fixed
read_at s rec ColType.text_ off = read_text s rec off
read_at s rec t off = read_fixed t rec off

-- The value of the `i`th column, whose type is `t`.
unfoldable pub column_value : Schema → Encoded → ColType → ℕ → Outcome Field
unfolding read_at slot_offset
column_value s rec t i =
    if null_at rec.bytes i then ok (null_field t) else read_at s rec t (slot_offset s i)

abbrev pub column_type : Schema → ℕ → ColType
column_type [] i = ColType.int64
column_type (c ∷ s) zero = c.type
column_type (c ∷ s) (suc i) = column_type s i

unfoldable pub project : Schema → Encoded → ℕ → Outcome Field
unfolding column_value
project s rec col = do
  check_that (ltb col (length s)) "column index out of range"
  check_that (leb (null_bitmap_bytes s) rec.size) "record shorter than its bitmap"
  column_value s rec (column_type s col) col

-- The loop of `decode`, over the columns from the `i`th on.
unfoldable pub decode_columns : Schema → Schema → Encoded → ℕ → Outcome Row
unfolding column_value
decode_columns s [] rec i = ok []
decode_columns s (c ∷ cs) rec i = do
  v ← column_value s rec c.type i
  row ← decode_columns s cs rec (i + 1)
  ok (v ∷ row)

unfoldable pub decode : Schema → Encoded → Outcome Row
unfolding decode_columns
decode s rec = do
  check_that (leb (null_bitmap_bytes s) rec.size) "record shorter than its bitmap"
  decode_columns s s rec 0

pub record RecordLayout : Type 0 where
  pub types : List ColType
  pub slot : List ℕ
  pub nulls : ℕ
  pub var_start : ℕ

-- The loop of the constructor, from the offset `off` on.
unfoldable pub layout_types : Schema → List ColType
layout_types [] = []
layout_types (c ∷ s) = c.type ∷ layout_types s

unfoldable pub layout_slots : Schema → ℕ → List ℕ
layout_slots [] off = []
layout_slots (c ∷ s) off = off ∷ layout_slots s (off + slot_width c.type)

unfoldable pub record_layout : Schema → RecordLayout
unfolding layout_types layout_slots
record_layout s = record {
  types = layout_types s;
  slot = layout_slots s (null_bitmap_bytes s);
  nulls = null_bitmap_bytes s;
  var_start = null_bitmap_bytes s + fixed_part_bytes s;
}

-- One round of `decode_into`: the field that it leaves where `old` was. A text is assigned with no write
-- to the number beside it.
unfoldable pub into_column : RecordLayout → Encoded → ColType → ℕ → ℕ → Field → Outcome Field
unfolding fixed_bits text_at
into_column l rec ColType.text_ at i old =
    let vstart = l.var_start + load_u16 rec.bytes at in
    let vlen = load_u16 rec.bytes (at + 2) in
    if null_at rec.bytes i then ok (null_field ColType.text_) else do
      check_that (leb (vstart + vlen) rec.size) "text pointer runs off the record"
      ok (record {
        type = ColType.text_;
        is_null = false;
        bits = old.bits;
        text = text_at rec.bytes vstart vlen;
      })
into_column l rec t at i old =
    if null_at rec.bytes i
    then ok (null_field t)
    else ok (record { type = t; is_null = false; bits = fixed_bits t rec.bytes at; text = [] })

unfoldable pub into_columns : RecordLayout → Encoded → List ColType → List ℕ → ℕ → Row → Outcome Row
unfolding into_column
into_columns l rec (t ∷ ts) (at ∷ slots) i (old ∷ row) = do
  v ← into_column l rec t at i old
  row' ← into_columns l rec ts slots (i + 1) row
  ok (v ∷ row')
into_columns l rec _ _ i _ = ok []

-- row.resize(n)
unfoldable pub resize : ℕ → Row → Row
resize zero row = []
resize (suc n) [] = new_field ∷ resize n []
resize (suc n) (v ∷ row) = v ∷ resize n row

-- The row that `row` becomes. What a failure leaves in it is not modelled.
unfoldable pub decode_into : RecordLayout → Encoded → Row → Outcome Row
unfolding into_columns resize
decode_into l rec row = do
  check_that (leb l.var_start rec.size) "record shorter than its fixed part"
  into_columns l rec l.types l.slot 0 (resize (length l.types) row)

-- The 64-bit keys whose unsigned order is the values' order. An XOR with the top bit is an addition
-- of it, and the top bit of a double's pattern is its sign; `zero` is the pattern of the comparison
-- `v == 0 ? 0.0 : v`, which turns the pattern of -0.0 into that of 0.0.
unfoldable pub order_key_int : ℕ → ℕ
order_key_int v = (v + 2 ^ 63) % 2 ^ 64

unfoldable pub order_key_double : ℕ → ℕ
order_key_double v =
    let b : ℕ = if v == 2 ^ 63 then 0 else v in
    if leb (2 ^ 63) b then 2 ^ 64 - 1 - b else b + 2 ^ 63

-- The loop of `order_key_text`, over `left` of the 8 bytes; each fills its own bits.
unfoldable pub text_key : ℕ → List ℕ → ℕ
text_key zero t = 0
text_key (suc left) [] = 0
text_key (suc left) (c ∷ t) = c * 256 ^ left + text_key left t

unfoldable pub order_key_text : List ℕ → ℕ
unfolding text_key
order_key_text t = text_key 8 t

unfoldable pub order_key : Field → ℕ
unfolding order_key_text order_key_double order_key_int
order_key f = elim f.type [
  | ColType.text_ ↦ order_key_text f.text
  | ColType.double ↦ order_key_double f.bits
  | _ ↦ order_key_int f.bits
]

pub record Rid : Type 0 where
  pub page : ℕ
  pub slot : ℕ

-- The shifted page and the slot have no bit in common, so `|` is `+`.
unfoldable pub rid_encode : Rid → ℕ
rid_encode r = r.page * 2 ^ 16 % 2 ^ 64 + r.slot

unfoldable pub rid_decode : ℕ → Rid
rid_decode v = record { page = v / 2 ^ 16 % 2 ^ 32; slot = v % 2 ^ 16 }
