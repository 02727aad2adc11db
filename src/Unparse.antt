-- ===== src/Unparse.antt =====
-- src/unparse.hpp: statements back into text. `double_text` is `std::to_chars` on a double's pattern, in
-- fixed form.
use labdb.Prelude.{
  ℕ, zero, suc, ◌+◌, ◌/◌, ◌%◌, String, Bool, false, ◌||◌, List, [], ◌∷◌, ◌++◌, none, some,
  if◌then◌else◌, ◌==◌, ltb,
}
use labdb.Prelude.Int.{ℤ, pos, negsuc}
use labdb.Token.{codes}
use labdb.Record.{ColType, Column, Field}
use labdb.Record.Keys.{int_value}
use labdb.Ast.{
  ColumnRef, AggFunc, agg_name, SelectItem, Comparison, TableRef, JoinClause, OrderItem, SelectStmt,
  Statement, op_symbol,
}
use labdb.Lexer.Escape.{escape}

unfoldable pub type_keyword : ColType → String
type_keyword ColType.int64 = "INT64"
type_keyword ColType.int32 = "INT32"
type_keyword ColType.bool = "BOOL"
type_keyword ColType.text_ = "TEXT"
type_keyword ColType.double = "DOUBLE"

-- The decimal digits of a number, before `behind`; 20 rounds are enough for 64 bits.
unfoldable pub digits_before : ℕ → ℕ → List ℕ → List ℕ
digits_before zero n behind = behind
digits_before (suc left) n behind =
    let here = (48 + n % 10) ∷ behind in
    let rest = digits_before left (n / 10) here in if ltb n 10 then here else rest

unfoldable pub decimal : ℕ → List ℕ
unfolding digits_before
decimal n = digits_before 20 n []

-- std::to_string
unfoldable pub int_text : ℤ → List ℕ
unfolding decimal
int_text (pos n) = decimal n
int_text (negsuc n) = 45 ∷ decimal (n + 1)

has_point : List ℕ → Bool
has_point [] = false
has_point (c ∷ l) = c == 46 || has_point l

-- The items with `comma` between them.
unfoldable pub separated : {A : Type 0} → List ℕ → (A → List ℕ) → List A → List ℕ
separated comma text [] = []
separated comma text (x ∷ []) = text x
separated comma text (x ∷ y ∷ l) = text x ++ comma ++ separated comma text (y ∷ l)

-- `lead` before a text that is not left out.
abbrev optional : {A : Type 0} → String → (List A → List ℕ) → List A → List ℕ
optional lead text [] = []
optional lead text (x ∷ l) = codes lead ++ text (x ∷ l)

unfoldable pub column_ref_sql : ColumnRef → List ℕ
column_ref_sql r = elim r.table [ [] ↦ r.column | c ∷ l ↦ (c ∷ l) ++ 46 ∷ r.column ]

unfoldable pub value_sql : SelectItem → List ℕ
unfolding column_ref_sql agg_name
value_sql v = elim v.func [
  | AggFunc.plain ↦ column_ref_sql v.ref
  | f ↦
      codes (agg_name f)
      ++ codes "("
      ++ (if v.star then codes "*" else column_ref_sql v.ref)
      ++ codes ")"
]

unfoldable pub table_ref_sql : TableRef → List ℕ
table_ref_sql t = elim t.alias [ [] ↦ t.name | c ∷ l ↦ t.name ++ 32 ∷ c ∷ l ]

unfoldable pub column_sql : Column → List ℕ
unfolding type_keyword
column_sql c =
    c.name
    ++ codes " "
    ++ codes (type_keyword c.type)
    ++ (if c.nullable then [] else codes " NOT NULL")

unfoldable pub item_sql : SelectItem → List ℕ
unfolding value_sql
item_sql v = value_sql v ++ optional " AS " (λ l. l) v.alias

unfoldable pub order_sql : OrderItem → List ℕ
unfolding value_sql
order_sql o = value_sql o.value ++ (if o.desc then codes " DESC" else [])

module _ (double_text : ℕ → List ℕ) where
  unfoldable pub literal_sql : Field → List ℕ
  unfolding has_point int_text escape
  literal_sql f =
      let digits = double_text f.bits in
      if f.is_null then codes "NULL" else elim f.type [
        | ColType.bool ↦ codes (if f.bits == 0 then "FALSE" else "TRUE")
        | ColType.text_ ↦ 39 ∷ escape f.text ++ 39 ∷ []
        | ColType.double ↦ if has_point digits then digits else digits ++ codes ".0"
        | _ ↦ int_text (int_value f.bits)
      ]

  unfoldable pub comparison_sql : Comparison → List ℕ
  unfolding value_sql column_ref_sql literal_sql op_symbol
  comparison_sql c =
      value_sql c.left
      ++ codes " "
      ++ codes (op_symbol c.op)
      ++ codes " "
      ++ (elim c.right [ some r ↦ column_ref_sql r | none ↦ literal_sql c.literal ])

  unfoldable pub condition_sql : List Comparison → List ℕ
  unfolding separated comparison_sql
  condition_sql terms = separated (codes " AND ") comparison_sql terms

  unfoldable pub joins_sql : List JoinClause → List ℕ
  unfolding table_ref_sql condition_sql
  joins_sql [] = []
  joins_sql (j ∷ js) =
      codes " JOIN " ++ table_ref_sql j.table ++ codes " ON " ++ condition_sql j.on ++ joins_sql js

  unfoldable pub select_sql : SelectStmt → List ℕ
  unfolding separated item_sql table_ref_sql joins_sql condition_sql column_ref_sql order_sql
      int_text
  select_sql s =
      codes "SELECT "
      ++ (if s.star then codes "*" else separated (codes ", ") item_sql s.columns)
      ++ codes " FROM "
      ++ table_ref_sql s.from
      ++ joins_sql s.joins
      ++ optional " WHERE " condition_sql s.where_
      ++ optional " GROUP BY " (separated (codes ", ") column_ref_sql) s.group_by
      ++ optional " HAVING " condition_sql s.having
      ++ optional " ORDER BY " (separated (codes ", ") order_sql) s.order_by
      ++ (elim s.limit [ none ↦ [] | some n ↦ codes " LIMIT " ++ int_text n ])

  unfoldable pub unparse : Statement → List ℕ
  unfolding separated column_sql literal_sql select_sql
  unparse (Statement.create c) =
      codes "CREATE TABLE "
      ++ c.table
      ++ codes " ("
      ++ separated (codes ", ") column_sql c.schema
      ++ codes ")"
  unparse (Statement.create_index c) =
      codes "CREATE INDEX ON " ++ c.table ++ codes " (" ++ c.column ++ codes ")"
  unparse Statement.begin = codes "BEGIN"
  unparse Statement.commit = codes "COMMIT"
  unparse Statement.rollback = codes "ROLLBACK"
  unparse (Statement.insert c) =
      codes "INSERT INTO "
      ++ c.table
      ++ codes " VALUES ("
      ++ separated (codes ", ") literal_sql c.values
      ++ codes ")"
  unparse (Statement.select s) = select_sql s
