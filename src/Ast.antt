-- ===== src/Ast.antt =====
-- src/ast.hpp: the shapes of parsed statements. Names are lists of bytes; an absent qualifier or alias
-- is the empty name, as in the source.
use labdb.Prelude.{ℕ, String, Bool, List, [], ◌∷◌, Option}
use labdb.Prelude.Int.{ℤ}
use labdb.Token.{TokenType, token_type_name}
use labdb.Record.{Schema, Row, Field}

pub record CreateTableStmt : Type 0 where
  pub table : List ℕ
  pub schema : Schema

pub record CreateIndexStmt : Type 0 where
  pub table : List ℕ
  pub column : List ℕ

pub record InsertStmt : Type 0 where
  pub table : List ℕ
  pub values : Row

pub record ColumnRef : Type 0 where
  pub table : List ℕ
  pub column : List ℕ

pub data AggFunc : Type 0 where
  plain count sum avg min max : AggFunc

unfoldable pub agg_name : AggFunc → String
agg_name AggFunc.plain = ""
agg_name AggFunc.count = "COUNT"
agg_name AggFunc.sum = "SUM"
agg_name AggFunc.avg = "AVG"
agg_name AggFunc.min = "MIN"
agg_name AggFunc.max = "MAX"

pub record SelectItem : Type 0 where
  pub ref : ColumnRef
  pub func : AggFunc
  pub star : Bool
  pub alias : List ℕ

pub record Comparison : Type 0 where
  pub left : SelectItem
  pub op : TokenType
  pub right : Option ColumnRef
  pub literal : Field

pub record TableRef : Type 0 where
  pub name : List ℕ
  pub alias : List ℕ

unfoldable pub label : TableRef → List ℕ
label t = elim t.alias [ [] ↦ t.name | c ∷ l ↦ c ∷ l ]

pub record JoinClause : Type 0 where
  pub table : TableRef
  pub on : List Comparison

pub record OrderItem : Type 0 where
  pub value : SelectItem
  pub desc : Bool

pub record SelectStmt : Type 0 where
  pub star : Bool
  pub columns : List SelectItem
  pub from : TableRef
  pub joins : List JoinClause
  pub where_ : List Comparison
  pub group_by : List ColumnRef
  pub having : List Comparison
  pub order_by : List OrderItem
  pub limit : Option ℤ

pub data Statement : Type 0 where
  create : CreateTableStmt → Statement
  insert : InsertStmt → Statement
  select : SelectStmt → Statement
  create_index : CreateIndexStmt → Statement
  begin commit rollback : Statement

unfoldable pub op_symbol : TokenType → String
unfolding token_type_name
op_symbol op = token_type_name op
