-- ===== src/Parser/Script.antt =====
-- src/parser.cpp: statements and scripts.
use labdb.Prelude.{ℕ, zero, suc, ◌+◌, ◌||◌, List, [], ◌∷◌, ◌++◌, if◌then◌else◌, length}
use labdb.Token.{TokenType, codes, ◌is◌}
use labdb.Ast.{Statement}
use labdb.Parser.{
  Rule, spent, ok, ◌>>=◌, ◌>>◌, peek, advance, check, accept, fail, parse_create, parse_insert,
}
use labdb.Parser.Select.{parse_select}

module _ (double_of : List ℕ → ℕ) where
  unfoldable pub parse_statement : Rule Statement
  unfolding parse_create parse_insert parse_select
  parse_statement = do
    t ← peek
    elim t.type [
      | TokenType.create ↦ parse_create
      | TokenType.insert ↦ parse_insert double_of
      | TokenType.select ↦ parse_select double_of
      | TokenType.begin ↦ advance >> ok Statement.begin
      | TokenType.commit ↦ advance >> ok Statement.commit
      | TokenType.rollback ↦ advance >> ok Statement.rollback
      | _ ↦ fail (codes "expected a statement (CREATE, INSERT, SELECT, BEGIN, COMMIT, or ROLLBACK)")
    ]

  unfoldable pub parse_single : Rule Statement
  unfolding parse_statement
  parse_single = do
    s ← parse_statement
    accept TokenType.semicolon
    t ← peek
    if t.type is TokenType.end
        then ok s
        else fail (codes "expected the end of the statement, found '" ++ t.text ++ codes "'")

  -- The loop of `parse_script`, on fuel: a statement takes a token at least.
  unfoldable pub statements : ℕ → Rule (List Statement)
  unfolding parse_statement
  statements zero = λ toks. spent
  statements (suc fuel) = do
    end ← check TokenType.end
    if end then ok [] else do
      s ← parse_statement
      semicolon ← accept TokenType.semicolon
      done ← check TokenType.end
      if semicolon || done
          then (statements fuel >>= λ ss. ok (s ∷ ss))
          else fail (codes "expected ';' between statements")

  unfoldable pub parse_script : Rule (List Statement)
  unfolding statements
  parse_script = λ toks. statements (length toks + 1) toks
