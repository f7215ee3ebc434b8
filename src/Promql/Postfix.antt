-- ===== src/Promql/Postfix.antt =====
-- internal/promql/parse.go: what follows a selector: ranges, subqueries, offset and @.
use omni_metrics.Prelude.{
  ℕ, zero, suc, [], ◌∷◌, Bool, true, false, none, some, length, Str, if◌then◌else◌,
}
use omni_metrics.Prelude.Int.{ℤ, pos}
use omni_metrics.Promql.Token.{
  is_type, t_duration, t_lbracket, t_rbracket, t_colon, t_at, t_add, t_sub,
}
use omni_metrics.Promql.Ast.{Expr, AtModifier, vector_selector, matrix_selector, subquery_expr}
use omni_metrics.Prelude.Int64.{neg_int64}
use omni_metrics.Promql.Duration.{parse_duration}
use omni_metrics.Promql.Parser.{
  bad_duration, range_after_other, misplaced_modifier, parsed, panicked, out_of_fuel, Parser, ◌>>=◌,
  ◌>>◌, pure, fail, fueled, peek, next_token, expect, is_word,
}
use omni_metrics.Promql.Selector.{Calls, or_bad, parse_at_modifier}

unfoldable pub set_offset : ℤ → Expr → Parser Expr
set_offset off (vector_selector vs) = pure (vector_selector (record vs { offset = off }))
set_offset off (matrix_selector vs range offset at) = pure (matrix_selector vs range off at)
set_offset off (subquery_expr e range step offset at) = pure (subquery_expr e range step off at)
set_offset off _ = fail misplaced_modifier

unfoldable pub set_at : AtModifier → Expr → Parser Expr
set_at at (vector_selector vs) = pure (vector_selector (record vs { at = some at }))
set_at at (matrix_selector vs range offset a) = pure (matrix_selector vs range offset (some at))
set_at at (subquery_expr e range step offset a) = pure (subquery_expr e range step offset (some at))
set_at at _ = fail misplaced_modifier

unfoldable pub parse_duration_token : Parser ℤ
parse_duration_token = do d ← expect t_duration; or_bad (bad_duration d.val) (parse_duration d.val)

-- The sign in front of an offset.
unfoldable pub parse_sign : Parser Bool
parse_sign [] = panicked
parse_sign (t ∷ ts) =
    if is_type t_sub t
    then parsed true ts
    else if is_type t_add t
    then parsed false ts
    else parsed false (t ∷ ts)

unfoldable pub parse_offset : Parser ℤ
unfolding parse_sign parse_duration_token
parse_offset = do
  neg ← parse_sign
  off ← parse_duration_token
  pure (if neg then neg_int64 off else off)

-- The step of a subquery, 0 if there is none.
unfoldable pub parse_step : Parser ℤ
parse_step [] = panicked
parse_step (t ∷ ts) =
    if is_type t_duration t then parse_duration_token (t ∷ ts) else parsed (pos 0) (t ∷ ts)

unfoldable pub new_matrix : Str → ℤ → Expr → Parser Expr
new_matrix text range (vector_selector vs) = pure (matrix_selector vs range (pos 0) none)
new_matrix text range _ = fail (range_after_other text)

unfoldable pub finish_subquery : Expr → ℤ → Parser Expr
finish_subquery e range = do
  next_token
  step ← parse_step
  expect t_rbracket
  pure (subquery_expr e range step (pos 0) none)

unfoldable pub finish_matrix : Str → Expr → ℤ → Parser Expr
finish_matrix text e range = do expect t_rbracket; new_matrix text range e

-- `[range]` or `[range:step]` behind the bracket.
unfoldable pub parse_range : Expr → Parser Expr
unfolding parse_duration_token parse_step new_matrix finish_subquery finish_matrix
parse_range e = do
  d ← expect t_duration
  range ← or_bad (bad_duration d.val) (parse_duration d.val)
  t ← peek
  (if is_type t_colon t then finish_subquery e range else finish_matrix d.val e range)

module _ (c : Calls) where
  unfoldable pub modifiers : ℕ → Expr → Parser Expr
  modifiers zero e ts = out_of_fuel
  modifiers (suc fuel) e [] = panicked
  modifiers (suc fuel) e (t ∷ ts) =
      let offset : Parser Expr = do off ← parse_offset; e' ← set_offset off e; modifiers fuel e'
      in let at : Parser Expr = do a ← parse_at_modifier c; e' ← set_at a e; modifiers fuel e'
        in if is_word "offset" t
          then offset ts
          else if is_type t_at t
          then at ts
          else parsed e (t ∷ ts)

  unfoldable pub parse_postfix : Expr → Parser Expr
  parse_postfix e [] = panicked
  parse_postfix e (t ∷ ts) =
      let ranged : Parser Expr = do e' ← parse_range e; fueled (λ n. modifiers n e')
      in if is_type t_lbracket t then ranged ts else modifiers (length (t ∷ ts)) e (t ∷ ts)
