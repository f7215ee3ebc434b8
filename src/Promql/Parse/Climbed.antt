-- ===== src/Promql/Parse/Climbed.antt =====
-- Trees that respect the precedence and associativity of the operators (internal/promql/parse.go,
-- parseExpr).
use omni_metrics.Prelude.{ℕ, ◌+◌, ◌≤◌, ◌<◌, ◌≡◌, ◌≢◌, ◌==◌, if◌then◌else◌}
use omni_metrics.Promql.Token.{
  TokenType, t_land, t_lor, t_lunless, t_eql_cmp, t_neq, t_gtr, t_lss, t_gte, t_lte, t_add, t_sub,
  t_mul, t_div, t_mod, t_pow,
}
use omni_metrics.Promql.Ast.{
  Expr, Args, Param, number_literal, string_literal, vector_selector, matrix_selector,
  subquery_expr, call, aggregate_expr, binary_expr, unary_expr, paren_expr, no_args, arg, no_param,
  param,
}
use mathlib.Core.List.{[]}

-- The precedences that PromQL gives its operators, from loose to tight: `or`; `and` and `unless`;
-- comparisons; sums; products and remainders; powers. Other tokens are no operator.
unfoldable pub prec_of : TokenType → ℕ
prec_of t_lor = 1
prec_of t_land = 2
prec_of t_lunless = 2
prec_of t_eql_cmp = 3
prec_of t_neq = 3
prec_of t_gtr = 3
prec_of t_lss = 3
prec_of t_gte = 3
prec_of t_lte = 3
prec_of t_add = 4
prec_of t_sub = 4
prec_of t_mul = 5
prec_of t_div = 5
prec_of t_mod = 5
prec_of t_pow = 6
prec_of _ = 0

-- How tight the outermost operator of a tree binds. A sign binds as a power does, so it is no left
-- operand of one; a tree without an operator binds tightest.
unfoldable pub top : Expr → ℕ
unfolding prec_of
top (binary_expr op l r m b) = prec_of op
top (unary_expr op e) = 6
top _ = 7

-- The least precedence that an operator's left and right operands may have: `^` groups to the right,
-- the others to the left.
abbrev pub least_left : ℕ → ℕ
least_left p = if p == 6 then 7 else p

abbrev pub least_right : ℕ → ℕ
least_right p = if p == 6 then 6 else p + 1

unfoldable mutual
  unfolding top prec_of

  pub Climbed : Expr → Type 0
  Climbed (number_literal f) = Unit
  Climbed (string_literal s) = Unit
  Climbed (vector_selector vs) = vs.matchers ≢ []
  Climbed (matrix_selector vs range offset at) = vs.matchers ≢ []
  Climbed (subquery_expr e range step offset at) = Climbed e
  Climbed (call name as_) = ClimbedArgs as_
  Climbed (aggregate_expr op e p grouping without) = Climbed e × ClimbedParam p
  Climbed (binary_expr op l r m b) =
      Climbed l
      × Climbed r
      × (0 < prec_of op)
      × (least_left (prec_of op) ≤ top l)
      × (least_right (prec_of op) ≤ top r)
  Climbed (unary_expr op e) = Climbed e × (6 ≤ top e)
  Climbed (paren_expr e) = Climbed e

  pub ClimbedArgs : Args → Type 0
  ClimbedArgs no_args = Unit
  ClimbedArgs (arg e rest) = Climbed e × ClimbedArgs rest

  pub ClimbedParam : Param → Type 0
  ClimbedParam no_param = Unit
  ClimbedParam (param e) = Climbed e

-- A tree that may stand as an operand of any operator.
abbrev pub IsClosed : Expr → Type 0
IsClosed e = Climbed e × (top e ≡ 7)
