-- ===== src/Promql/Parse.antt =====
-- internal/promql/parse.go: the recursive descent parser. The functions below take `self`, the
-- parser of an expression of a least precedence, which `parse_expr` ties to itself.
pub mod Climbed
pub mod Total
pub mod Lists
pub mod Selectors
pub mod Operands
pub mod Climbing
use omni_metrics.Prelude.{
  ℕ, zero, suc, ◌+◌, ◌-◌, List, [], ◌∷◌, ◌++◌, Bool, true, false, not, ◌&&◌, ◌||◌, Option, none,
  some, ltb, ◌==◌, length, String, Str, bytes, str_eq, if◌then◌else◌,
}
use omni_metrics.Prelude.Int.{ℤ, pos}
use omni_metrics.Model.Labels.{metric_name}
use omni_metrics.Model.Matcher.{
  MatchType, Matcher, match_equal, match_not_equal, match_regexp, match_not_regexp, new_matcher,
}
use omni_metrics.Promql.Token.{
  TokenType, Token, is_type, t_eof, t_identifier, t_number, t_string, t_duration, t_lbrace,
  t_rbrace, t_lbracket, t_rbracket, t_lparen, t_rparen, t_comma, t_colon, t_at, t_land, t_lor,
  t_lunless, t_eql, t_neq, t_eql_regex, t_neq_regex, t_add, t_sub, t_mul, t_div, t_mod, t_pow,
  t_eql_cmp, t_gtr, t_lss, t_gte, t_lte,
}
use omni_metrics.Promql.Lex.{Lexed, LexError, lexed, lex_error, lex}
use omni_metrics.Promql.Lex
use omni_metrics.Promql.Ast.{
  Expr, Args, Param, AtModifier, VectorSelector, VectorMatching, MatchCardinality, number_literal,
  string_literal, vector_selector, matrix_selector, subquery_expr, call, aggregate_expr,
  binary_expr, unary_expr, paren_expr, no_args, arg, no_param, param, at_time, at_start, at_end,
  card_one_to_one, card_many_to_one, card_one_to_many, among, aggregators, param_aggregators,
  functions,
}
use omni_metrics.Prelude.Int64.{neg_int64}
use omni_metrics.Promql.Duration.{parse_duration}
use omni_metrics.Promql.Parser.{
  ParseError, expected, bad_number, bad_duration, bad_operator, bad_matcher, bad_modifier,
  unexpected_token, trailing_token, empty_selector, range_after_other, misplaced_modifier, Parsed,
  parsed, bad, panicked, out_of_fuel, Parser, ◌>>=◌, ◌>>◌, pure, fail, fueled, peek, next_token,
  expect, is_word, separator, label_loop, parse_label_list,
}
use omni_metrics.Promql.Operator.{binary_prec, binary_op_info, parse_vector_matching}
use omni_metrics.Promql.Selector.{Calls, or_bad, parse_selector_from, parse_at_modifier}
use omni_metrics.Promql.Postfix.{parse_postfix}

-- `by (…)` or `without (…)`, if one stands at the cursor.
unfoldable pub parse_grouping : Parser (Bool × Option (List Str))
parse_grouping [] = panicked
parse_grouping (t ∷ ts) =
    let clause : Parser (Bool × Option (List Str)) = do
      labels ← parse_label_list
      pure (is_word "without" t, some labels)
    in if is_word "by" t || is_word "without" t then clause ts else parsed (false, none) (t ∷ ts)

-- The clause behind the arguments is read if none stood in front of them.
unfoldable pub late_grouping : Bool × Option (List Str) → Parser (Bool × Option (List Str))
late_grouping (w, none) = parse_grouping
late_grouping (w, some ls) = pure (w, some ls)

-- The precedence that the right operand wants at least.
abbrev pub next_min : TokenType → ℕ → ℕ
next_min op prec = if is_type op (record { typ = t_pow; val = []; pos = 0 }) then prec else prec + 1

-- The optional `bool`.
unfoldable pub parse_bool : Parser Bool
parse_bool [] = panicked
parse_bool (t ∷ ts) = if is_word "bool" t then parsed true ts else parsed false (t ∷ ts)

module _ (c : Calls) (self : ℕ → Parser Expr) where
  unfoldable pub arg_loop : ℕ → Parser Args
  arg_loop zero ts = out_of_fuel
  arg_loop (suc fuel) ts =
      let more : Expr → Parser Args =
        λ a. (do next_token; rest ← arg_loop fuel; pure (arg a rest)) in
      let after : Parser Args = do
        a ← self 0
        t ← peek
        (if is_type t_comma t then more a else pure (arg a no_args))
      in after ts

  unfoldable pub parse_args : Parser Args
  parse_args [] = panicked
  parse_args (t ∷ ts) =
      if is_type t_rparen t then parsed no_args (t ∷ ts) else arg_loop (length (t ∷ ts)) (t ∷ ts)

  unfoldable pub parse_call : Str → Parser Expr
  parse_call name = do expect t_lparen; args ← parse_args; expect t_rparen; pure (call name args)

  unfoldable pub parse_param : Str → Parser Param
  parse_param op =
      let leading : Parser Param = do p ← self 0; expect t_comma; pure (param p)
      in if among op param_aggregators then leading else pure no_param

  unfoldable pub parse_aggregate : Str → Parser Expr
  parse_aggregate op = do
    early ← parse_grouping
    expect t_lparen
    p ← parse_param op
    e ← self 0
    expect t_rparen
    grouping ← late_grouping early
    pure (aggregate_expr op e p grouping.1 grouping.0)

  unfoldable pub parse_paren : Parser Expr
  parse_paren = do e ← self 0; expect t_rparen; pure (paren_expr e)

  unfoldable pub parse_base : Parser Expr
  unfolding parse_paren
  parse_base [] = panicked
  parse_base (t ∷ ts) =
      if is_type t_number t
      then (if (c.parse_float t.val).1
          then parsed (number_literal (c.parse_float t.val).0) ts
          else bad (bad_number t.val))
      else if is_type t_string t
      then parsed (string_literal t.val) ts
      else if is_type t_lparen t
      then parse_paren ts
      else if is_type t_lbrace t
      then parse_selector_from c [] (t ∷ ts)
      else if is_type t_identifier t
      then (if among t.val aggregators
          then parse_aggregate t.val ts
          else if among t.val functions
          then parse_call t.val ts
          else parse_selector_from c t.val ts)
      else bad (unexpected_token t.val)

  unfoldable pub parse_primary : Parser Expr
  parse_primary = do e ← parse_base; parse_postfix c e

  -- A unary minus takes an operand of the precedence of `^`; a plus is passed over.
  unfoldable pub parse_unary : Parser Expr
  parse_unary [] = panicked
  parse_unary (t ∷ ts) =
      let negated : Parser Expr = do e ← self (binary_prec t_pow); pure (unary_expr t_sub e)
      in let plain = parse_unary ts in
        if is_type t_sub t
        then negated ts
        else if is_type t_add t
        then plain
        else parse_primary (t ∷ ts)

  -- The loop of `parseExpr`, with the left operand so far.
  unfoldable pub climb : ℕ → ℕ → Expr → Parser Expr
  climb zero min left ts = out_of_fuel
  climb (suc fuel) min left [] = panicked
  climb (suc fuel) min left (t ∷ ts) =
      let (op, prec) = binary_op_info t in
      let more : Parser Expr = do
        return_bool ← parse_bool
        m ← parse_vector_matching
        right ← self (next_min op prec)
        climb fuel min (binary_expr op left right m return_bool)
      in if prec == 0 || ltb prec min then parsed left (t ∷ ts) else more ts

unfoldable pub parse_expr : Calls → ℕ → ℕ → Parser Expr
parse_expr c zero min ts = out_of_fuel
parse_expr c (suc fuel) min ts =
    (do
      left ← parse_unary c (parse_expr c fuel)
      fueled (λ n. climb c (parse_expr c fuel) n min left))
      ts

unfoldable pub finish : Expr → Parser Expr
finish e [] = panicked
finish e (t ∷ ts) = if is_type t_eof t then parsed e (t ∷ ts) else bad (trailing_token t.val)

-- What `Parse` returns: a tree, the lexer's error, or what the parser does.
pub data Parsing : Type 0 where
  tree : Expr → Parsing
  lexing_failed : LexError → Parsing
  parsing_failed : ParseError → Parsing
  crashed : Parsing
  exhausted : Parsing

abbrev pub outcome : Parsed Expr → Parsing
outcome (parsed e rest) = tree e
outcome (bad e) = parsing_failed e
outcome panicked = crashed
outcome out_of_fuel = exhausted

abbrev pub parse_tokens : Calls → Parser Expr
parse_tokens c = do e ← fueled (λ n. parse_expr c n 0); finish e

abbrev pub parse_lexed : Calls → Lexed → Parsing
parse_lexed c (lexed ts) = outcome (parse_tokens c ts)
parse_lexed c (lex_error e) = lexing_failed e
parse_lexed c Lex.out_of_fuel = exhausted

unfoldable pub parse : Calls → Str → Parsing
parse c input = parse_lexed c (lex input)
