-- ===== src/Promql/Operator.antt =====
-- internal/promql/parse.go: operators, their precedence and the matching of vectors.
use omni_metrics.Prelude.{
  ℕ, List, [], ◌∷◌, Bool, false, ◌||◌, Option, none, some, Str, bytes, str_eq, if◌then◌else◌,
}
use omni_metrics.Promql.Token.{
  TokenType, Token, is_type, t_eof, t_identifier, t_lparen, t_land, t_lor, t_lunless, t_neq, t_add,
  t_sub, t_mul, t_div, t_mod, t_pow, t_eql_cmp, t_gtr, t_lss, t_gte, t_lte,
}
use omni_metrics.Promql.Ast.{
  VectorMatching, MatchCardinality, card_one_to_one, card_many_to_one, card_one_to_many,
}
use omni_metrics.Promql.Parser.{parsed, panicked, Parser, ◌>>=◌, pure, is_word, parse_label_list}

-- 0 stands for no operator.
unfoldable pub binary_prec : TokenType → ℕ
binary_prec t_eql_cmp = 3
binary_prec t_neq = 3
binary_prec t_gtr = 3
binary_prec t_lss = 3
binary_prec t_gte = 3
binary_prec t_lte = 3
binary_prec t_add = 4
binary_prec t_sub = 4
binary_prec t_mul = 5
binary_prec t_div = 5
binary_prec t_mod = 5
binary_prec t_pow = 6
binary_prec _ = 0

unfoldable pub binary_op_info : Token → TokenType × ℕ
binary_op_info t =
    if is_type t_identifier t
    then (if str_eq t.val (bytes "or")
        then (t_lor, 1)
        else if str_eq t.val (bytes "and")
        then (t_land, 2)
        else if str_eq t.val (bytes "unless")
        then (t_lunless, 2)
        else (t_eof, 0))
    else (t.typ, binary_prec t.typ)

-- The optional `on` or `ignoring` clause.
unfoldable pub parse_on : Parser (Option (Bool × List Str))
parse_on [] = panicked
parse_on (t ∷ ts) =
    let clause : Parser (Option (Bool × List Str)) = do
      labels ← parse_label_list
      pure (some (is_word "on" t, labels))
    in if is_word "on" t || is_word "ignoring" t then clause ts else parsed none (t ∷ ts)

-- The labels that `group_left` and `group_right` may take.
unfoldable pub parse_include : Parser (List Str)
parse_include [] = panicked
parse_include (t ∷ ts) =
    if is_type t_lparen t then parse_label_list (t ∷ ts) else parsed [] (t ∷ ts)

abbrev pub matching : Option (Bool × List Str) → MatchCardinality → List Str → VectorMatching
matching none card labels = record {
  on = false;
  matching_labels = [];
  card = card;
  include_labels = labels;
}
matching (some (on, ls)) card labels = record {
  on = on;
  matching_labels = ls;
  card = card;
  include_labels = labels;
}

abbrev pub only_on : Option (Bool × List Str) → Option VectorMatching
only_on none = none
only_on (some c) = some (matching (some c) card_one_to_one [])

-- The rest of `parseVectorMatching`, behind the clause.
unfoldable pub parse_group : Option (Bool × List Str) → Parser (Option VectorMatching)
unfolding parse_include
parse_group clause [] = panicked
parse_group clause (t ∷ ts) =
    let grouped : MatchCardinality → Parser (Option VectorMatching) =
      λ card. (do labels ← parse_include; pure (some (matching clause card labels))) in
    if is_word "group_left" t
    then grouped card_many_to_one ts
    else if is_word "group_right" t
    then grouped card_one_to_many ts
    else parsed (only_on clause) (t ∷ ts)

unfoldable pub parse_vector_matching : Parser (Option VectorMatching)
parse_vector_matching = do clause ← parse_on; parse_group clause
