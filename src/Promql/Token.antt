-- ===== src/Promql/Token.antt =====
-- internal/promql/lex.go: the types of tokens and the tokens.
use omni_metrics.Prelude.{ℕ, List, [], ◌∷◌, Bool, ◌==◌, Str, ◌≡◌, ◌≢◌}

pub data TokenType : Type 0 where
  t_eof t_identifier t_number t_string t_duration : TokenType
  t_lbrace t_rbrace t_lbracket t_rbracket t_lparen t_rparen t_comma t_colon t_at : TokenType
  t_land t_lor t_lunless : TokenType
  t_eql t_neq t_eql_regex t_neq_regex : TokenType
  t_add t_sub t_mul t_div t_mod t_pow : TokenType
  t_eql_cmp t_gtr t_lss t_gte t_lte : TokenType

-- The constants' numbers, by which Go compares them.
unfoldable pub number : TokenType → ℕ
number t_eof = 0
number t_identifier = 1
number t_number = 2
number t_string = 3
number t_duration = 4
number t_lbrace = 5
number t_rbrace = 6
number t_lbracket = 7
number t_rbracket = 8
number t_lparen = 9
number t_rparen = 10
number t_comma = 11
number t_colon = 12
number t_at = 13
number t_land = 14
number t_lor = 15
number t_lunless = 16
number t_eql = 17
number t_neq = 18
number t_eql_regex = 19
number t_neq_regex = 20
number t_add = 21
number t_sub = 22
number t_mul = 23
number t_div = 24
number t_mod = 25
number t_pow = 26
number t_eql_cmp = 27
number t_gtr = 28
number t_lss = 29
number t_gte = 30
number t_lte = 31

pub record Token : Type 0 where
  pub typ : TokenType
  pub val : Str
  pub pos : ℕ

-- `t.typ == typ`.
unfoldable pub is_type : TokenType → Token → Bool
unfolding number
is_type typ t = number t.typ == number typ

-- What the lexer hands to the parser: the last token is the end of the input.
abbrev pub IsStream : List Token → Type 0
IsStream [] = ⊥
IsStream (t ∷ []) = t.typ ≡ t_eof
IsStream (t ∷ (u ∷ us)) = IsStream (u ∷ us)

-- Behind a token that is not the end there is a stream.
pub IsStream-tail : (t : Token) (ts : List Token) → IsStream (t ∷ ts) → t.typ ≢ t_eof → IsStream ts
IsStream-tail t [] s h = absurd (h s)
IsStream-tail t (u ∷ us) s h = s
