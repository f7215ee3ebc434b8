-- ===== src/Promql/Lex.antt =====
-- internal/promql/lex.go: the lexer. A scan works on the input from its position on, and says how
-- many bytes it takes.
pub mod Stream
use omni_metrics.Prelude.{
  ℕ, zero, suc, ◌+◌, ◌-◌, List, [], ◌∷◌, Bool, true, false, not, ◌&&◌, ◌||◌, Option, none, some,
  leb, ltb, ◌==◌, length, take, drop, Str, bytes, if◌then◌else◌,
}
use omni_metrics.Promql.Token.{
  TokenType, Token, t_eof, t_identifier, t_number, t_string, t_duration, t_lbrace, t_rbrace,
  t_lbracket, t_rbracket, t_lparen, t_rparen, t_comma, t_colon, t_at, t_eql, t_neq, t_eql_regex,
  t_neq_regex, t_add, t_sub, t_mul, t_div, t_mod, t_pow, t_eql_cmp, t_gtr, t_lss, t_gte, t_lte,
}

unfoldable pub is_digit : ℕ → Bool
is_digit c = leb b'0' c && leb c b'9'

unfoldable pub is_duration_unit : ℕ → Bool
is_duration_unit c = c == b's' || c == b'm' || c == b'h' || c == b'd' || c == b'w' || c == b'y'

unfoldable pub is_ident_start : ℕ → Bool
is_ident_start c = c == b'_' || c == b':' || leb b'a' c && leb c b'z' || leb b'A' c && leb c b'Z'

unfoldable pub is_ident_cont : ℕ → Bool
is_ident_cont c = is_ident_start c || is_digit c

unfoldable pub is_space : ℕ → Bool
is_space c = c == b' ' || c == b'\t' || c == b'\n' || c == b'\r'

pub data LexError : Type 0 where
  unexpected_bang : ℕ → LexError
  unexpected_character : ℕ → ℕ → LexError
  unterminated_string : LexError

-- What is read at one place: nothing, a token that takes some bytes and leaves a bracket depth, or
-- an error.
pub data Scan : Type 0 where
  skip : Scan
  emit : Token → ℕ → ℕ → Scan
  refuse : LexError → Scan

-- The length of the run of bytes at the front that a test accepts.
unfoldable pub run : (ℕ → Bool) → Str → ℕ
run p [] = 0
run p (c ∷ cs) = let n = run p cs in if p c then suc n else 0

-- The token of the first bytes of the input.
abbrev pub cut : TokenType → ℕ → Str → ℕ → ℕ → Scan
cut typ n s i depth = emit (record { typ = typ; val = take n s; pos = i }) n depth

unfoldable pub unescape : ℕ → ℕ
unescape c = if c == b'n' then b'\n' else if c == b't' then b'\t' else c

abbrev pub push : ℕ → Option (Str × Str) → Option (Str × Str)
push c none = none
push c (some (s, rest)) = some (c ∷ s, rest)

-- `lexString` behind the opening quote: the text and what follows the closing quote.
unfoldable pub lex_string : ℕ → Str → Option (Str × Str)
lex_string quote [] = none
lex_string quote (c ∷ []) = if c == quote then some ([], []) else none
lex_string quote (c ∷ (d ∷ r)) = elim (c == b'\\') [
  | true ↦ push (unescape d) (lex_string quote r)
  | false ↦ elim (c == quote) [
    | true ↦ some ([], d ∷ r)
    | false ↦ push c (lex_string quote (d ∷ r))
  ]
]

pub record Digits : Type 0 where
  pub size : ℕ
  pub has_dot : Bool
  pub has_exp : Bool

abbrev pub is_exp : ℕ → Bool
is_exp c = c == b'e' || c == b'E'

-- The number at the front. `signed` says that the byte before was the `e` of an exponent, behind
-- which a sign is taken.
unfoldable pub lex_digits : Bool → Bool → Bool → Str → Digits
lex_digits dot exp signed [] = record { size = 0; has_dot = dot; has_exp = exp }
lex_digits dot exp signed (c ∷ cs) =
    let rest = lex_digits (dot || c == b'.') (exp || is_exp c) (is_exp c) cs in
    if is_digit c
      || c == b'.' && (not dot && not exp)
      || is_exp c && not exp
      || signed && (c == b'+' || c == b'-')
    then record rest { size = suc rest.size }
    else record { size = 0; has_dot = dot; has_exp = exp }

abbrev pub is_duration_part : ℕ → Bool
is_duration_part c = is_digit c || is_duration_unit c

abbrev pub starts_with : (ℕ → Bool) → Str → Bool
starts_with p [] = false
starts_with p (c ∷ cs) = p c

unfoldable pub lex_number_or_duration : Str → ℕ → ℕ → Scan
unfolding is_digit is_duration_unit lex_digits run
lex_number_or_duration s i depth =
    let d = lex_digits false false false s in
    if not d.has_dot && not d.has_exp && starts_with is_duration_unit (drop d.size s)
    then cut t_duration (d.size + run is_duration_part (drop d.size s)) s i depth
    else cut t_number d.size s i depth

abbrev quoted : Str → ℕ → ℕ → Option (Str × Str) → Scan
quoted cs i depth none = refuse unterminated_string
quoted cs i depth (some (s, rest)) =
    emit (record { typ = t_string; val = s; pos = i }) (suc (length cs - length rest)) depth

-- The cases of the switch behind the operators of one byte.
scan_rest : ℕ → ℕ → ℕ → Str → Scan
scan_rest depth i c cs =
    if c == b'"' || c == b'\''
    then quoted cs i depth (lex_string c cs)
    else if is_digit c || c == b'.' && starts_with is_digit cs
    then lex_number_or_duration (c ∷ cs) i depth
    else if is_ident_start c
    then cut t_identifier (suc (run is_ident_cont cs)) (c ∷ cs) i depth
    else refuse (unexpected_character c i)

-- The operators that may take two bytes.
scan_operator : ℕ → ℕ → ℕ → Str → Scan
unfolding scan_rest
scan_operator depth i c cs =
    if c == b'='
    then (if starts_with (◌==◌ b'~') cs
        then cut t_eql_regex 2 (c ∷ cs) i depth
        else if starts_with (◌==◌ b'=') cs
        then cut t_eql_cmp 2 (c ∷ cs) i depth
        else cut t_eql 1 (c ∷ cs) i depth)
    else if c == b'!'
    then (if starts_with (◌==◌ b'=') cs
        then cut t_neq 2 (c ∷ cs) i depth
        else if starts_with (◌==◌ b'~') cs
        then cut t_neq_regex 2 (c ∷ cs) i depth
        else refuse (unexpected_bang i))
    else if c == b'>'
    then (if starts_with (◌==◌ b'=') cs
        then cut t_gte 2 (c ∷ cs) i depth
        else cut t_gtr 1 (c ∷ cs) i depth)
    else if c == b'<'
    then (if starts_with (◌==◌ b'=') cs
        then cut t_lte 2 (c ∷ cs) i depth
        else cut t_lss 1 (c ∷ cs) i depth)
    else scan_rest depth i c cs

-- The tokens of one byte that leave the depth alone.
unfoldable pub single : ℕ → Option TokenType
single c =
    if c == b'{'
    then some t_lbrace
    else if c == b'}'
    then some t_rbrace
    else if c == b'@'
    then some t_at
    else if c == b'('
    then some t_lparen
    else if c == b')'
    then some t_rparen
    else if c == b','
    then some t_comma
    else if c == b'+'
    then some t_add
    else if c == b'-'
    then some t_sub
    else if c == b'*'
    then some t_mul
    else if c == b'/'
    then some t_div
    else if c == b'%'
    then some t_mod
    else if c == b'^'
    then some t_pow
    else none

unfoldable pub scan : ℕ → ℕ → ℕ → Str → Scan
unfolding scan_operator single
scan depth i c cs =
    if is_space c
    then skip
    else if c == b'['
    then cut t_lbracket 1 (c ∷ cs) i (depth + 1)
    else if c == b']'
    then cut t_rbracket 1 (c ∷ cs) i (depth - 1)
    else if c == b':' && ltb 0 depth
    then cut t_colon 1 (c ∷ cs) i depth
    else elim (single c) [
      | some typ ↦ cut typ 1 (c ∷ cs) i depth
      | none ↦ scan_operator depth i c cs
    ]

pub data Lexed : Type 0 where
  lexed : List Token → Lexed
  lex_error : LexError → Lexed
  out_of_fuel : Lexed

abbrev pub cons_token : Token → Lexed → Lexed
cons_token t (lexed ts) = lexed (t ∷ ts)
cons_token t (lex_error e) = lex_error e
cons_token t out_of_fuel = out_of_fuel

-- The loop of `lex`; each scan that does not fail takes a byte or more.
unfoldable pub lex_from : ℕ → ℕ → ℕ → Str → Lexed
lex_from fuel depth i [] = lexed (record { typ = t_eof; val = []; pos = i } ∷ [])
lex_from zero depth i (c ∷ cs) = out_of_fuel
lex_from (suc fuel) depth i (c ∷ cs) = elim (scan depth i c cs) [
  | skip ↦ lex_from fuel depth (i + 1) cs
  | emit t n depth' ↦ cons_token t (lex_from fuel depth' (i + n) (drop n (c ∷ cs)))
  | refuse e ↦ lex_error e
]

unfoldable pub lex : Str → Lexed
unfolding lex_from
lex input = lex_from (length input) 0 0 input
