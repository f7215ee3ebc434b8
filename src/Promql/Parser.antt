-- ===== src/Promql/Parser.antt =====
-- internal/promql/parse.go: the parser's state and its small steps. A parser gets the tokens from the
-- cursor on; a step past the last one is a panic.
use omni_metrics.Prelude.{
  ℕ, zero, suc, List, [], ◌∷◌, ◌++◌, Bool, length, Str, if◌then◌else◌, String, bytes, str_eq, ◌&&◌,
}
use omni_metrics.Promql.Token.{TokenType, Token, is_type, t_identifier, t_comma, t_lparen, t_rparen}

pub data ParseError : Type 0 where
  expected : TokenType → Str → ParseError
  expected_close : Str → ParseError
  bad_number : Str → ParseError
  bad_duration : Str → ParseError
  bad_operator : Str → ParseError
  bad_matcher : Str → ParseError
  bad_modifier : Str → ParseError
  unexpected_token : Str → ParseError
  trailing_token : Str → ParseError
  empty_selector : ParseError
  range_after_other : Str → ParseError
  misplaced_modifier : ParseError

pub data Parsed {ℓ} (A : Type ℓ) : Type ℓ where
  parsed : A → List Token → Parsed A
  bad : ParseError → Parsed A
  panicked : Parsed A
  out_of_fuel : Parsed A

abbrev pub Parser {ℓ} : Type ℓ → Type ℓ
Parser A = List Token → Parsed A

abbrev pub bind {ℓ κ} : {A : Type ℓ} {B : Type κ} → Parsed A → (A → Parser B) → Parsed B
bind (parsed a rest) f = f a rest
bind (bad e) f = bad e
bind panicked f = panicked
bind out_of_fuel f = out_of_fuel

infixl 1 ◌>>=◌ ◌>>◌
abbrev pub ◌>>=◌ {ℓ κ} : {A : Type ℓ} {B : Type κ} → Parser A → (A → Parser B) → Parser B
p >>= f = λ ts. bind (p ts) f

abbrev pub ◌>>◌ {ℓ κ} : {A : Type ℓ} {B : Type κ} → Parser A → Parser B → Parser B
p >> q = λ ts. bind (p ts) (λ _. q)

abbrev pub pure {ℓ} : {A : Type ℓ} → A → Parser A
pure a ts = parsed a ts

abbrev pub fail {ℓ} : {A : Type ℓ} → ParseError → Parser A
fail e ts = bad e

-- With one unit of fuel for each token from the cursor on.
abbrev pub fueled {ℓ} : {A : Type ℓ} → (ℕ → Parser A) → Parser A
fueled p ts = p (length ts) ts

unfoldable pub peek : Parser Token
peek [] = panicked
peek (t ∷ ts) = parsed t (t ∷ ts)

unfoldable pub next_token : Parser Token
next_token [] = panicked
next_token (t ∷ ts) = parsed t ts

unfoldable pub expect : TokenType → Parser Token
expect typ [] = panicked
expect typ (t ∷ ts) = if is_type typ t then parsed t ts else bad (expected typ t.val)

-- `t.typ == tIdentifier && t.val == word`.
unfoldable pub is_word : String → Token → Bool
is_word word t = is_type t_identifier t && str_eq t.val (bytes word)

-- Behind an element of a list in brackets: a comma, or the closing bracket, which stays.
unfoldable pub separator : TokenType → Parser (Unit {0})
separator close [] = panicked
separator close (t ∷ ts) =
    if is_type t_comma t
    then parsed tt ts
    else if is_type close t
    then parsed tt (t ∷ ts)
    else bad (expected_close t.val)

-- The loop that `parseLabelList` and `parseGrouping` share, with the closing bracket.
unfoldable pub label_loop : ℕ → List Str → Parser (List Str)
label_loop zero acc ts = out_of_fuel
label_loop (suc fuel) acc [] = panicked
label_loop (suc fuel) acc (t ∷ ts) =
    let more : Parser (List Str) = do
      l ← expect t_identifier
      separator t_rparen
      label_loop fuel (acc ++ (l.val ∷ []))
    in if is_type t_rparen t then parsed acc ts else more (t ∷ ts)

unfoldable pub parse_label_list : Parser (List Str)
unfolding expect
parse_label_list = do expect t_lparen; fueled (λ n. label_loop n [])
