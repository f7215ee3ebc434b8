-- ===== src/Promql/Parse/Total.antt =====
-- The parser takes tokens that form a stream, answers with a tree or an error, and never reads past
-- the end (internal/promql/parse.go).
use omni_metrics.Prelude.{
  ℕ, ◌≤◌, ◌<◌, List, [], ◌∷◌, Bool, true, false, ◌≡◌, ◌≢◌, refl, ap, arith, length, if◌then◌else◌,
}
use omni_metrics.Promql.Token.{TokenType, Token, IsStream, IsStream-tail, is_type, number, t_eof}
use omni_metrics.Promql.Parser.{ParseError, Parsed, parsed, bad, Parser, bind, expect}

-- A parser's answer that is an error, or a value for which `Q` holds with the tokens behind it,
-- which are a stream and fewer than `n`.
module _ {A : Type 0} where
  pub data Good (Q : A → List Token → Type 0) (n : ℕ) : Parsed A → Type 0 where
    good :
        (a : A) (rest : List Token)
        → IsStream rest
        → length rest < n
        → Q a rest
        → Good Q n (parsed a rest)
    refused : (e : ParseError) → Good Q n (bad e)

abbrev pub Any : {A : Type 0} → A → List Token → Type 0
Any a rest = Unit

pub Good-bind :
    {A B : Type 0} {Q : A → List Token → Type 0} {R : B → List Token → Type 0} {n m : ℕ}
    {p : Parsed A} {f : A → Parser B}
    → Good Q n p
    → ((a : A) (rest : List Token)
        → IsStream rest
        → length rest < n
        → Q a rest
        → Good R m (f a rest))
    → Good R m (bind p f)
Good-bind (good a rest s h q) k = k a rest s h q
Good-bind (refused e) k = refused e

pub Good-if :
    {A : Type 0} {Q : A → List Token → Type 0} {n : ℕ} (b : Bool) {x y : Parsed A}
    → (b ≡ true → Good Q n x)
    → (b ≡ false → Good Q n y)
    → Good Q n (if b then x else y)
Good-if true h k = h refl
Good-if false h k = k refl

-- A larger bound, and less of the value.
pub Good-weaken :
    {A : Type 0} {Q R : A → List Token → Type 0} {n m : ℕ} {p : Parsed A}
    → n ≤ m
    → ((a : A) (rest : List Token) → Q a rest → R a rest)
    → Good Q n p
    → Good R m p
Good-weaken l w (good a rest s h q) = good a rest s (omega arith) (w a rest q)
Good-weaken l w (refused e) = refused e

pub number_eof : (typ : TokenType) → number typ ≡ 0 → typ ≡ t_eof
unfolding number
number_eof t_eof h = refl
number_eof _ h = absurd (omega arith)

-- A test for another type than the end's tells that the token is not the end.
pub ne-eof : (typ : TokenType) (t : Token) → is_type typ t ≡ true → typ ≢ t_eof → t.typ ≢ t_eof
unfolding is_type number
ne-eof typ t h k e = k (number_eof typ (ground (arith, ap number e)))

pub expect-Good :
    (typ : TokenType) (ts : List Token)
    → typ ≢ t_eof
    → IsStream ts
    → Good Any (length ts) (expect typ ts)
unfolding expect
expect-Good typ [] k s = absurd s
expect-Good typ (t ∷ ts) k s =
    Good-if (is_type typ t)
      (λ e. good t ts (IsStream-tail t ts s (ne-eof typ t e k)) (omega arith) tt) (λ e. refused _)
