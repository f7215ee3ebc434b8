-- ===== src/Promql/Lex/Stream.antt =====
-- The lexer always answers, and its tokens form a stream (internal/promql/lex.go, lex).
use omni_metrics.Prelude.{
  ℕ, zero, suc, ◌+◌, ◌-◌, ◌≤◌, ◌<◌, List, [], ◌∷◌, Bool, true, false, not, ◌&&◌, ◌||◌, Option, none,
  some, ◌≡◌, ◌≢◌, refl, ap, arith, Bool-cases, Option-cases, inl, inr, ◌⊎◌, ltb, ◌==◌, length, drop,
  length-drop, Str, if◌then◌else◌,
}
use omni_metrics.Promql.Token.{
  TokenType, Token, IsStream, t_eof, t_lbracket, t_rbracket, t_colon, t_eql, t_neq, t_eql_regex,
  t_neq_regex, t_eql_cmp, t_gtr, t_lss, t_gte, t_lte,
}
use omni_metrics.Promql.Lex.{
  Scan, skip, emit, refuse, LexError, run, cut, push, lex_string, lex_digits,
  lex_number_or_duration, single, scan, Lexed, lexed, lex_error, cons_token, lex_from, lex,
  is_digit, is_exp, is_duration_unit, is_duration_part, is_ident_start, is_ident_cont, is_space,
  unescape, Digits, starts_with, quoted, scan_rest, scan_operator,
}

-- A scan that emits a token takes at least a byte, at most the input, and its token is no end.
data IsScan (s : Str) : Scan → Type 0 where
  skipped : IsScan s skip
  emitted :
      {t : Token} {n depth : ℕ} → 0 < n → n ≤ length s → t.typ ≢ t_eof → IsScan s (emit t n depth)
  refused : {e : LexError} → IsScan s (refuse e)

IsScan-if :
    {s : Str} (b : Bool) {x y : Scan} → IsScan s x → IsScan s y → IsScan s (if b then x else y)
IsScan-if true h k = h
IsScan-if false h k = k

run-le : (p : ℕ → Bool) (s : Str) → run p s ≤ length s
unfolding run
run-le p [] = omega arith
run-le p (c ∷ cs) = ground (arith, run-le p cs)

push-eq_some :
    (c : ℕ) (o : Option (Str × Str)) (r : Str × Str)
    → push c o ≡ some r
    → (q : Str × Str) × (o ≡ some q) × (r.1 ≡ q.1)
push-eq_some c none r e = absurd (cc)
push-eq_some c (some q) r e = (q, refl, ground arith)

lex_string-lt : (q : ℕ) (s : Str) (r : Str × Str) → lex_string q s ≡ some r → length r.1 < length s
unfolding lex_string
lex_string-lt q [] r e = absurd (cc)
lex_string-lt q (c ∷ []) r e = ground arith
lex_string-lt q (c ∷ (d ∷ s)) r e = elim (Bool-cases (c == b'\\')) [
  | inl f ↦
      let (x, g, h) = push-eq_some (unescape d) (lex_string q s) r (rw (f, lex_string) at e) in
      omega (arith, lex_string-lt q s x g, ap (λ z. length z) h)
  | inr f ↦ elim (Bool-cases (c == q)) [
    | inl k ↦ let z = (rw (f, k, lex_string) at e) in ground arith
    | inr k ↦
        let (x, g, h) = push-eq_some c (lex_string q (d ∷ s)) r (rw (f, k, lex_string) at e) in
        omega (arith, lex_string-lt q (d ∷ s) x g, ap (λ z. length z) h)
  ]
]

lex_digits-le : (dot exp signed : Bool) (s : Str) → (lex_digits dot exp signed s).size ≤ length s
unfolding lex_digits
lex_digits-le dot exp signed [] = omega arith
lex_digits-le dot exp signed (c ∷ cs) =
    pick _ _ _ (lex_digits-le (dot || c == b'.') (exp || is_exp c) (is_exp c) cs)
  where
    pick :
        (b : Bool) (x : Digits) (m : ℕ)
        → x.size ≤ m
        → (if b
            then record x { size = suc x.size }
            else record { size = 0; has_dot = dot; has_exp = exp }).size
          ≤ suc m
    pick true x m h = omega arith
    pick false x m h = omega arith

lex_digits_pos :
    (c : ℕ) (cs : Str)
    → (is_digit c || c == b'.' && starts_with is_digit cs) ≡ true
    → 0 < (lex_digits false false false (c ∷ cs)).size
unfolding lex_digits
lex_digits_pos c cs h = ground arith

quoted-IsScan :
    (cs : Str) (c i depth : ℕ) (o : Option (Str × Str)) → IsScan (c ∷ cs) (quoted cs i depth o)
quoted-IsScan cs c i depth none = refused
quoted-IsScan cs c i depth (some (s, rest)) = emitted (omega arith) (omega arith) (λ e. cc)

number-IsScan :
    (c : ℕ) (cs : Str) (i depth : ℕ)
    → 0 < (lex_digits false false false (c ∷ cs)).size
    → IsScan (c ∷ cs) (lex_number_or_duration (c ∷ cs) i depth)
unfolding lex_number_or_duration
number-IsScan c cs i depth h =
    let d = lex_digits false false false (c ∷ cs) in
    let small = lex_digits-le false false false (c ∷ cs) in
    IsScan-if
      (not d.has_dot && not d.has_exp && starts_with is_duration_unit (drop d.size (c ∷ cs)))
      (emitted (omega arith)
        (omega (
          arith,
          run-le is_duration_part (drop d.size (c ∷ cs)),
          length-drop d.size (c ∷ cs),
          small,
        ))
        (λ e. cc))
      (emitted h small (λ e. cc))

scan_rest-IsScan : (depth i c : ℕ) (cs : Str) → IsScan (c ∷ cs) (scan_rest depth i c cs)
unfolding scan_rest
scan_rest-IsScan depth i c cs =
    IsScan-if (c == b'"' || c == b'\'') (quoted-IsScan cs c i depth (lex_string c cs))
      (elim (Bool-cases (is_digit c || c == b'.' && starts_with is_digit cs)) [
        | inl e ↦ rw e (number-IsScan c cs i depth (lex_digits_pos c cs e))
        | inr e ↦ rw e (
            IsScan-if (is_ident_start c)
              (emitted (omega arith) (omega (arith, run-le is_ident_cont cs)) (λ e. cc)) refused)
      ])

-- A test of the next byte passes only if there is one.
starts_with-pos : (p : ℕ → Bool) (cs : Str) → starts_with p cs ≡ true → 0 < length cs
starts_with-pos p [] h = absurd (cc)
starts_with-pos p (c ∷ cs) h = omega arith

two :
    (typ : TokenType) (p : ℕ → Bool) (c i depth : ℕ) (cs : Str) {y : Scan}
    → typ ≢ t_eof
    → IsScan (c ∷ cs) y
    → IsScan (c ∷ cs) (if starts_with p cs then cut typ 2 (c ∷ cs) i depth else y)
two typ p c i depth cs h k = elim (Bool-cases (starts_with p cs)) [
  | inl e ↦ rw e (emitted (omega arith) (omega (arith, starts_with-pos p cs e)) h)
  | inr e ↦ rw e k
]

one :
    (typ : TokenType) (c i depth : ℕ) (cs : Str)
    → typ ≢ t_eof
    → IsScan (c ∷ cs) (cut typ 1 (c ∷ cs) i depth)
one typ c i depth cs h = emitted (omega arith) (omega arith) h

scan_operator-IsScan : (depth i c : ℕ) (cs : Str) → IsScan (c ∷ cs) (scan_operator depth i c cs)
unfolding scan_operator
scan_operator-IsScan depth i c cs =
    IsScan-if (c == b'=')
      (two t_eql_regex (◌==◌ b'~') c i depth cs (λ e. cc)
        (two t_eql_cmp (◌==◌ b'=') c i depth cs (λ e. cc) (one t_eql c i depth cs (λ e. cc))))
      (IsScan-if (c == b'!')
        (two t_neq (◌==◌ b'=') c i depth cs (λ e. cc)
          (two t_neq_regex (◌==◌ b'~') c i depth cs (λ e. cc) refused))
        (IsScan-if (c == b'>')
          (two t_gte (◌==◌ b'=') c i depth cs (λ e. cc) (one t_gtr c i depth cs (λ e. cc)))
          (IsScan-if (c == b'<')
            (two t_lte (◌==◌ b'=') c i depth cs (λ e. cc) (one t_lss c i depth cs (λ e. cc)))
            (scan_rest-IsScan depth i c cs))))

single-ne-eof : (c : ℕ) (typ : TokenType) → single c ≡ some typ → typ ≢ t_eof
unfolding single
single-ne-eof c typ e f = ground arith

scan-IsScan : (depth i c : ℕ) (cs : Str) → IsScan (c ∷ cs) (scan depth i c cs)
unfolding scan
scan-IsScan depth i c cs = IsScan-if (is_space c) skipped (
    IsScan-if (c == b'[') (one t_lbracket c i (depth + 1) cs (λ e. cc)) (
      IsScan-if (c == b']') (one t_rbracket c i (depth - 1) cs (λ e. cc)) (
        IsScan-if (c == b':' && ltb 0 depth) (one t_colon c i depth cs (λ e. cc))
          (elim (Option-cases (single c)) [
            | inl e ↦ rw e (scan_operator-IsScan depth i c cs)
            | inr (typ, e) ↦ rw e (one typ c i depth cs (single-ne-eof c typ e))
          ]))))

data IsLexed : Lexed → Type 0 where
  tokens : (ts : List Token) → IsStream ts → IsLexed (lexed ts)
  rejected : (e : LexError) → IsLexed (lex_error e)

IsStream-cons : (t : Token) (ts : List Token) → IsStream ts → IsStream (t ∷ ts)
IsStream-cons t [] s = absurd s
IsStream-cons t (u ∷ us) s = s

cons-IsLexed : (t : Token) (r : Lexed) → IsLexed r → IsLexed (cons_token t r)
cons-IsLexed t _ (tokens ts s) = tokens (t ∷ ts) (IsStream-cons t ts s)
cons-IsLexed t _ (rejected e) = rejected e

step-IsLexed :
    (fuel depth i c : ℕ) (cs : Str) (x : Scan)
    → ((depth' i' : ℕ) (s : Str) → length s ≤ fuel → IsLexed (lex_from fuel depth' i' s))
    → length (c ∷ cs) ≤ suc fuel
    → IsScan (c ∷ cs) x
    → scan depth i c cs ≡ x
    → IsLexed (lex_from (suc fuel) depth i (c ∷ cs))
unfolding lex_from
step-IsLexed fuel depth i c cs _ rec h skipped e =
    rw (e, lex_from) (rec depth (i + 1) cs (omega arith))
step-IsLexed fuel depth i c cs _ rec h (emitted {t = t} {n = n} {depth = depth'} low high real) e =
    rw (e, lex_from)
      (cons-IsLexed t (lex_from fuel depth' (i + n) (drop n (c ∷ cs)))
        (rec depth' (i + n) (drop n (c ∷ cs)) (omega (arith, length-drop n (c ∷ cs)))))
step-IsLexed fuel depth i c cs _ rec h (refused {e = w}) e = rw (e, lex_from) (rejected w)

lex_from-IsLexed :
    (fuel depth i : ℕ) (s : Str) → length s ≤ fuel → IsLexed (lex_from fuel depth i s)
lex_from-IsLexed fuel depth i [] h = unfold lex_from in tokens _ refl
lex_from-IsLexed zero depth i (c ∷ cs) h = absurd (omega arith)
lex_from-IsLexed (suc fuel) depth i (c ∷ cs) h =
    step-IsLexed fuel depth i c cs (scan depth i c cs) (lex_from-IsLexed fuel) h
      (scan-IsScan depth i c cs) refl

IsLexed-cases :
    (r : Lexed)
    → IsLexed r
    → ((ts : List Token) × (r ≡ lexed ts) × IsStream ts) ⊎ ((e : LexError) × (r ≡ lex_error e))
IsLexed-cases _ (tokens ts s) = inl (ts, refl, s)
IsLexed-cases _ (rejected e) = inr (e, refl)

-- The lexer answers for every input, with an error or with tokens that end in the end-of-input
-- token: the fuel of one unit for each byte is enough.
pub lex_total :
    (input : Str)
    → ((ts : List Token) × (lex input ≡ lexed ts) × IsStream ts)
      ⊎ ((e : LexError) × (lex input ≡ lex_error e))
unfolding lex
lex_total input =
    IsLexed-cases (lex input) (lex_from-IsLexed (length input) 0 0 input (omega arith))
