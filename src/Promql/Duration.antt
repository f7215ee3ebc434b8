-- ===== src/Promql/Duration.antt =====
-- internal/promql/parse.go: parseDuration, with the wrap-around of its int64 sum.
pub mod Sums
use omni_metrics.Prelude.{
  ℕ, zero, suc, ◌+◌, ◌-◌, ◌*◌, ◌%◌, ◌^◌, List, [], ◌∷◌, ◌++◌, Bool, true, false, Option, none, some,
  ltb, ◌==◌, Str, if◌then◌else◌,
}
use omni_metrics.Prelude.Int.{ℤ}
use omni_metrics.Prelude.Int64.{int64}
use omni_metrics.Promql.Lex.{is_digit}

-- The number that decimal digits write.
unfoldable pub decimal : ℕ → Str → ℕ
decimal n [] = n
decimal n (c ∷ cs) = decimal (n * 10 + (c - b'0')) cs

-- `strconv.ParseInt` on digits, its range error ignored: the greatest int64 stands for all above.
unfoldable pub parse_int : Str → ℕ
unfolding decimal
parse_int s = let n = decimal 0 s in if ltb n (2 ^ 63) then n else 2 ^ 63 - 1

unfoldable pub unit_ms : ℕ → Option ℕ
unit_ms c =
    if c == b's'
    then some 1000
    else if c == b'm'
    then some (60 * 1000)
    else if c == b'h'
    then some (60 * 60 * 1000)
    else if c == b'd'
    then some (24 * 60 * 60 * 1000)
    else if c == b'w'
    then some (7 * 24 * 60 * 60 * 1000)
    else if c == b'y'
    then some (365 * 24 * 60 * 60 * 1000)
    else none

abbrev pub no_bytes : Str → Bool
no_bytes [] = true
no_bytes (c ∷ cs) = false

-- The two loops in one, over the bytes: the sum so far as its 64 bits, and the digits of the number
-- that is being read.
unfoldable pub durations : ℕ → Str → Str → Option ℕ
unfolding is_digit
durations total digits [] = if no_bytes digits then some total else none
durations total digits (c ∷ cs) = elim (is_digit c) [
  | true ↦ durations total (digits ++ (c ∷ [])) cs
  | false ↦ elim (no_bytes digits) [
    | true ↦ none
    | false ↦ elim (unit_ms c) [
      | none ↦ none
      | some ms ↦ durations ((total + parse_int digits * ms) % 2 ^ 64) [] cs
    ]
  ]
]

abbrev pub as_int64 : Option ℕ → Option ℤ
as_int64 none = none
as_int64 (some n) = some (int64 n)

-- `none` is an error.
unfoldable pub parse_duration : Str → Option ℤ
unfolding durations
parse_duration [] = none
parse_duration (c ∷ cs) = as_int64 (durations 0 [] (c ∷ cs))
