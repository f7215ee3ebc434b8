-- ===== src/Promql/Duration/Sums.antt =====
-- What a duration's text stands for (internal/promql/parse.go, parseDuration).
use omni_metrics.Prelude.{
  ℕ, ◌+◌, ◌*◌, ◌%◌, ◌-◌, ◌^◌, ◌<◌, ◌≤◌, ◌≢◌, leb, if◌then◌else◌, List, [], ◌∷◌, ◌++◌, true, false,
  some, ◌≡◌, refl, ap, sym, ◌∙◌, arith, All, Str,
}
use native.Mathlib.Nat.{add-mul, mul_assoc}
use mathlib.Core.List.{append_assoc, append-nil}
use omni_metrics.Promql.Lex.{is_digit}
use omni_metrics.Prelude.Int64.{int64}
use omni_metrics.Promql.Duration.{
  decimal, parse_int, unit_ms, durations, parse_duration, no_bytes, as_int64,
}

pub data DurationUnit : Type 0 where
  seconds minutes hours days weeks years : DurationUnit

unfoldable pub letter : DurationUnit → ℕ
letter seconds = b's'
letter minutes = b'm'
letter hours = b'h'
letter days = b'd'
letter weeks = b'w'
letter years = b'y'

-- The milliseconds of a unit; a year has 365 days.
unfoldable pub ms_of : DurationUnit → ℕ
ms_of seconds = 1000
ms_of minutes = 60000
ms_of hours = 3600000
ms_of days = 86400000
ms_of weeks = 604800000
ms_of years = 31536000000

-- A decimal number, its numerals from the highest on, with a unit.
pub record Part : Type 0 where
  pub numerals : List ℕ
  pub unit : DurationUnit

abbrev pub IsPart : Part → Type 0
IsPart p = (p.numerals ≢ []) × All (λ d. d ≤ 9) p.numerals

-- Ten to the number of numerals, and the number that they write.
unfoldable pub weight : List ℕ → ℕ
weight [] = 1
weight (d ∷ ds) = 10 * weight ds

unfoldable pub value : List ℕ → ℕ
unfolding weight
value [] = 0
value (d ∷ ds) = d * weight ds + value ds

-- A number, or the greatest int64 where the number is above it.
abbrev pub at_most_int64 : ℕ → ℕ
at_most_int64 n = if leb n 9223372036854775807 then n else 9223372036854775807

-- The ASCII bytes of numerals.
unfoldable pub written : List ℕ → Str
written [] = []
written (d ∷ ds) = (48 + d) ∷ written ds

-- The text of the parts, and their sum.
unfoldable pub text : List Part → Str
unfolding written letter
text [] = []
text (p ∷ ps) = written p.numerals ++ (letter p.unit ∷ text ps)

unfoldable pub sum_ms : List Part → ℕ
unfolding value ms_of
sum_ms [] = 0
sum_ms (p ∷ ps) = at_most_int64 (value p.numerals) * ms_of p.unit + sum_ms ps

decimal-written : (n : ℕ) (ds : List ℕ) → decimal n (written ds) ≡ n * weight ds + value ds
unfolding decimal written weight value
decimal-written n [] = omega arith
decimal-written n (d ∷ ds) =
    decimal-written (n * 10 + (48 + d - 48)) ds
    ∙ omega (
      arith,
      add-mul (n * 10) (48 + d - 48) (weight ds),
      mul_assoc n 10 (weight ds),
      ap (λ q. q * weight ds) (taken d),
    )
  where
    taken : (d : ℕ) → 48 + d - 48 ≡ d
    taken d = omega arith

parse_int-written : (ds : List ℕ) → parse_int (written ds) ≡ at_most_int64 (value ds)
unfolding parse_int
parse_int-written ds = let e = decimal-written 0 ds in ground arith

letter-unit_ms :
    (u : DurationUnit) → (is_digit (letter u) ≡ false) × (unit_ms (letter u) ≡ some (ms_of u))
unfolding is_digit unit_ms letter ms_of
letter-unit_ms seconds = (refl, refl)
letter-unit_ms minutes = (refl, refl)
letter-unit_ms hours = (refl, refl)
letter-unit_ms days = (refl, refl)
letter-unit_ms weeks = (refl, refl)
letter-unit_ms years = (refl, refl)

written_digits : (ds : List ℕ) → All (λ d. d ≤ 9) ds → All (λ c. is_digit c ≡ true) (written ds)
unfolding written is_digit
written_digits [] h = tt
written_digits (d ∷ ds) (l, h) = (ground arith, written_digits ds h)

written_filled : (ds : List ℕ) → ds ≢ [] → no_bytes (written ds) ≡ false
unfolding written
written_filled [] n = absurd (n refl)
written_filled (d ∷ ds) n = refl

no_bytes-append : (a b : Str) → no_bytes b ≡ false → no_bytes (a ++ b) ≡ false
no_bytes-append [] b h = h
no_bytes-append (c ∷ a) b h = refl

-- A digit is gathered, then all of a number's digits.
durations-digit :
    (total : ℕ) (seen : Str) (c : ℕ) (r : Str)
    → is_digit c ≡ true
    → durations total seen (c ∷ r) ≡ durations total (seen ++ (c ∷ [])) r
unfolding durations
durations-digit total seen c r e = rw (e, durations) refl

durations-digits :
    (total : ℕ) (seen ds rest : Str)
    → All (λ c. is_digit c ≡ true) ds
    → durations total seen (ds ++ rest) ≡ durations total (seen ++ ds) rest
durations-digits total seen [] rest h = ap (λ q. durations total q rest) (sym (append-nil seen))
durations-digits total seen (c ∷ ds) rest (e, h) =
    durations-digit total seen c (ds ++ rest) e
    ∙ durations-digits total (seen ++ (c ∷ [])) ds rest h
    ∙ ap (λ q. durations total q rest) (append_assoc seen (c ∷ []) ds)

durations-unit :
    (total : ℕ) (p : Part) (rest : Str)
    → IsPart p
    → durations total (written p.numerals) (letter p.unit ∷ rest)
      ≡ durations ((total + at_most_int64 (value p.numerals) * ms_of p.unit) % 2 ^ 64) [] rest
unfolding durations
durations-unit total p rest (full, ds) =
    let (e, u) = letter-unit_ms p.unit in
    rw (e, durations)
      (rw (written_filled p.numerals full) (rw (u, parse_int-written p.numerals) refl))

add_wrapped : (total a s : ℕ) → ((total + a) % 2 ^ 64 + s) % 2 ^ 64 ≡ (total + (a + s)) % 2 ^ 64
add_wrapped total a s = omega arith

durations-text :
    (total : ℕ) (ps : List Part)
    → All IsPart ps
    → total < 2 ^ 64
    → durations total [] (text ps) ≡ some ((total + sum_ms ps) % 2 ^ 64)
unfolding text sum_ms
durations-text total [] h b = unfold durations in ap some (omega arith)
durations-text total (p ∷ ps) ((full, ds), hs) b =
    let quantity = at_most_int64 (value p.numerals) * ms_of p.unit in
    durations-digits total [] (written p.numerals) (letter p.unit ∷ text ps)
      (written_digits p.numerals ds)
    ∙ durations-unit total p (text ps) (full, ds)
    ∙ durations-text ((total + quantity) % 2 ^ 64) ps hs (omega arith)
    ∙ ap some (add_wrapped total quantity (sum_ms ps))

text_filled : (p : Part) (ps : List Part) → no_bytes (text (p ∷ ps)) ≡ false
unfolding text
text_filled p ps = no_bytes-append (written p.numerals) (letter p.unit ∷ text ps) refl

parse_duration-filled :
    (s : Str) → no_bytes s ≡ false → parse_duration s ≡ as_int64 (durations 0 [] s)
unfolding parse_duration
parse_duration-filled [] h = absurd (cc)
parse_duration-filled (c ∷ s) h = refl

-- The text of one part or more, each a decimal number and the letter of its unit, parses as the parts'
-- sum in milliseconds, brought into int64 by wrapping; a number above the greatest int64 counts as
-- that.
pub parse_duration-text :
    (p : Part) (ps : List Part)
    → All IsPart (p ∷ ps)
    → parse_duration (text (p ∷ ps)) ≡ some (int64 (sum_ms (p ∷ ps) % 2 ^ 64))
parse_duration-text p ps hs =
    parse_duration-filled (text (p ∷ ps)) (text_filled p ps)
    ∙ ap as_int64 (durations-text 0 (p ∷ ps) hs (omega arith) ∙ ap some (omega arith))
