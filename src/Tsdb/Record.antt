-- ===== src/Tsdb/Record.antt =====
-- internal/tsdb/wal.go: the payloads of the log's two kinds of records, and the decoder that reads
-- them. A float64 is its 64 bits.
pub mod Decode
pub mod Reading
pub mod RoundTrip
use omni_metrics.Prelude.{
  ℕ, zero, suc, ◌+◌, ◌-◌, ◌%◌, ◌^◌, List, [], ◌∷◌, ◌++◌, Bool, true, false, ◌||◌, Option, none,
  some, ltb, leb, length, take, drop, Str, if◌then◌else◌,
}
use omni_metrics.Prelude.Int.{ℤ, pos, negsuc, ltb_ℤ}
use omni_metrics.Prelude.Int64.{int64}
use omni_metrics.Model.Labels.{Label, Labels, from_strings}
use omni_metrics.Tsdb.Binary.{put_uvarint, get_uvarint, put_varint, get_varint, put_le, get_le}

pub record RefSample : Type 0 where
  pub ref : ℕ
  pub t : ℤ
  pub v : ℕ

pub data DecodeError : Type 0 where
  bad_uvarint bad_varint short_fixed64 short_string corrupt_series corrupt_samples unknown_record :
      DecodeError

-- What a Go function that may return an error, or panic, does.
pub data Outcome {ℓ} (A : Type ℓ) : Type ℓ where
  done : A → Outcome A
  failed : DecodeError → Outcome A
  panicked : Outcome A

infixl 5 ◌>>=◌
abbrev pub ◌>>=◌ {ℓ κ} : {A : Type ℓ} {B : Type κ} → Outcome A → (A → Outcome B) → Outcome B
done a >>= f = f a
failed e >>= f = failed e
panicked >>= f = panicked

-- `decoder`: `rest` is `d.b[d.i:]`, and `at` is `d.i`.
pub record Decoder : Type 0 where
  pub rest : Str
  pub at : ℕ
  pub error : Option DecodeError

abbrev pub start : Str → Decoder
start b = record { rest = b; at = 0; error = none }

abbrev pub has_error : Decoder → Bool
has_error d = elim d.error [ none ↦ false | some e ↦ true ]

unfoldable pub took_number : Decoder → Option (ℕ × Str) → ℕ × Decoder
took_number d none = (0, record d { error = some bad_uvarint })
took_number d (some (v, rest)) =
    (v, record d { rest = rest; at = d.at + (length d.rest - length rest) })

-- A method whose `d.err` is set returns a zero value.
unfoldable pub read_uvarint : Decoder → ℕ × Decoder
unfolding took_number
read_uvarint d = if has_error d then (0, d) else took_number d (get_uvarint d.rest)

unfoldable pub took_integer : Decoder → Option (ℤ × Str) → ℤ × Decoder
took_integer d none = (pos 0, record d { error = some bad_varint })
took_integer d (some (t, rest)) =
    (t, record d { rest = rest; at = d.at + (length d.rest - length rest) })

unfoldable pub read_varint : Decoder → ℤ × Decoder
unfolding took_integer
read_varint d = if has_error d then (pos 0, d) else took_integer d (get_varint d.rest)

unfoldable pub read_fixed64 : Decoder → ℕ × Decoder
read_fixed64 d =
    if has_error d
    then (0, d)
    else if ltb (length d.rest) 8
    then (0, record d { error = some short_fixed64 })
    else (get_le (take 8 d.rest), record d { rest = drop 8 d.rest; at = d.at + 8 })

-- `d.b[d.i:d.i+n]` and `d.i += n`, for a sum that does not pass the end: it panics where it is below
-- `d.i`.
abbrev pub sliced : Decoder → ℤ → Outcome (Str × Decoder)
sliced d (negsuc hi) = panicked
sliced d (pos hi) =
    if ltb hi d.at
    then panicked
    else done (take (hi - d.at) d.rest, record d { rest = drop (hi - d.at) d.rest; at = hi })

-- The bytes of a string once its length `n` is read. `int(…)` of a number from 2^63 on is
-- negative. The sum `d.i+n` is an int too, and wraps.
unfoldable pub took_length : ℕ × Decoder → Outcome (Str × Decoder)
unfolding int64
took_length (n, d) =
    let hi = int64 ((d.at + n) % 2 ^ 64) in
    if has_error d
    then done ([], d)
    else if ltb_ℤ (int64 n) (pos 0) || ltb_ℤ (pos (d.at + length d.rest)) hi
    then done ([], record d { error = some short_string })
    else sliced d hi

unfoldable pub read_str : Decoder → Outcome (Str × Decoder)
read_str d = took_length (read_uvarint d)

-- `appendString`.
unfoldable pub put_str : Str → Str
put_str s = put_uvarint (length s) ++ s

unfoldable pub put_labels : Labels → Str
unfolding put_str
put_labels [] = []
put_labels (l ∷ ls) = put_str l.name ++ (put_str l.value ++ put_labels ls)

unfoldable pub encode_series : ℕ → Labels → Str
encode_series ref l = put_uvarint ref ++ (put_uvarint (length l) ++ put_labels l)

-- The loop of `decodeSeries`, `n` rounds.
unfoldable pub read_pairs : ℕ → Decoder → Outcome (List Str × Decoder)
read_pairs zero d = done ([], d)
read_pairs (suc n) d = do
  (name, d₁) ← read_str d
  (value, d₂) ← read_str d₁
  (pairs, d₃) ← read_pairs n d₂
  done (name ∷ value ∷ pairs, d₃)

unfoldable pub finish_series : ℕ → List Str × Decoder → Outcome (ℕ × Labels)
finish_series ref (pairs, d) = elim d.error [
  | none ↦ done (ref, from_strings pairs)
  | some e ↦ failed e
]

unfoldable pub decode_series : Str → Outcome (ℕ × Labels)
decode_series b =
    let (ref, d₁) = read_uvarint (start b) in
    let (n, d₂) = read_uvarint d₁ in
    if has_error d₂ || (leb (2 ^ 63) n || ltb (length b) n)
    then failed corrupt_series
    else (do r ← read_pairs n d₂; finish_series ref r)

unfoldable pub put_samples : List RefSample → Str
put_samples [] = []
put_samples (s ∷ ss) = put_uvarint s.ref ++ (put_varint s.t ++ (put_le 8 s.v ++ put_samples ss))

unfoldable pub encode_samples : List RefSample → Str
encode_samples samples = put_uvarint (length samples) ++ put_samples samples

unfoldable pub read_samples : ℕ → Decoder → Outcome (List RefSample)
read_samples zero d = done []
read_samples (suc n) d =
    let (ref, d₁) = read_uvarint d in
    let (t, d₂) = read_varint d₁ in
    let (bits, d₃) = read_fixed64 d₂ in
    let more = do ss ← read_samples n d₃; done (record { ref = ref; t = t; v = bits } ∷ ss)
    in elim d₃.error [ none ↦ more | some e ↦ failed e ]

-- `can_make n` says whether the runtime's `make([]refSample, 0, n)` succeeds; it panics for a
-- capacity past the runtime's limit.
unfoldable pub decode_samples : (ℕ → Bool) → Str → Outcome (List RefSample)
decode_samples can_make b =
    let (n, d) = read_uvarint (start b) in
    if has_error d || leb (2 ^ 63) n
    then failed corrupt_samples
    else if can_make n
    then read_samples n d
    else panicked
