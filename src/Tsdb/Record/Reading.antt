-- ===== src/Tsdb/Record/Reading.antt =====
-- What the decoder (internal/tsdb/wal.go) reads at the front of what was written.
use omni_metrics.Prelude.{
  ℕ, ◌+◌, ◌-◌, ◌%◌, ◌^◌, ◌<◌, ◌≤◌, ◌++◌, take, drop, none, ◌≡◌, refl, ap, ◌∙◌, arith, length, Str,
  length-append, take-append, drop-append,
}
use mathlib.Core.List.{append_assoc}
use omni_metrics.Prelude.Int.{ℤ, pos}
use omni_metrics.Prelude.Int64.{int64}
use omni_metrics.Tsdb.Binary.{
  put_uvarint, put_varint, put_le, IsU64, IsI64, get_uvarint-put_uvarint, get_varint-put_varint,
  length-put_le, get_le-put_le,
}
use omni_metrics.Tsdb.Record.{
  done, Decoder, read_uvarint, read_varint, read_fixed64, took_number, took_integer, took_length,
  read_str, put_str,
}

-- A decoder that has met no error.
abbrev pub clean : Str → ℕ → Decoder
clean rest i = record { rest = rest; at = i; error = none }

moved : (i : ℕ) (p r : Str) → i + (length (p ++ r) - length r) ≡ i + length p
moved i p r = omega (arith, length-append p r)

pub read_uvarint-put :
    (x : ℕ) (r : Str) (i : ℕ)
    → IsU64 x
    → read_uvarint (clean (put_uvarint x ++ r) i) ≡ (x, clean r (i + length (put_uvarint x)))
unfolding read_uvarint
read_uvarint-put x r i h =
    rw (get_uvarint-put_uvarint x r h, took_number)
      (ap (λ j. (x, clean r j)) (moved i (put_uvarint x) r))

pub read_varint-put :
    (t : ℤ) (r : Str) (i : ℕ)
    → IsI64 t
    → read_varint (clean (put_varint t ++ r) i) ≡ (t, clean r (i + length (put_varint t)))
unfolding read_varint
read_varint-put t r i h =
    rw (get_varint-put_varint t r h, took_integer)
      (ap (λ j. (t, clean r j)) (moved i (put_varint t) r))

pub read_fixed64-put :
    (v : ℕ) (r : Str) (i : ℕ)
    → IsU64 v
    → read_fixed64 (clean (put_le 8 v ++ r) i) ≡ (v, clean r (i + 8))
unfolding read_fixed64
read_fixed64-put v r i h = ground (
  arith,
  length-append (put_le 8 v) r,
  length-put_le 8 v,
  take-append 8 (put_le 8 v) r,
  drop-append 8 (put_le 8 v) r,
  get_le-put_le 8 v,
)

pub int64_small : (n : ℕ) → n < 2 ^ 63 → int64 (n % 2 ^ 64) ≡ pos n
unfolding int64
int64_small n h = ground arith

pub int64_of : (n : ℕ) → n < 2 ^ 63 → int64 n ≡ pos n
unfolding int64
int64_of n h = ground arith

-- The bytes of a string are there.
pub took_length_there :
    (n i : ℕ) (rest : Str)
    → i + length rest < 2 ^ 63
    → n ≤ length rest
    → took_length (n, clean rest i) ≡ done (take n rest, clean (drop n rest) (i + n))
unfolding took_length
took_length_there n i rest h l =
    rw (int64_small (i + n) (omega arith), int64_of n (omega arith), took_length) (ground arith)

took_length-append :
    (s r : Str) (i : ℕ)
    → i + length (s ++ r) < 2 ^ 63
    → took_length (length s, clean (s ++ r) i) ≡ done (s, clean r (i + length s))
took_length-append s r i h =
    took_length_there (length s) i (s ++ r) h (omega (arith, length-append s r))
    ∙ rw (take-append (length s) s r, drop-append (length s) s r) refl

pub read_str_lem : (d : Decoder) → read_str d ≡ took_length (read_uvarint d)
unfolding read_str
read_str_lem d = refl

pub length-put_str : (s : Str) → length (put_str s) ≡ length (put_uvarint (length s)) + length s
unfolding put_str
length-put_str s = length-append (put_uvarint (length s)) s

put_str-append : (s r : Str) → put_str s ++ r ≡ put_uvarint (length s) ++ (s ++ r)
unfolding put_str
put_str-append s r = append_assoc (put_uvarint (length s)) s r

-- A payload that fits a Go slice keeps `d.i+n` from wrapping.
pub read_str-put :
    (s r : Str) (i : ℕ)
    → i + length (put_str s ++ r) < 2 ^ 63
    → read_str (clean (put_str s ++ r) i) ≡ done (s, clean r (i + length (put_str s)))
read_str-put s r i h =
    read_str_lem (clean (put_str s ++ r) i)
    ∙ ap (λ q. took_length (read_uvarint (clean q i))) (put_str-append s r)
    ∙ ap took_length
        (read_uvarint-put (length s) (s ++ r) i (omega (arith, sizes, length-append s r)))
    ∙ took_length-append s r (i + length (put_uvarint (length s))) (omega (arith, sizes))
    ∙ ap (λ j. done (s, clean r j)) (omega (arith, length-put_str s))
  where
    sizes : length (put_str s ++ r) ≡ length (put_uvarint (length s)) + length (s ++ r)
    sizes = ap length (put_str-append s r) ∙ length-append (put_uvarint (length s)) (s ++ r)
