-- ===== src/Tsdb/Record/Decode.antt =====
-- What the decoder of the log (internal/tsdb/wal.go, decoder.str) makes of the length of a string.
use omni_metrics.Prelude.{
  ℕ, ◌+◌, ◌-◌, ◌%◌, ◌^◌, ◌≤◌, ◌<◌, ◌++◌, [], some, ◌≡◌, ◌∙◌, ap, arith, length, take, drop, Str,
}
use omni_metrics.Prelude.Int.{negsuc}
use omni_metrics.Prelude.Int64.{int64}
use omni_metrics.Tsdb.Binary.{put_uvarint, IsU64}
use omni_metrics.Tsdb.Record.{done, panicked, short_string, took_length, read_str}
use omni_metrics.Tsdb.Record.Reading.{
  read_uvarint-put, read_str_lem, clean, took_length_there, int64_of, int64_small,
}

int64_large : (n : ℕ) → 2 ^ 63 ≤ n → n < 2 ^ 64 → int64 (n % 2 ^ 64) ≡ negsuc (2 ^ 64 - 1 - n)
unfolding int64
int64_large n h k = ground arith

int64_negative : (n : ℕ) → 2 ^ 63 ≤ n → n < 2 ^ 64 → int64 n ≡ negsuc (2 ^ 64 - 1 - n)
unfolding int64
int64_negative n h k = ground arith

took_length_short :
    (n i : ℕ) (rest : Str)
    → i + length rest < 2 ^ 63
    → length rest < n
    → i + n < 2 ^ 63
    → took_length (n, clean rest i) ≡ done ([], record (clean rest i) { error = some short_string })
unfolding took_length
took_length_short n i rest b l k =
    rw (int64_small (i + n) k, int64_of n (omega arith), took_length) (ground arith)

took_length_negative :
    (n i : ℕ) (rest : Str)
    → 2 ^ 63 ≤ n
    → n < 2 ^ 64
    → took_length (n, clean rest i) ≡ done ([], record (clean rest i) { error = some short_string })
unfolding took_length
took_length_negative n i rest l u = rw (int64_negative n l u, took_length) (ground arith)

took_length_wraps :
    (n i : ℕ) (rest : Str)
    → n < 2 ^ 63
    → 2 ^ 63 ≤ i + n
    → i + length rest < 2 ^ 63
    → took_length (n, clean rest i) ≡ panicked
unfolding took_length
took_length_wraps n i rest l k b =
    rw (int64_large (i + n) k (omega arith), int64_of n l, took_length) (ground arith)

module _ (n i : ℕ) (rest : Str) where
  -- Where the bytes of the string begin.
  abbrev pub behind : ℕ
  behind = i + length (put_uvarint n)

  from_length :
      IsU64 n → read_str (clean (put_uvarint n ++ rest) i) ≡ took_length (n, clean rest behind)
  from_length u =
      read_str_lem (clean (put_uvarint n ++ rest) i) ∙ ap took_length (read_uvarint-put n rest i u)

  -- In a slice of a length that an int has, the length `n` of a string is read so: where `n` bytes
  -- follow, they are the string; where fewer do, and the sum of position and length is an int, or
  -- `n` is not one, the decoder reports a short string; and where `n` is an int and the sum is
  -- not, it panics.
  pub read_str_cases :
      IsU64 n
      → behind + length rest < 2 ^ 63
      → (n ≤ length rest
          → read_str (clean (put_uvarint n ++ rest) i)
            ≡ done (take n rest, clean (drop n rest) (behind + n)))
        × (length rest < n
            → behind + n < 2 ^ 63
            → read_str (clean (put_uvarint n ++ rest) i)
              ≡ done ([], record (clean rest behind) { error = some short_string }))
        × (2 ^ 63 ≤ n
            → read_str (clean (put_uvarint n ++ rest) i)
              ≡ done ([], record (clean rest behind) { error = some short_string }))
        × (n < 2 ^ 63 → 2 ^ 63 ≤ behind + n → read_str (clean (put_uvarint n ++ rest) i) ≡ panicked)
  read_str_cases u b = (
    λ l. from_length u ∙ took_length_there n behind rest b l,
    λ l k. from_length u ∙ took_length_short n behind rest (omega arith) l k,
    λ l. from_length u ∙ took_length_negative n behind rest l u,
    λ l k. from_length u ∙ took_length_wraps n behind rest l k b,
  )
