-- ===== src/Tests/WalTests.antt =====
-- The log's records and their replay (internal/tsdb/wal.go) at concrete inputs.
use omni_metrics.Prelude.{
  ℕ, ◌^◌, ◌<◌, ◌≤◌, ◌+◌, drop, List, [], ◌∷◌, ◌++◌, Bool, true, some, none, refl, ◌≡◌, ◌≢◌, arith,
  bytes, Str, length, take,
}
use omni_metrics.Prelude.Bytes.{str_lt}
use omni_metrics.Prelude.Int.{pos, negsuc}
use omni_metrics.Model.Labels.{Labels}
use omni_metrics.Tsdb.Binary.{put_uvarint, put_groups, put_varint, put_le, zigzag, put_be32}
use omni_metrics.Tsdb.Record.{
  RefSample, done, panicked, short_string, put_str, put_labels, put_samples, encode_series,
  decode_series, encode_samples, decode_samples, read_str,
}
use omni_metrics.Tsdb.Record.RoundTrip.{decode_series-encode_series, decode_samples-encode_samples}
use omni_metrics.Tsdb.Record.Reading.{clean}
use omni_metrics.Tsdb.Record.Decode.{behind, read_str_cases}
use omni_metrics.Tsdb.Head.{Head, new_head, add_series_with_ref}
use omni_metrics.Tsdb.Wal.{
  rec_series, rec_samples, checksum, crc_byte, crc_bits, frame, crc_mismatch, finished, out_of_fuel,
  with_file, replay_from, replay_segment, after_segment, replay_wal,
}
use omni_metrics.Tsdb.Wal.Restart.{replay_wal_again, replay_wal_torn}
use omni_metrics.Tsdb.Wal.Rounds.{replay_from-ne-out_of_fuel}
use omni_metrics.Tsdb.Wal.Recovery.{replay_segment_torn, replay_segment_corrupt}
use omni_metrics.Tsdb.Wal.Layout.{LogRecord, frames, apply_all}
use omni_metrics.Tsdb.Db.Logged.{apply-series}

abbrev up : Labels
up =
    record { name = bytes "__name__"; value = bytes "up" }
    ∷ record { name = bytes "job"; value = bytes "n" }
    ∷ []

decode_series-encode_series_example : decode_series (encode_series 300 up) ≡ done (300, up)
unfolding str_lt encode_series put_labels put_str put_uvarint put_groups
decode_series-encode_series_example =
    decode_series-encode_series 300 up (omega arith) ((refl, tt), (tt, tt)) (omega arith)

abbrev batch : List RefSample
batch = record { ref = 7; t = negsuc 999; v = 5 } ∷ record { ref = 300; t = pos 1000; v = 6 } ∷ []

decode_samples-encode_samples_example :
    decode_samples (λ n. true) (encode_samples batch) ≡ done batch
unfolding encode_samples put_samples put_uvarint put_groups put_varint put_le zigzag
decode_samples-encode_samples_example =
    decode_samples-encode_samples (λ n. true) batch (omega arith) (omega arith) refl

abbrev empty_head : Head
empty_head = new_head (pos 0) 5

abbrev can_make_all : ℕ → Bool
can_make_all n = true

abbrev up_record : LogRecord
up_record = record { typ = rec_series; payload = encode_series 300 up }

abbrev with_up : Head
with_up = add_series_with_ref 300 up empty_head

up_record-fits : length (encode_series 300 up) < 2 ^ 32
unfolding encode_series put_labels put_str put_uvarint put_groups
up_record-fits = omega arith

apply-up_record : apply_all can_make_all (up_record ∷ []) empty_head ≡ done with_up
unfolding apply_all str_lt
apply-up_record =
    rw
      (apply-series can_make_all (record { ref = 300; labels = up }) empty_head
        (omega arith, ((refl, tt), (tt, tt)), up_record-fits))
      refl

-- One whole record and five bytes of a second.
abbrev torn : Str
torn = frames (up_record ∷ []) ++ take 5 (frame rec_samples (encode_samples batch))

replay_segment_torn_example :
    replay_segment can_make_all torn empty_head
    ≡ finished (record {
      head = with_up;
      stopped = true;
      error = none;
      valid = length (frames (up_record ∷ []));
    })
unfolding frame encode_samples put_samples put_uvarint put_groups put_varint put_le zigzag put_be32
replay_segment_torn_example =
    replay_segment_torn can_make_all (up_record ∷ [])
      (record { typ = rec_samples; payload = encode_samples batch }) 5 empty_head with_up
      (up_record-fits, tt) (omega arith) (omega arith) apply-up_record

-- One whole record and one whose sum is 0.
abbrev damaged : Str
damaged =
    frames (up_record ∷ []) ++ (rec_samples ∷ (put_be32 1 ++ ((3 ∷ []) ++ (put_be32 0 ++ []))))

replay_segment_corrupt_example :
    replay_segment can_make_all damaged empty_head
    ≡ finished (record {
      head = with_up;
      stopped = true;
      error = some crc_mismatch;
      valid = length (frames (up_record ∷ []));
    })
unfolding checksum crc_byte crc_bits
replay_segment_corrupt_example =
    replay_segment_corrupt can_make_all (up_record ∷ []) rec_samples 0 (3 ∷ []) [] empty_head
      with_up (up_record-fits, tt) (omega arith) (omega arith) (omega arith) apply-up_record

abbrev cut_file : Str
cut_file = take (length (frames (up_record ∷ []))) damaged

replay_wal_again_example :
    replay_wal can_make_all (cut_file ∷ []) empty_head
    ≡ some (record { head = with_up; error = none; files = cut_file ∷ [] })
replay_wal_again_example =
    replay_wal_again can_make_all (damaged ∷ torn ∷ []) empty_head
      (record { head = with_up; error = some crc_mismatch; files = cut_file ∷ [] }) crc_mismatch
      (unfold replay_wal after_segment in rw replay_segment_corrupt_example refl) refl

replay_wal_torn_example :
    (replay_wal can_make_all (torn ∷ damaged ∷ []) empty_head
      ≡ some (record {
        head = with_up;
        error = none;
        files = take (length (frames (up_record ∷ []))) torn ∷ damaged ∷ [];
      }))
    × (replay_wal can_make_all
          (take (length (frames (up_record ∷ []))) torn ∷ damaged ∷ [])
          empty_head
        ≡ with_file
            (take (length (frames (up_record ∷ []))) torn)
            (replay_wal can_make_all (damaged ∷ []) with_up))
replay_wal_torn_example =
    replay_wal_torn can_make_all torn (damaged ∷ []) empty_head
      (record {
        head = with_up;
        stopped = true;
        error = none;
        valid = length (frames (up_record ∷ []));
      })
      replay_segment_torn_example refl refl

replay_from-ne-out_of_fuel_example :
    replay_from can_make_all 40 (1 ∷ 2 ∷ 3 ∷ []) 0 empty_head ≢ out_of_fuel
replay_from-ne-out_of_fuel_example =
    replay_from-ne-out_of_fuel can_make_all 40 (1 ∷ 2 ∷ 3 ∷ []) 0 empty_head (omega arith)

read_str_cases_example :
    (2 ≤ length (bytes "abc")
      → read_str (clean (put_uvarint 2 ++ bytes "abc") 4)
        ≡ done (take 2 (bytes "abc"), clean (drop 2 (bytes "abc")) (behind 2 4 (bytes "abc") + 2)))
    × (length (bytes "abc") < 2
        → behind 2 4 (bytes "abc") + 2 < 2 ^ 63
        → read_str (clean (put_uvarint 2 ++ bytes "abc") 4)
          ≡ done (
            [],
            record (clean (bytes "abc") (behind 2 4 (bytes "abc"))) { error = some short_string },
          ))
    × (2 ^ 63 ≤ 2
        → read_str (clean (put_uvarint 2 ++ bytes "abc") 4)
          ≡ done (
            [],
            record (clean (bytes "abc") (behind 2 4 (bytes "abc"))) { error = some short_string },
          ))
    × (2 < 2 ^ 63
        → 2 ^ 63 ≤ behind 2 4 (bytes "abc") + 2
        → read_str (clean (put_uvarint 2 ++ bytes "abc") 4) ≡ panicked)
unfolding put_uvarint put_groups
read_str_cases_example = read_str_cases 2 4 (bytes "abc") (omega arith) (omega arith)
