-- ===== src/Tsdb/Wal.antt =====
-- internal/tsdb/wal.go: the write-ahead log, its segments and their replay. A segment file is its
-- bytes; opening, syncing and naming files, and their errors, are not modelled.
pub mod Rounds
pub mod Layout
pub mod Recovery
pub mod Restart
pub mod Files
use omni_metrics.Prelude.{
  ℕ, zero, suc, ◌+◌, ◌-◌, ◌*◌, ◌/◌, ◌%◌, ◌^◌, bit_xor, List, [], ◌∷◌, ◌++◌, Bool, true, false, not,
  Option, none, some, ltb, leb, ◌==◌, length, take, drop, Str, if◌then◌else◌,
}
use omni_metrics.Model.Labels.{Labels}
use omni_metrics.Tsdb.Binary.{put_be32, get_be32}
use omni_metrics.Tsdb.Record.{
  RefSample, DecodeError, unknown_record, Outcome, done, failed, panicked, encode_series,
  encode_samples, decode_series, decode_samples, ◌>>=◌,
}
use omni_metrics.Tsdb.Head.{Head, add_series_with_ref, append_sample}
use omni_metrics.Tsdb.Head.Removal.{is_empty}
use mathlib.Core.List.{foldl}

abbrev pub rec_series : ℕ
rec_series = 1

abbrev pub rec_samples : ℕ
rec_samples = 2

abbrev pub default_max_seg_size : ℕ
default_max_seg_size = 64 * 2 ^ 20

-- `crc32.ChecksumIEEE`, bit by bit, on 32-bit words.
unfoldable pub crc_bits : ℕ → ℕ → ℕ
crc_bits zero c = c
crc_bits (suc n) c = crc_bits n (if c % 2 == 1 then bit_xor (c / 2) 0xedb88320 % 2 ^ 32 else c / 2)

unfoldable pub crc_byte : ℕ → ℕ → ℕ
crc_byte c b = crc_bits 8 (bit_xor c b)

unfoldable pub checksum : Str → ℕ
unfolding crc_bits crc_byte
checksum s = bit_xor (foldl crc_byte 0xffffffff s) 0xffffffff % 2 ^ 32

-- A log with its current segment open. `full` are the segments before it.
pub record Wal : Type 0 where
  pub full : List Str
  pub cur : Str
  pub cur_size : ℕ
  pub seq : ℕ
  pub max_seg_size : ℕ

-- The bytes of a record: type, length, payload, checksum.
unfoldable pub frame : ℕ → Str → Str
frame typ payload =
    typ ∷ (put_be32 (length payload % 2 ^ 32) ++ (payload ++ put_be32 (checksum payload)))

unfoldable pub roll : Wal → Wal
roll w = record w { full = w.full ++ (w.cur ∷ []); cur = []; cur_size = 0; seq = w.seq + 1 }

unfoldable pub append_frame : Str → Wal → Wal
append_frame bytes_ w = record w { cur = w.cur ++ bytes_; cur_size = w.cur_size + length bytes_ }

unfoldable pub write_record : ℕ → Str → Wal → Wal
unfolding roll append_frame frame
write_record typ payload w =
    append_frame (frame typ payload) (if leb w.max_seg_size w.cur_size then roll w else w)

unfoldable pub log_series : ℕ → Labels → Wal → Wal
log_series ref l w = write_record rec_series (encode_series ref l) w

unfoldable pub log_samples : List RefSample → Wal → Wal
log_samples ss w = write_record rec_samples (encode_samples ss) w

-- The files, in the order of their numbers.
abbrev pub disk : Wal → List Str
disk w = w.full ++ (w.cur ∷ [])

append_ref : Head → RefSample → Head
append_ref h s = append_sample s.ref s.t s.v h

-- `applyRecord`. `can_make` is the runtime's `make`, as in `decode_samples`.
unfoldable pub apply_record : (ℕ → Bool) → ℕ → Str → Head → Outcome Head
unfolding append_ref
apply_record can_make typ payload h =
    if typ == rec_series
    then (do (ref, l) ← decode_series payload; done (add_series_with_ref ref l h))
    else if typ == rec_samples
    then (do ss ← decode_samples can_make payload; done (foldl append_ref h ss))
    else failed unknown_record

pub data WalError : Type 0 where
  crc_mismatch : WalError
  corrupt : DecodeError → WalError

-- What `replaySegment` returns, with the head it leaves and the length the file is cut to.
pub record Replayed : Type 0 where
  pub head : Head
  pub stopped : Bool
  pub error : Option WalError
  pub valid : ℕ

pub data Replay : Type 0 where
  finished : Replayed → Replay
  crashed : Replay
  out_of_fuel : Replay

abbrev pub stop_at : Head → ℕ → Option WalError → Replay
stop_at h valid error = finished (record { head = h; stopped = true; error = error; valid = valid })

abbrev pub first_byte : Str → ℕ
first_byte [] = 0
first_byte (b ∷ bs) = b

-- One round of the loop on the bytes from `off` on, which are not empty; `next` goes on.
pub replay_record : (ℕ → Bool) → (Str → ℕ → Head → Replay) → Str → ℕ → Head → Replay
replay_record can_make next rest valid h =
    let n = get_be32 (drop 1 rest) in
    let payload = take n (drop 5 rest) in
    let apply : Replay = elim (apply_record can_make (first_byte rest) payload h) [
      | done h' ↦ next (drop (n + 9) rest) (valid + (n + 9)) h'
      | failed e ↦ stop_at h valid (some (corrupt e))
      | panicked ↦ crashed
    ] in
    if ltb (length rest) 5
    then stop_at h valid none
    else if ltb (length rest) (n + 9)
    then stop_at h valid none
    else if checksum payload == get_be32 (drop (n + 5) rest)
    then apply
    else stop_at h valid (some crc_mismatch)

-- The loop of `replaySegment`; a record takes nine bytes or more, so the number of bytes is fuel
-- enough.
pub replay_from : (ℕ → Bool) → ℕ → Str → ℕ → Head → Replay
replay_from can_make fuel [] valid h =
    finished (record { head = h; stopped = false; error = none; valid = valid })
replay_from can_make zero (b ∷ bs) valid h = out_of_fuel
replay_from can_make (suc fuel) (b ∷ bs) valid h =
    replay_record can_make (replay_from can_make fuel) (b ∷ bs) valid h

unfoldable pub replay_segment : (ℕ → Bool) → Str → Head → Replay
unfolding replay_record replay_from
replay_segment can_make data_ h = replay_from can_make (length data_) data_ 0 h

-- What `replayWAL` leaves: the head, its error and the files. `none` is a panic.
pub record Recovered : Type 0 where
  pub head : Head
  pub error : Option WalError
  pub files : List Str

abbrev pub with_file : Str → Option Recovered → Option Recovered
with_file s none = none
with_file s (some r) = some (record r { files = s ∷ r.files })

-- A torn segment ends the walk and keeps the later files; a corrupt one removes them.
unfoldable pub after_segment :
    Str → List Str → (Head → Option Recovered) → Replay → Option Recovered
after_segment seg later next crashed = none
after_segment seg later next out_of_fuel = none
after_segment seg later next (finished r) =
    let on = with_file (take r.valid seg) (next r.head) in
    elim r.error [
      | some e ↦ some (record { head = r.head; error = some e; files = take r.valid seg ∷ [] })
      | none ↦
          if r.stopped
          then some (record { head = r.head; error = none; files = take r.valid seg ∷ later })
          else on
    ]

unfoldable pub replay_wal : (ℕ → Bool) → List Str → Head → Option Recovered
replay_wal can_make [] h = some (record { head = h; error = none; files = [] })
replay_wal can_make (seg ∷ later) h =
    after_segment seg later (replay_wal can_make later) (replay_segment can_make seg h)
