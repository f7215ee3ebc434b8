-- ===== src/Tsdb/Db/Logged.antt =====
-- The records that a commit logs (internal/tsdb/tsdb.go, Commit), and their replay.
use omni_metrics.Prelude.{
  ℕ, ◌^◌, ◌<◌, List, [], ◌∷◌, ◌++◌, Bool, true, ◌≡◌, refl, ap, sym, ◌∙◌, arith, length,
  if◌then◌else◌, All,
}
use omni_metrics.Prelude.Table.{nat_eq}
use mathlib.Core.Path.{subst}
use mathlib.Core.List.{foldl, append-nil, append_assoc}
use omni_metrics.Model.Labels.Normal.{IsNormal}
use omni_metrics.Tsdb.Binary.{IsU64}
use omni_metrics.Tsdb.Record.{RefSample, done, encode_series, encode_samples}
use omni_metrics.Tsdb.Record.RoundTrip.{
  IsStorable, decode_series-encode_series, decode_samples-encode_samples,
}
use omni_metrics.Tsdb.Head.{Head, add_series_with_ref}
use omni_metrics.Tsdb.Head.Removal.{is_empty}
use omni_metrics.Tsdb.Wal.{Wal, log_series, log_samples, apply_record, rec_series, rec_samples}
use omni_metrics.Tsdb.Wal.Layout.{LogRecord, apply_all, Fits, All-append}
use omni_metrics.Tsdb.Wal.Files.{Holds, write-Holds}
use omni_metrics.Tsdb.Db.Staged.{View, view, with_series, AreNew, view-add_series}
use omni_metrics.Tsdb.Db.{SeriesRec, Appender, apply_sample, log_new, log_batch}

-- The records that `Commit` logs.
unfoldable pub series_record : SeriesRec → LogRecord
series_record n = record { typ = rec_series; payload = encode_series n.ref n.labels }

unfoldable pub series_records : List SeriesRec → List LogRecord
series_records [] = []
series_records (n ∷ ns) = series_record n ∷ series_records ns

unfoldable pub sample_records : List RefSample → List LogRecord
sample_records [] = []
sample_records (s ∷ ss) = record { typ = rec_samples; payload = encode_samples (s ∷ ss) } ∷ []

unfoldable pub commit_records : Appender → List LogRecord
commit_records a = series_records a.new_series ++ sample_records a.pending

-- What the codec needs of a staged series, and of a batch.
abbrev pub IsLoggable : SeriesRec → Type 0
IsLoggable n = IsU64 n.ref × IsNormal n.labels × (length (encode_series n.ref n.labels) < 2 ^ 32)

pub apply-series :
    (can_make : ℕ → Bool) (n : SeriesRec) (r : Head)
    → IsLoggable n
    → apply_record can_make rec_series (encode_series n.ref n.labels) r
      ≡ done (add_series_with_ref n.ref n.labels r)
unfolding apply_record
apply-series can_make n r (u, l, k) =
    rw (decode_series-encode_series n.ref n.labels u l (omega arith))

apply-samples :
    (can_make : ℕ → Bool) (ss : List RefSample) (r : Head)
    → All IsStorable ss
    → length (encode_samples ss) < 2 ^ 63
    → can_make (length ss) ≡ true
    → apply_record can_make rec_samples (encode_samples ss) r ≡ done (foldl apply_sample r ss)
unfolding apply_record apply_sample
apply-samples can_make ss r h k m = rw (decode_samples-encode_samples can_make ss h k m)

apply_all-cons :
    (can_make : ℕ → Bool) (x : LogRecord) (xs : List LogRecord) (r r' : Head)
    → apply_record can_make x.typ x.payload r ≡ done r'
    → apply_all can_make (x ∷ xs) r ≡ apply_all can_make xs r'
unfolding apply_all
apply_all-cons can_make x xs r r' e = rw e

pub replay_series :
    (can_make : ℕ → Bool) (ns : List SeriesRec) (rest : List LogRecord) (r : Head)
    → All IsLoggable ns
    → AreNew ns (view r)
    → (r' : Head) × (apply_all can_make (series_records ns ++ rest) r ≡ apply_all can_make rest r')
      × (view r' ≡ foldl with_series (view r) ns)
unfolding series_records AreNew
replay_series can_make [] rest r l a = (r, refl, refl)
replay_series can_make (n ∷ ns) rest r (l, ls) (free, a) =
    let grown = view-add_series n r free in
    let (r', e, v) =
      replay_series can_make ns rest (add_series_with_ref n.ref n.labels r) ls (rw grown a) in
    (
      r',
      apply_all-cons can_make (series_record n) (series_records ns ++ rest) r
            (add_series_with_ref n.ref n.labels r)
            (unfold series_record in apply-series can_make n r l)
          ∙ e,
      v ∙ ap (λ (g : View). foldl with_series g ns) grown,
    )

-- What a batch must fit to be logged and read back.
pub record IsCommittable (can_make : ℕ → Bool) (a : Appender) : Type 0 where
  pub series : All IsLoggable a.new_series
  pub samples : All IsStorable a.pending
  pub size : length (encode_samples a.pending) < 2 ^ 32
  pub room : can_make (length a.pending) ≡ true

pub replay_batch :
    (can_make : ℕ → Bool) (ss : List RefSample) (r : Head)
    → All IsStorable ss
    → length (encode_samples ss) < 2 ^ 63
    → can_make (length ss) ≡ true
    → apply_all can_make (sample_records ss) r ≡ done (foldl apply_sample r ss)
unfolding sample_records apply_all
replay_batch can_make [] r h k m = refl
replay_batch can_make (s ∷ ss) r h k m = rw (apply-samples can_make (s ∷ ss) r h k m)

series-Fits : (ns : List SeriesRec) → All IsLoggable ns → All Fits (series_records ns)
unfolding series_records series_record
series-Fits [] l = tt
series-Fits (n ∷ ns) ((u, m, k), ls) = (k, series-Fits ns ls)

samples-Fits :
    (ss : List RefSample) → length (encode_samples ss) < 2 ^ 32 → All Fits (sample_records ss)
unfolding sample_records
samples-Fits [] h = tt
samples-Fits (s ∷ ss) h = (h, tt)

pub commit-Fits :
    (can_make : ℕ → Bool) (a : Appender) → IsCommittable can_make a → All Fits (commit_records a)
unfolding commit_records
commit-Fits can_make a c =
    All-append (series_records a.new_series) (sample_records a.pending)
      (series-Fits a.new_series c.series) (samples-Fits a.pending c.size)

series-Holds :
    (ns : List SeriesRec) (w : Wal) (rs : List LogRecord)
    → Holds w rs
    → Holds (foldl log_new w ns) (rs ++ series_records ns)
unfolding series_records series_record log_new log_series
series-Holds [] w rs s = subst (Holds w) (sym (append-nil rs)) s
series-Holds (n ∷ ns) w rs s =
    subst (Holds (foldl log_new w (n ∷ ns)))
      (append_assoc rs (series_record n ∷ []) (series_records ns))
      (series-Holds ns (log_new w n) (rs ++ (series_record n ∷ []))
        (write-Holds rec_series (encode_series n.ref n.labels) w rs s))

pub commit-Holds :
    (a : Appender) (w : Wal) (rs : List LogRecord)
    → Holds w rs
    → Holds (log_batch a w) (rs ++ commit_records a)
unfolding log_batch commit_records
commit-Holds a w rs s =
    subst (Holds (log_batch a w))
      (append_assoc rs (series_records a.new_series) (sample_records a.pending))
      (samples-Holds a.pending (foldl log_new w a.new_series) (rs ++ series_records a.new_series)
        (series-Holds a.new_series w rs s))
  where
    samples-Holds :
        (ss : List RefSample) (v : Wal) (q : List LogRecord)
        → Holds v q
        → Holds (if is_empty ss then v else log_samples ss v) (q ++ sample_records ss)
    samples-Holds [] v q h = unfold sample_records in subst (Holds v) (sym (append-nil q)) h
    samples-Holds (x ∷ xs) v q h =
        unfold sample_records log_samples in write-Holds rec_samples (encode_samples (x ∷ xs)) v q h
