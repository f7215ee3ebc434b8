-- ===== src/Tsdb/Db.antt =====
-- internal/tsdb/tsdb.go: the storage engine: a head with an optional log, and the appender that
-- stages a batch. Errors of writing and syncing files are not modelled.
pub mod Staged
pub mod Logged
pub mod Durable
pub mod Runs
pub mod Shared
use omni_metrics.Prelude.{
  ℕ, List, [], ◌∷◌, ◌++◌, Bool, true, false, Option, none, some, length, Str, if◌then◌else◌,
}
use omni_metrics.Prelude.Int.{ℤ}
use omni_metrics.Model.Labels.{Labels}
use omni_metrics.Tsdb.Record.{RefSample}
use omni_metrics.Tsdb.Head.{Head, acquire, append_sample}
use omni_metrics.Tsdb.Head.Removal.{is_empty, reclaim_if_empty}
use omni_metrics.Tsdb.Head.Removal as Removal
use omni_metrics.Tsdb.Wal.{Wal, log_series, log_samples}
use mathlib.Core.List.{foldl}

pub record SeriesRec : Type 0 where
  pub ref : ℕ
  pub labels : Labels

-- What an appender has staged.
pub record Appender : Type 0 where
  pub new_series : List SeriesRec
  pub pending : List RefSample

-- `wal` is nil for a database in memory.
pub record Db : Type 0 where
  pub head : Head
  pub wal : Option Wal

abbrev pub nothing_staged : Appender
nothing_staged = record { new_series = []; pending = [] }

abbrev pub staged_series : Bool → ℕ → Labels → List SeriesRec → List SeriesRec
staged_series true ref l ns = ns ++ (record { ref = ref; labels = l } ∷ [])
staged_series false ref l ns = ns

-- `Append` once the head has answered; `none` is the error.
abbrev pub took_ref :
    Labels → ℤ → ℕ → Db → Appender → Option (ℕ × Bool) × Head → Option ℕ × Db × Appender
took_ref l t v db a (none, h) = (none, record db { head = h }, a)
took_ref l t v db a (some (ref, created), h) = (
  some ref,
  record db { head = h },
  record {
    new_series = staged_series created ref l a.new_series;
    pending = a.pending ++ (record { ref = ref; t = t; v = v } ∷ []);
  },
)

unfoldable pub append : Labels → ℤ → ℕ → Db → Appender → Option ℕ × Db × Appender
append l t v db a = took_ref l t v db a (acquire l db.head)

unfoldable pub log_new : Wal → SeriesRec → Wal
log_new w s = log_series s.ref s.labels w

unfoldable pub log_batch : Appender → Wal → Wal
log_batch a w =
    let w' = foldl log_new w a.new_series in
    if is_empty a.pending then w' else log_samples a.pending w'

unfoldable pub apply_sample : Head → RefSample → Head
apply_sample h s = append_sample s.ref s.t s.v h

abbrev map_wal : (Wal → Wal) → Option Wal → Option Wal
map_wal f none = none
map_wal f (some w) = some (f w)

-- `Commit`: the log first, then the head.
unfoldable pub commit : Db → Appender → Db × Appender
unfolding log_new log_batch apply_sample
commit db a = (
  record { head = foldl apply_sample db.head a.pending; wal = map_wal (log_batch a) db.wal },
  nothing_staged,
)

unfoldable pub reclaim_new : Head → SeriesRec → Head
reclaim_new h s = reclaim_if_empty s.ref h

unfoldable pub rollback : Db → Appender → Db × Appender
unfolding reclaim_new
rollback db a = (record db { head = foldl reclaim_new db.head a.new_series }, nothing_staged)

unfoldable pub truncate : ℤ → Db → Db
truncate min_t db = record db { head = Removal.truncate min_t db.head }

unfoldable pub head_series : Db → ℕ
head_series db = length db.head.series
