-- ===== src/Tests/HeadTests.antt =====
-- The head and the engine over it (internal/tsdb) at concrete inputs.
use omni_metrics.Prelude.{inr}
use omni_metrics.Prelude.Bytes.{str_eq}
use omni_metrics.Prelude.Table.{put}
use omni_metrics.Model.Labels.{
  hash, write_byte, write_string, hash_label, equal, all_equal, label_eq,
}
use omni_metrics.Tsdb.Head.{insert_series}
use omni_metrics.Tsdb.Record.{done}
use omni_metrics.Tsdb.Wal.Layout.{apply_all}
use omni_metrics.Tsdb.Db.{rollback}
use omni_metrics.Tsdb.Head.Query.{label_values}
use omni_metrics.Tsdb.Head.Values.{IsValue, label_values_answers}
use omni_metrics.Tsdb.Db.Shared.{shared_series_lost}
use omni_metrics.Prelude.{
  ℕ, List, [], ◌∷◌, Bool, true, Option, none, some, refl, ◌≡◌, arith, bytes, In, ◌↔◌, if◌then◌else◌,
}
use omni_metrics.Prelude.Bytes.{str_lt}
use omni_metrics.Prelude.Int.{ℤ, pos, eqb_ℤ}
use omni_metrics.Prelude.Table.{find, nat_eq}
use mathlib.Core.List.{foldl}
use omni_metrics.Model.Labels.{Labels}
use omni_metrics.Model.Matcher.{Matcher, match_equal, unused}
use omni_metrics.Tsdb.Head.{
  find_link, acquire, create_series, Head, SeriesResult, Sample, new_head, get_or_create_limited,
  append_to, append_sample,
}
use omni_metrics.Tsdb.Head.Samples.{IsAscending, value_at, or_else, append_to_values}
use omni_metrics.Tsdb.Head.Ranges.{any_between, in_range, samples_in_range_lem}
use omni_metrics.Tsdb.Head.Query.{samples_in_range, query}
use omni_metrics.Tsdb.Head.Removal.{truncate}
use omni_metrics.Tsdb.Head.Invariant.{IsHead, new_head-IsHead, append_sample-IsHead}
use omni_metrics.Tsdb.Head.Create.{Created, get_or_create_limited_lem}
use omni_metrics.Tsdb.Head.Truncate.{truncated, truncate_lem}
use omni_metrics.Tsdb.Head.Answers.{IsAnswer, query_answers}
use omni_metrics.Tsdb.Wal.{Wal, disk, replay_wal}
use omni_metrics.Tsdb.Db.{Db, Appender, nothing_staged, append, commit}
use omni_metrics.Tsdb.Db.Staged.{view, with_series}
use omni_metrics.Tsdb.Wal.Files.{empty-Holds}
use mathlib.Core.Path.{subst, sym}
use omni_metrics.Tsdb.Db.Logged.{commit_records, IsCommittable}
use omni_metrics.Tsdb.Record.{encode_series, encode_samples, put_labels, put_samples, put_str}
use omni_metrics.Tsdb.Binary.{put_uvarint, put_groups, put_varint, zigzag, put_le}
use omni_metrics.Tsdb.Db.Runs.{Run, opened, appended, committed, Run-restart}

abbrev pub up : Labels
up =
    record { name = bytes "__name__"; value = bytes "up" }
    ∷ record { name = bytes "job"; value = bytes "n" }
    ∷ []

abbrev pub empty_head : Head
empty_head = new_head (pos 0) 5

abbrev pub one_series : Head
one_series = (get_or_create_limited up 5 empty_head).1

abbrev pub one_sample : Head
one_sample = append_sample 1 (pos 10) 7 one_series

pub one_sample-IsHead : IsHead one_sample
one_sample-IsHead =
    append_sample-IsHead 1 (pos 10) 7 one_series
      (get_or_create_limited_lem up 5 empty_head (new_head-IsHead (pos 0) 5)
        (unfold new_head in omega arith)).0

get_or_create_limited_example :
    IsHead (get_or_create_limited up 5 empty_head).1
    × Created up 5 empty_head
        (get_or_create_limited up 5 empty_head).0
        (get_or_create_limited up 5 empty_head).1
unfolding new_head
get_or_create_limited_example =
    get_or_create_limited_lem up 5 empty_head (new_head-IsHead (pos 0) 5) (omega arith)

truncate_example :
    IsHead (truncate (pos 20) one_sample)
    × ((r : ℕ)
        → find r (truncate (pos 20) one_sample).series
          ≡ truncated (pos 20) (find r one_sample.series))
truncate_example = truncate_lem (pos 20) one_sample one_sample-IsHead

abbrev pub by_job : List Matcher
by_job = record { kind = match_equal; name = bytes "job"; value = bytes "n"; re = unused } ∷ []

query_answers_example :
    (rs : List SeriesResult) × (query (pos 0) (pos 20) by_job one_sample ≡ some rs)
    × ((r : SeriesResult) → In r rs ↔ IsAnswer (pos 0) (pos 20) by_job one_sample r)
query_answers_example =
    query_answers (pos 0) (pos 20) by_job one_sample one_sample-IsHead (omega arith)

abbrev two_samples : List Sample
two_samples = record { t = pos 5; v = 1 } ∷ record { t = pos 9; v = 2 } ∷ []

append_to_values_example :
    IsAscending (append_to (pos 7) 3 two_samples)
    × ((u : ℤ)
        → value_at u (append_to (pos 7) 3 two_samples) ≡ (
            if eqb_ℤ (pos 7) u
            then some (or_else (value_at (pos 7) two_samples) 3)
            else value_at u two_samples))
append_to_values_example = append_to_values (pos 7) 3 two_samples ((omega arith, tt), (tt, tt))

samples_in_range_example : samples_in_range two_samples (pos 9) (pos 6) ≡ (
    if any_between (pos 6) (pos 9) two_samples
    then none
    else some (in_range (pos 9) (pos 6) two_samples))
samples_in_range_example =
    samples_in_range_lem (pos 9) (pos 6) two_samples ((omega arith, tt), (tt, tt))

abbrev fresh : Db
fresh = record {
  head = empty_head;
  wal = some (record { full = []; cur = []; cur_size = 0; seq = 1; max_seg_size = 20 });
}

abbrev can_make_all : ℕ → Bool
can_make_all n = true

abbrev staged : Option ℕ × Db × Appender
staged = append up (pos 10) 7 fresh nothing_staged

staged-Run : Run can_make_all (pos 0) 5 [] staged.1 staged.2
staged-Run =
    appended up (pos 10) 7 (opened fresh _ refl refl (empty-Holds 0 1 20))
      (unfold new_head in omega arith)

abbrev batch : Appender
batch = record {
  new_series = record { ref = 1; labels = up } ∷ [];
  pending = record { ref = 1; t = pos 10; v = 7 } ∷ [];
}

staged-batch : staged.2 ≡ batch
unfolding append acquire get_or_create_limited create_series new_head find find_link
staged-batch = refl

batch-IsCommittable : IsCommittable can_make_all batch
unfolding encode_series encode_samples put_labels put_samples put_str put_uvarint put_groups
    put_varint zigzag put_le str_lt
batch-IsCommittable = record {
  series = ((omega arith, ((refl, tt), (tt, tt)), omega arith), tt);
  samples = (omega arith, tt);
  size = omega arith;
  room = refl;
}

committed-Run :
    Run can_make_all (pos 0) 5 (commit_records staged.2) (commit staged.1 staged.2).0 nothing_staged
unfolding commit
committed-Run =
    committed staged-Run (subst (IsCommittable can_make_all) (sym staged-batch) batch-IsCommittable)

Run-restart_example :
    (w : Wal) × ((commit staged.1 staged.2).0.wal ≡ some w)
    × (r : Head) × (replay_wal can_make_all (disk w) (new_head (pos 0) 5)
        ≡ some (record { head = r; error = none; files = disk w }))
    × (view (commit staged.1 staged.2).0.head
        ≡ foldl with_series (view r) nothing_staged.new_series)
Run-restart_example = Run-restart can_make_all (pos 0) 5 _ _ _ committed-Run

-- The series `up` is made by one batch and used by a second one.
abbrev first_batch : Option ℕ × Db × Appender
first_batch = append up (pos 10) 7 fresh nothing_staged

abbrev second_batch : Option ℕ × Db × Appender
second_batch = append up (pos 20) 8 first_batch.1 nothing_staged

abbrev shared : Appender
shared = record { new_series = []; pending = record { ref = 1; t = pos 20; v = 8 } ∷ [] }

second_batch-shared : second_batch.2 ≡ shared
unfolding append acquire get_or_create_limited create_series new_head find find_link insert_series
    put hash write_byte write_string hash_label str_eq equal all_equal label_eq
second_batch-shared = refl

shared-IsCommittable : IsCommittable can_make_all shared
unfolding encode_samples put_samples put_uvarint put_groups put_varint zigzag put_le
shared-IsCommittable = record {
  series = tt;
  samples = (omega arith, tt);
  size = omega arith;
  room = refl;
}

shared_series_lost_example :
    (find 1 (rollback (commit second_batch.1 second_batch.2).0 first_batch.2).0.head.series
      ≡ some (record { ref = 1; labels = up; samples = record { t = pos 20; v = 8 } ∷ [] }))
    × (apply_all can_make_all (commit_records second_batch.2) empty_head ≡ done empty_head)
unfolding new_head find
shared_series_lost_example =
    shared_series_lost can_make_all up (pos 10) (pos 20) 7 8 fresh empty_head
      (new_head-IsHead (pos 0) 5) (omega arith) (λ r ms e. absurd (cc)) (inr (omega arith)) refl
      (subst (IsCommittable can_make_all) (sym second_batch-shared) shared-IsCommittable)

label_values_answers_example :
    In (bytes "n") (label_values (bytes "job") by_job one_sample)
    ↔ IsValue (bytes "job") by_job one_sample (bytes "n")
label_values_answers_example =
    label_values_answers (bytes "job") by_job one_sample (bytes "n") one_sample-IsHead refl
