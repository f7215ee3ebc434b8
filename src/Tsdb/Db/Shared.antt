-- ===== src/Tsdb/Db/Shared.antt =====
-- Two batches that are open at once and share a new series (internal/tsdb/tsdb.go, Append, Commit and
-- Rollback).
use omni_metrics.Prelude.{
  ℕ, ◌+◌, ◌^◌, ◌<◌, [], ◌∷◌, Bool, true, false, Option, none, some, ◌≡◌, refl, ap, sym, ◌∙◌, arith,
  Bool-cases, inl, inr, ◌⊎◌, ◌==◌, length, if◌then◌else◌,
}
use mathlib.Core.Path.{subst}
use omni_metrics.Prelude.Int.{ℤ}
use omni_metrics.Prelude.Table.{find, nat_eq, find-put}
use omni_metrics.Model.Labels.{Labels}
use omni_metrics.Tsdb.Record.{RefSample, done}
use omni_metrics.Tsdb.Head.{
  Head, MemSeries, get_or_create_limited, acquire, last?, append_to, append_sample,
}
use omni_metrics.Tsdb.Head.Removal.{reclaim_if_empty}
use omni_metrics.Tsdb.Head.Invariant.{IsHead}
use omni_metrics.Tsdb.Head.Create.{
  IsAbsent, Created, found, made, refused, get_or_create_limited_lem,
}
use omni_metrics.Tsdb.Wal.Layout.{apply_all}
use omni_metrics.Tsdb.Db.{
  Appender, Db, nothing_staged, took_ref, append, commit, rollback, apply_sample, reclaim_new,
}
use omni_metrics.Tsdb.Db.Logged.{IsCommittable, commit_records, series_records, replay_batch}

-- A call that made the series of the labels.
record Made (l : Labels) (limit : ℕ) (h : Head) : Type 0 where
  after : Head
  result : get_or_create_limited l limit h ≡ (some (h.last_ref + 1, true), after)
  whole : IsHead after
  last : after.last_ref ≡ h.last_ref + 1
  finds :
      (r : ℕ)
      → find r after.series ≡ (
          if h.last_ref + 1 == r
          then some (record { ref = h.last_ref + 1; labels = l; samples = [] })
          else find r h.series)

makes :
    (l : Labels) (limit : ℕ) (h : Head)
    → IsHead h
    → h.last_ref + 1 < 2 ^ 64
    → IsAbsent l h
    → (limit ≡ 0) ⊎ (length h.series < limit)
    → Made l limit h
makes l limit h v room absent free =
    let (w, c) = get_or_create_limited_lem l limit h v room in
    made_case (get_or_create_limited l limit h).0 (get_or_create_limited l limit h).1 refl w c
  where
    made_case :
        (o : Option (ℕ × Bool)) (h' : Head)
        → get_or_create_limited l limit h ≡ (o, h')
        → IsHead h'
        → Created l limit h o h'
        → Made l limit h
    made_case o h' e w (found r ms there same) = absurd (absent r ms there same)
    made_case o h' e w (made _ a b f last finds size) = record {
      after = h';
      result = e;
      whole = w;
      last = last;
      finds = finds;
    }
    made_case o h' e w (refused a pos full) =
        absurd (elim free [ inl z ↦ omega arith | inr k ↦ omega arith ])

finds_again :
    (l : Labels) (limit limit' : ℕ) (h : Head) (m : Made l limit h)
    → IsAbsent l h
    → h.last_ref + 2 < 2 ^ 64
    → get_or_create_limited l limit' m.after ≡ (some (h.last_ref + 1, false), m.after)
finds_again l limit limit' h m absent room =
    let (w, c) = get_or_create_limited_lem l limit' m.after m.whole (omega (arith, m.last)) in
    found_case (get_or_create_limited l limit' m.after).0 (get_or_create_limited l limit' m.after).1
      refl c
  where
    there :
        find (h.last_ref + 1) m.after.series
        ≡ some (record { ref = h.last_ref + 1; labels = l; samples = [] })
    there = m.finds (h.last_ref + 1) ∙ ground arith

    same_ref :
        (r : ℕ) (ms : MemSeries)
        → find r m.after.series ≡ some ms
        → ms.labels ≡ l
        → r ≡ h.last_ref + 1
    same_ref r ms e same = elim (Bool-cases (h.last_ref + 1 == r)) [
      | inl f ↦ ground arith
      | inr f ↦ absurd (absent r ms (sym (m.finds r ∙ rw f refl) ∙ e) same)
    ]

    found_case :
        (o : Option (ℕ × Bool)) (h' : Head)
        → get_or_create_limited l limit' m.after ≡ (o, h')
        → Created l limit' m.after o h'
        → get_or_create_limited l limit' m.after ≡ (some (h.last_ref + 1, false), m.after)
    found_case o h' e (found r ms at same) =
        e ∙ ap (λ (q : ℕ). (some (q, false), m.after)) (same_ref r ms at same)
    found_case o h' e (made _ a b f last finds size) = absurd (a (h.last_ref + 1) _ there refl)
    found_case o h' e (refused a pos full) = absurd (a (h.last_ref + 1) _ there refl)

append-makes :
    (l : Labels) (t : ℤ) (v : ℕ) (db : Db) (m : Made l db.head.max_series db.head)
    → append l t v db nothing_staged ≡ (
      some (db.head.last_ref + 1),
      record db { head = m.after },
      record {
        new_series = record { ref = db.head.last_ref + 1; labels = l } ∷ [];
        pending = record { ref = db.head.last_ref + 1; t = t; v = v } ∷ [];
      },
    )
unfolding append acquire
append-makes l t v db m = ap (took_ref l t v db nothing_staged) m.result

append-finds :
    (l : Labels) (t : ℤ) (v ref : ℕ) (db : Db)
    → get_or_create_limited l db.head.max_series db.head ≡ (some (ref, false), db.head)
    → append l t v db nothing_staged ≡ (
      some ref,
      db,
      record { new_series = []; pending = record { ref = ref; t = t; v = v } ∷ [] },
    )
unfolding append acquire
append-finds l t v ref db e = ap (took_ref l t v db nothing_staged) e

-- A sample for a reference that is not there is dropped.
apply-absent : (s : RefSample) (r : Head) → find s.ref r.series ≡ none → apply_sample r s ≡ r
unfolding apply_sample append_sample
apply-absent s r e = rw (e, append_sample) refl

kept_sample :
    (n : ℕ) (u : ℤ) (x : ℕ) (l : Labels) (h : Head)
    → find n h.series ≡ some (record { ref = n; labels = l; samples = [] })
    → find n (reclaim_if_empty n (append_sample n u x h)).series
      ≡ some (record { ref = n; labels = l; samples = record { t = u; v = x } ∷ [] })
kept_sample n u x l h e = reclaimed (append_sample n u x h) stored
  where
    stored :
        find n (append_sample n u x h).series
        ≡ some (record { ref = n; labels = l; samples = record { t = u; v = x } ∷ [] })
    stored =
        unfold append_sample append_to last? in
        rw (e, append_sample) (find-put n n _ h.series ∙ ground arith)

    reclaimed :
        (h' : Head)
        → find n h'.series
          ≡ some (record { ref = n; labels = l; samples = record { t = u; v = x } ∷ [] })
        → find n (reclaim_if_empty n h').series
          ≡ some (record { ref = n; labels = l; samples = record { t = u; v = x } ∷ [] })
    reclaimed h' f = unfold reclaim_if_empty in rw (f, reclaim_if_empty) f

unlogged :
    (can_make : ℕ → Bool) (s : RefSample) (r : Head)
    → find s.ref r.series ≡ none
    → IsCommittable can_make (record { new_series = []; pending = s ∷ [] })
    → apply_all can_make (commit_records (record { new_series = []; pending = s ∷ [] })) r ≡ done r
unfolding commit_records series_records
unlogged can_make s r gone fits =
    replay_batch can_make (s ∷ []) r fits.samples (omega (arith, fits.size)) fits.room
    ∙ ap done (apply-absent s r gone)

-- A series that no series of the head has the labels of is made by one batch and used by a second
-- one, while there is room for it and references do not wrap. The second batch commits and the first
-- rolls back: the head keeps the series with the committed sample, but the records that the commit
-- logged leave unchanged every head that lacks the reference, so a restart loses the sample.
pub shared_series_lost :
    (can_make : ℕ → Bool) (l : Labels) (t u : ℤ) (v x : ℕ) (db : Db) (r : Head)
    → IsHead db.head
    → db.head.last_ref + 2 < 2 ^ 64
    → IsAbsent l db.head
    → (db.head.max_series ≡ 0) ⊎ (length db.head.series < db.head.max_series)
    → find (db.head.last_ref + 1) r.series ≡ none
    → IsCommittable can_make (append l u x (append l t v db nothing_staged).1 nothing_staged).2
    → (find
          (db.head.last_ref + 1)
          (rollback
            (commit
              (append l u x (append l t v db nothing_staged).1 nothing_staged).1
              (append l u x (append l t v db nothing_staged).1 nothing_staged).2).0
            (append l t v db nothing_staged).2).0.head.series
        ≡ some (record {
          ref = db.head.last_ref + 1;
          labels = l;
          samples = record { t = u; v = x } ∷ [];
        }))
      × (apply_all can_make
            (commit_records (append l u x (append l t v db nothing_staged).1 nothing_staged).2)
            r
          ≡ done r)
shared_series_lost can_make l t u v x db r w room absent free gone fit =
    let m = makes l db.head.max_series db.head w (omega arith) absent free in
    let first = append-makes l t v db m in
    let again =
      append-finds l u x (db.head.last_ref + 1) (record db { head = m.after })
        (finds_again l db.head.max_series m.after.max_series db.head m absent room) in
    let second =
      ap (λ (f : Option ℕ × Db × Appender). append l u x f.1 nothing_staged) first ∙ again in
    let fits = subst (λ (q : Option ℕ × Db × Appender). IsCommittable can_make q.2) second fit in
    rw (first, again)
      (unfold commit rollback reclaim_new apply_sample in
        (
          kept_sample (db.head.last_ref + 1) u x l m.after
              (m.finds (db.head.last_ref + 1) ∙ ground arith),
          unlogged can_make (record { ref = db.head.last_ref + 1; t = u; v = x }) r gone fits,
        ))
