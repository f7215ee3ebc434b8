-- ===== src/Tsdb/Db/Durable.antt =====
-- Committed batches survive (internal/tsdb): replaying the log's records rebuilds the head, and a
-- batch that is rolled back leaves no trace.
use omni_metrics.Prelude.{
  ℕ, ◌+◌, ◌^◌, ◌<◌, List, [], ◌∷◌, Bool, Option, none, some, ◌≡◌, refl, ap, sym, ◌∙◌, arith,
}
use omni_metrics.Prelude.Int.{ℤ}
use omni_metrics.Prelude.Table.{nat_eq}
use mathlib.Core.Path.{fun_ext, transport}
use mathlib.Core.List.{foldl}
use omni_metrics.Model.Labels.{Labels}
use omni_metrics.Tsdb.Record.{RefSample, done}
use omni_metrics.Tsdb.Head.{Head, append_sample, acquire, get_or_create_limited}
use omni_metrics.Tsdb.Head.Removal.{reclaim_if_empty}
use omni_metrics.Tsdb.Head.Invariant.{IsHead, append_sample-IsHead, reclaim_if_empty-IsHead}
use omni_metrics.Tsdb.Head.Create.{Created, found, made, refused, get_or_create_limited_lem}
use omni_metrics.Tsdb.Wal.Layout.{apply_all}
use omni_metrics.Tsdb.Db.Staged.{
  View, view, with_series, with_sample, AreNew, view-samples, view-rollback, AreNew-append,
  staged-append,
}
use omni_metrics.Tsdb.Db.{
  SeriesRec, Appender, Db, nothing_staged, took_ref, append, commit, rollback, reclaim_new,
  apply_sample,
}
use omni_metrics.Tsdb.Db.Logged.{
  sample_records, commit_records, replay_series, IsCommittable, replay_batch,
}

-- The live head `h` in the middle of a batch, against the head `r` that the log rebuilds.
pub record IsStaged (r : Head) (h : Head) (a : Appender) : Type 0 where
  pub whole : IsHead h
  pub stored : view h ≡ foldl with_series (view r) a.new_series
  pub fresh : AreNew a.new_series (view r)

took_ref-IsStaged :
    (r : Head) (l : Labels) (t : ℤ) (v limit : ℕ) (db : Db) (a : Appender) (h : Head)
    (o : Option (ℕ × Bool)) (h' : Head)
    → IsStaged r h a
    → IsHead h'
    → Created l limit h o h'
    → IsStaged r h' (took_ref l t v db a (o, h')).2
took_ref-IsStaged r l t v limit db a h o h' s w (found q ms there same) = record {
  whole = w;
  stored = s.stored;
  fresh = s.fresh;
}
took_ref-IsStaged r l t v limit db a h o h' s w (made _ absent room free last finds size) =
    let n : SeriesRec = record { ref = h.last_ref + 1; labels = l } in
    let grown : view h' ≡ with_series (view h) n = unfold view with_series in fun_ext finds in
    record {
      whole = w;
      stored =
          grown
          ∙ ap (λ (g : View). with_series g n) s.stored
          ∙ sym (staged-append a.new_series n (view r));
      fresh =
          AreNew-append a.new_series n (view r) s.fresh
            (ap (λ (g : View). g n.ref) (sym s.stored) ∙ unfold view in free);
    }
took_ref-IsStaged r l t v limit db a h o h' s w (refused absent pos full) = record {
  whole = w;
  stored = s.stored;
  fresh = s.fresh;
}

apply_samples-IsHead :
    (h : Head) (ss : List RefSample) → IsHead h → IsHead (foldl apply_sample h ss)
unfolding apply_sample
apply_samples-IsHead h [] v = v
apply_samples-IsHead h (s ∷ ss) v =
    apply_samples-IsHead (append_sample s.ref s.t s.v h) ss (append_sample-IsHead s.ref s.t s.v h v)

reclaims-IsHead : (h : Head) (ns : List SeriesRec) → IsHead h → IsHead (foldl reclaim_new h ns)
unfolding reclaim_new
reclaims-IsHead h [] v = v
reclaims-IsHead h (n ∷ ns) v =
    reclaims-IsHead (reclaim_if_empty n.ref h) ns (reclaim_if_empty-IsHead n.ref h v)

pub commit-replayed :
    (can_make : ℕ → Bool) (r : Head) (db : Db) (a : Appender)
    → IsStaged r db.head a
    → IsCommittable can_make a
    → (r' : Head) × (apply_all can_make (commit_records a) r ≡ done r')
      × IsStaged r' (commit db a).0.head nothing_staged
unfolding commit commit_records
commit-replayed can_make r db a s c =
    let (r₁, e, v) =
      replay_series can_make a.new_series (sample_records a.pending) r c.series s.fresh in
    (
      foldl apply_sample r₁ a.pending,
      e ∙ replay_batch can_make a.pending r₁ c.samples (omega (arith, c.size)) c.room,
      record {
        whole = apply_samples-IsHead db.head a.pending s.whole;
        stored =
            view-samples db.head a.pending
            ∙ ap (λ (g : View). foldl with_sample g a.pending) (s.stored ∙ sym v)
            ∙ sym (view-samples r₁ a.pending);
        fresh = unfold AreNew in tt;
      },
    )

pub rollback-IsStaged :
    (r : Head) (db : Db) (a : Appender)
    → IsStaged r db.head a
    → IsStaged r (rollback db a).0.head nothing_staged
unfolding rollback
rollback-IsStaged r db a s = record {
  whole = reclaims-IsHead db.head a.new_series s.whole;
  stored = view-rollback a.new_series db.head (view r) s.stored s.fresh;
  fresh = unfold AreNew in tt;
}

took_ref-head :
    (l : Labels) (t : ℤ) (v : ℕ) (db : Db) (a : Appender) (o : Option (ℕ × Bool)) (h : Head)
    → (took_ref l t v db a (o, h)).1.head ≡ h
took_ref-head l t v db a none h = refl
took_ref-head l t v db a (some q) h = refl

-- An append, whichever way the head answers it, stages what it added and nothing else.
pub append-IsStaged :
    (r : Head) (l : Labels) (t : ℤ) (v : ℕ) (db : Db) (a : Appender)
    → db.head.last_ref + 1 < 2 ^ 64
    → IsStaged r db.head a
    → IsStaged r (append l t v db a).1.head (append l t v db a).2
unfolding append acquire
append-IsStaged r l t v db a room s =
    let (w, c) = get_or_create_limited_lem l db.head.max_series db.head s.whole room in
    let q = get_or_create_limited l db.head.max_series db.head in
    transport (λ i. IsStaged r (sym (took_ref-head l t v db a q.0 q.1) i) (took_ref l t v db a q).2)
      (took_ref-IsStaged r l t v db.head.max_series db a db.head q.0 q.1 s w c)
