-- ===== src/Tsdb/Head/Invariant.antt =====
-- The invariant of the head (internal/tsdb/head.go), and that inserting, appending, reclaiming and
-- truncating keep it.
use omni_metrics.Prelude.{
  ℕ, ◌≤◌, List, [], none, some, ◌≡◌, refl, arith, Bool-cases, Option-cases, inl, inr, ◌==◌,
  if◌then◌else◌, ==_iff, Str,
}
use omni_metrics.Prelude.Int.{ℤ}
use omni_metrics.Prelude.Table.{
  IsTable, find, put, nat_eq, find-put, find-delete, put-IsTable, delete-IsTable,
}
use omni_metrics.Model.Labels.{Labels, hash}
use omni_metrics.Tsdb.Head.{
  Head, MemSeries, Sample, insert_series, new_head, append_sample, append_to, mem_ref,
}
use omni_metrics.Tsdb.Head.Samples.{IsAscending, append_to_values}
use omni_metrics.Tsdb.Head.Removal.{remove_series, reclaim_if_empty, is_empty}
use omni_metrics.Tsdb.Head.Index.{posted, series_carries, posted-insert, posted-remove}
use omni_metrics.Tsdb.Head.Chains.{IsChained, put-IsChained, delete-IsChained}

pub record IsHead (h : Head) : Type 0 where
  -- No reference has two series, and each series knows its own.
  pub table : IsTable h.series
  pub own_ref : (r : ℕ) (ms : MemSeries) → find r h.series ≡ some ms → ms.ref ≡ r
  -- References are handed out in order.
  pub refs_bounded : (r : ℕ) (ms : MemSeries) → find r h.series ≡ some ms → r ≤ h.last_ref
  -- Samples ascend strictly in time.
  pub ascending : (r : ℕ) (ms : MemSeries) → find r h.series ≡ some ms → IsAscending ms.samples
  -- The postings of a name and a value are the series that carry the label.
  pub exact :
      (n v : Str) (r : ℕ) → mem_ref r (posted n v h.postings) ≡ series_carries n v (find r h.series)
  -- The collision chains are in step with the series.
  pub chained : IsChained h.series h.hashes

pub new_head-IsHead : (retention : ℤ) (max_series : ℕ) → IsHead (new_head retention max_series)
unfolding new_head find posted mem_ref series_carries
new_head-IsHead retention max_series = record {
  table = tt;
  own_ref = λ r ms e. absurd (cc);
  refs_bounded = λ r ms e. absurd (cc);
  ascending = λ r ms e. absurd (cc);
  exact = λ n v r. refl;
  chained = record {
    sound = λ k x i. absurd i;
    complete = λ r ms e. absurd (cc);
    unique = λ k. tt;
  };
}

-- A new series under a free reference, with the counter moved to `last` or further.
module _ (ref last : ℕ) (l : Labels) (h : Head) (v : IsHead h) (free : find ref h.series ≡ none)
    (old_refs : h.last_ref ≤ last) (new_ref : ref ≤ last) where
  abbrev inserted : Head
  inserted = record (insert_series ref l (hash l) h) { last_ref = last }

  find-inserted :
      (r : ℕ)
      → find r inserted.series ≡ (
          if ref == r
          then some (record { ref = ref; labels = l; samples = [] })
          else find r h.series)
  unfolding insert_series
  find-inserted r = find-put ref r (record { ref = ref; labels = l; samples = [] }) h.series

  pub insert-IsHead : IsHead inserted
  unfolding insert_series
  insert-IsHead = record {
    table = put-IsTable ref _ h.series v.table;
    own_ref = λ r ms e. ground (arith, find-inserted r, v.own_ref r ms);
    refs_bounded = λ r ms e. ground (arith, find-inserted r, v.refs_bounded r ms);
    ascending = λ r ms e. ground (arith, find-inserted r, v.ascending r ms);
    exact = λ n w r.
        unfold series_carries in
        ground (arith, posted-insert n w r ref h.postings l, find-inserted r, v.exact n w r, free);
    chained = put-IsChained ref l h v.chained free;
  }

-- Other samples for a series, ascending ones.
module _ (ref : ℕ) (ms : MemSeries) (ss : List Sample) (h : Head) (v : IsHead h)
    (there : find ref h.series ≡ some ms) (asc : IsAscending ss) where
  abbrev changed : MemSeries
  changed = record ms { samples = ss }

  find-changed :
      (r : ℕ)
      → find r (put ref changed h.series) ≡ (if ref == r then some changed else find r h.series)
  find-changed r = find-put ref r changed h.series

  pub change-IsHead : IsHead (record h { series = put ref changed h.series })
  change-IsHead = record {
    table = put-IsTable ref _ h.series v.table;
    own_ref = λ r ns e. ground (arith, find-changed r, v.own_ref r ns, v.own_ref ref ms there);
    refs_bounded =
        λ r ns e. ground (arith, find-changed r, v.refs_bounded r ns, v.refs_bounded ref ms there);
    ascending = λ r ns e. ground (arith, find-changed r, v.ascending r ns);
    exact = λ n w r. unfold series_carries in ground (arith, find-changed r, v.exact n w r, there);
    chained = record {
      sound = λ k x i.
          let (ns, e, p, q) = v.chained.sound k x i in
          elim (Bool-cases (ref == x.ref)) [
            | inl f ↦
                let it : ns ≡ ms = ground (arith, e, there, (==_iff ref x.ref).0 f) in
                (changed, ground (arith, find-changed x.ref), ground (arith, it, p), q)
            | inr f ↦ (ns, ground (arith, find-changed x.ref, e), p, q)
          ];
      complete = λ r ns e. elim (Bool-cases (ref == r)) [
        | inl f ↦
            let it : ns ≡ changed = ground (arith, find-changed r) in
            rw (it, ← (==_iff ref r).0 f) (v.chained.complete ref ms there)
        | inr f ↦ v.chained.complete r ns (ground (arith, find-changed r))
      ];
      unique = v.chained.unique;
    };
  }

pub append_sample-IsHead :
    (ref : ℕ) (t : ℤ) (x : ℕ) (h : Head) → IsHead h → IsHead (append_sample ref t x h)
unfolding append_sample
append_sample-IsHead ref t x h v = elim (Option-cases (find ref h.series)) [
  | inl e ↦ rw (e, append_sample) v
  | inr (ms, e) ↦
      rw (e, append_sample)
        (change-IsHead ref ms (append_to t x ms.samples) h v e
          (append_to_values t x ms.samples (v.ascending ref ms e)).0)
]

module _ (ref : ℕ) (ms : MemSeries) (h : Head) (v : IsHead h)
    (there : find ref h.series ≡ some ms) where
  find-removed :
      (r : ℕ)
      → find r (remove_series ref ms h).series ≡ (if ref == r then none else find r h.series)
  unfolding remove_series
  find-removed r = find-delete ref r h.series

  pub remove-IsHead : IsHead (remove_series ref ms h)
  unfolding remove_series
  remove-IsHead = record {
    table = delete-IsTable ref h.series v.table;
    own_ref = λ r ns e. ground (arith, find-removed r, v.own_ref r ns);
    refs_bounded = λ r ns e. ground (arith, find-removed r, v.refs_bounded r ns);
    ascending = λ r ns e. ground (arith, find-removed r, v.ascending r ns);
    exact = λ n w r.
        unfold series_carries in
        ground (
          arith,
          posted-remove n w r ref h.postings ms.labels,
          find-removed r,
          v.exact n w r,
          there,
        );
    chained = rw (v.own_ref ref ms there) (delete-IsChained ref ms h v.chained there);
  }

-- Reclaiming a reference keeps the head's invariant.
pub reclaim_if_empty-IsHead : (ref : ℕ) (h : Head) → IsHead h → IsHead (reclaim_if_empty ref h)
unfolding reclaim_if_empty
reclaim_if_empty-IsHead ref h v = elim (Option-cases (find ref h.series)) [
  | inl e ↦ rw (e, reclaim_if_empty) v
  | inr (ms, e) ↦
      rw (e, reclaim_if_empty)
        (elim (Bool-cases (is_empty ms.samples)) [
          | inl f ↦ rw f (remove-IsHead ref ms h v e)
          | inr f ↦ rw f v
        ])
]
