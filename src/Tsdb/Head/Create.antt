-- ===== src/Tsdb/Head/Create.antt =====
-- How series enter the head (internal/tsdb/head.go): `getOrCreateLimited`, `acquire` and
-- `addSeriesWithRef`.
use omni_metrics.Prelude.{
  ℕ, ◌+◌, ◌^◌, ◌≤◌, ◌<◌, [], Bool, true, false, ◌&&◌, Option, none, some, ◌≡◌, ◌≢◌, refl, arith,
  Bool-cases, Option-cases, inl, inr, ◌⊎◌, length, ◌==◌, ltb, leb, if◌then◌else◌,
}
use omni_metrics.Prelude.Table.{find, put, nat_eq, find-put, delete_absent}
use omni_metrics.Model.Labels.{Labels, hash}
use omni_metrics.Tsdb.Head.{
  Head, MemSeries, or_nil, insert_series, find_link, create_series, get_or_create_limited, u64,
}
use omni_metrics.Tsdb.Head.Chains.{chain, find_link-some, find_link-none}
use omni_metrics.Tsdb.Head.Invariant.{IsHead, insert-IsHead}

-- No series of the head has the labels.
abbrev pub IsAbsent : Labels → Head → Type 0
IsAbsent l h = (r : ℕ) (ms : MemSeries) → find r h.series ≡ some ms → ms.labels ≢ l

-- What a call that looks for a label set, and makes the series where it may, has done.
pub data Created (l : Labels) (limit : ℕ) (h : Head) : Option (ℕ × Bool) → Head → Type 0 where
  found :
      (r : ℕ) (ms : MemSeries)
      → find r h.series ≡ some ms
      → ms.labels ≡ l
      → Created l limit h (some (r, false)) h
  made :
      (h' : Head)
      → IsAbsent l h
      → (limit ≡ 0) ⊎ (length h.series < limit)
      → find (h.last_ref + 1) h.series ≡ none
      → h'.last_ref ≡ h.last_ref + 1
      → ((r : ℕ)
          → find r h'.series ≡ (
              if h.last_ref + 1 == r
              then some (record { ref = h.last_ref + 1; labels = l; samples = [] })
              else find r h.series))
      → length h'.series ≡ length h.series + 1
      → Created l limit h (some (h.last_ref + 1, true)) h'
  refused : IsAbsent l h → 0 < limit → limit ≤ length h.series → Created l limit h none h

module _ (l : Labels) (limit : ℕ) (h : Head) (v : IsHead h) (room : h.last_ref + 1 < 2 ^ 64) where
  free : find (h.last_ref + 1) h.series ≡ none
  free = elim (Option-cases (find (h.last_ref + 1) h.series)) [
    | inl e ↦ e
    | inr (ms, e) ↦ absurd (omega (arith, v.refs_bounded (h.last_ref + 1) ms e))
  ]

  absent : find_link l (or_nil (find (hash l) h.hashes)) ≡ none → IsAbsent l h
  absent e r ms there same =
      find_link-none l (chain (hash l) h.hashes) r e (rw same at (v.chained.complete r ms there))

  next_ref : u64 (h.last_ref + 1) ≡ h.last_ref + 1
  next_ref = omega arith

  abbrev after : Head
  after = insert_series (h.last_ref + 1) l (hash l) (record h { last_ref = h.last_ref + 1 })

  after-IsHead : IsHead after
  unfolding insert_series
  after-IsHead =
      insert-IsHead (h.last_ref + 1) (h.last_ref + 1) l h v free (omega arith) (omega arith)

  after-made :
      IsAbsent l h
      → (limit ≡ 0) ⊎ (length h.series < limit)
      → Created l limit h (some (h.last_ref + 1, true)) after
  unfolding insert_series put
  after-made a b =
      made after a b free refl (λ r. find-put (h.last_ref + 1) r _ h.series)
        (rw (delete_absent (h.last_ref + 1) h.series free) (omega arith))

  -- Every branch of `getOrCreateLimited`, while references do not wrap: it finds the series of the
  -- labels and changes nothing; or no series has them, there is room under the limit, and the
  -- series is made under the next reference with every other one left as it was; or no series has
  -- them, the limit is reached, and nothing changes. The invariant holds after it.
  pub get_or_create_limited_lem :
      IsHead (get_or_create_limited l limit h).1
      × Created l limit h (get_or_create_limited l limit h).0 (get_or_create_limited l limit h).1
  unfolding get_or_create_limited create_series
  get_or_create_limited_lem = elim (Option-cases (find_link l (or_nil (find (hash l) h.hashes)))) [
    | inr (r, e) ↦
        let (ms, there, same, _) =
          v.chained.sound (hash l) _ (find_link-some l (chain (hash l) h.hashes) r e) in
        rw (e, get_or_create_limited) (v, found r ms there same)
    | inl e ↦
        rw (e, get_or_create_limited)
          (elim (Bool-cases (ltb 0 limit && leb limit (length h.series))) [
            | inl f ↦ rw (f, create_series) (v, refused (absent e) (ground arith) (ground arith))
            | inr f ↦
                rw (f, create_series)
                  (rw next_ref (after-IsHead, after-made (absent e) (ground arith)))
          ])
  ]
