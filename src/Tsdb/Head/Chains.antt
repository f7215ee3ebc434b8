-- ===== src/Tsdb/Head/Chains.antt =====
-- The collision chains of internal/tsdb/head.go: each chain of a hash holds one link for each
-- series whose labels have that hash.
use omni_metrics.Prelude.{
  ℕ, List, [], ◌∷◌, ◌++◌, false, none, some, ◌≡◌, ◌≢◌, refl, ap, ◌∙◌, sym, arith, All, All-append,
  Bool-cases, inl, inr, ◌==◌, if◌then◌else◌, In, In-append, In-append_left, In-append_right, ==_iff,
}
use mathlib.Core.Path.{subst}
use omni_metrics.Prelude.Table.{Table, find, put, delete, nat_eq, find-put, find-delete}
use omni_metrics.Model.Labels.{Labels, hash, equal}
use omni_metrics.Model.Labels.Lookup.{equal_iff}
use omni_metrics.Tsdb.Head.{Head, MemSeries, Link, or_nil, find_link}
use omni_metrics.Tsdb.Head.Removal.{unlink, put_or_delete}
use omni_metrics.Tsdb.Head.Index.{find-put_or_delete}

abbrev pub chain : ℕ → Table ℕ (List Link) → List Link
chain k t = or_nil (find k t)

-- A series that a link stands for.
abbrev pub Linked : ℕ → Link → Table ℕ MemSeries → Type 0
Linked k x series =
    (ms : MemSeries) × (find x.ref series ≡ some ms) × (ms.labels ≡ x.labels) × (hash x.labels ≡ k)

abbrev pub UniqueRefs : List Link → Type 0
UniqueRefs [] = Unit
UniqueRefs (x ∷ xs) = All (λ (y : Link). y.ref ≢ x.ref) xs × UniqueRefs xs

pub record IsChained (series : Table ℕ MemSeries) (hashes : Table ℕ (List Link)) : Type 0 where
  pub sound : (k : ℕ) (x : Link) → In x (chain k hashes) → Linked k x series
  pub complete :
      (r : ℕ) (ms : MemSeries)
      → find r series ≡ some ms
      → In (record { ref = r; labels = ms.labels }) (chain (hash ms.labels) hashes)
  pub unique : (k : ℕ) → UniqueRefs (chain k hashes)

chain-put :
    (k j : ℕ) (xs : List Link) (t : Table ℕ (List Link))
    → chain j (put k xs t) ≡ (if k == j then xs else chain j t)
chain-put k j xs t = ground (arith, find-put k j xs t)

UniqueRefs-append :
    (xs : List Link) (x : Link)
    → UniqueRefs xs
    → ((y : Link) → In y xs → y.ref ≢ x.ref)
    → UniqueRefs (xs ++ (x ∷ []))
UniqueRefs-append [] x h k = (tt, tt)
UniqueRefs-append (y ∷ xs) x (a, h) k = (
  All-append (λ (z : Link). z.ref ≢ y.ref) xs (x ∷ []) a ((λ e. k y (inl refl) (sym e)), tt),
  UniqueRefs-append xs x h (λ z i. k z (inr i)),
)

module _ (ref : ℕ) (l : Labels) (h : Head) (c : IsChained h.series h.hashes)
    (free : find ref h.series ≡ none) where
  abbrev added : Link
  added = record { ref = ref; labels = l }

  abbrev fresh : MemSeries
  fresh = record { ref = ref; labels = l; samples = [] }

  abbrev series' : Table ℕ MemSeries
  series' = put ref fresh h.series

  abbrev hashes' : Table ℕ (List Link)
  hashes' = put (hash l) (chain (hash l) h.hashes ++ (added ∷ [])) h.hashes

  kept_link : (k : ℕ) (x : Link) → Linked k x h.series → Linked k x series'
  kept_link k x (ms, e, p, q) =
      (ms, ground (arith, find-put ref x.ref fresh h.series, free, e), p, q)

  added_link : Linked (hash l) added series'
  added_link = (fresh, ground (arith, find-put ref ref fresh h.series), refl, refl)

  put_sound : (k : ℕ) (x : Link) → In x (chain k hashes') → Linked k x series'
  put_sound k x i = elim (Bool-cases (hash l == k)) [
    | inl e ↦
        let same = (==_iff (hash l) k).0 e in
        let j =
          rw (chain-put (hash l) k (chain (hash l) h.hashes ++ (added ∷ [])) h.hashes, e) at i in
        elim (In-append x (chain (hash l) h.hashes) (added ∷ []) j) [
          | inl old ↦ kept_link k x (c.sound k x (rw same at old))
          | inr (inl p) ↦ rw (p, ← same) added_link
          | inr (inr p) ↦ absurd p
        ]
    | inr e ↦ kept_link k x (
        c.sound k x
          (rw (chain-put (hash l) k (chain (hash l) h.hashes ++ (added ∷ [])) h.hashes, e) at i))
  ]

  put_complete :
      (r : ℕ) (ms : MemSeries)
      → find r series' ≡ some ms
      → In (record { ref = r; labels = ms.labels }) (chain (hash ms.labels) hashes')
  put_complete r ms e = elim (Bool-cases (ref == r)) [
    | inl f ↦
        let same = (==_iff ref r).0 f in
        let it : fresh ≡ ms = ground (arith, find-put ref r fresh h.series) in
        rw (← it, ← same)
          (rw (chain-put (hash l) (hash l) (chain (hash l) h.hashes ++ (added ∷ [])) h.hashes) (
            rw ((==_iff (hash l) (hash l)).1 refl)
              (In-append_right added (chain (hash l) h.hashes) (added ∷ []) (inl refl))))
    | inr f ↦
        let old = c.complete r ms (ground (arith, find-put ref r fresh h.series)) in
        rw (chain-put (hash l) (hash ms.labels) (chain (hash l) h.hashes ++ (added ∷ [])) h.hashes)
          (elim (Bool-cases (hash l == hash ms.labels)) [
            | inl g ↦ rw g (In-append_left _ _ (added ∷ []) (rw ((==_iff _ _).0 g) old))
            | inr g ↦ rw g old
          ])
  ]

  put_unique : (k : ℕ) → UniqueRefs (chain k hashes')
  put_unique k =
      rw (chain-put (hash l) k (chain (hash l) h.hashes ++ (added ∷ [])) h.hashes)
        (elim (Bool-cases (hash l == k)) [
          | inl g ↦ rw g (
              UniqueRefs-append (chain (hash l) h.hashes) added (c.unique (hash l)) (λ y i p.
                let (ms, e, _, _) = c.sound (hash l) y i in
                cc (ap (λ (q : ℕ). find q h.series) p, e, free)))
          | inr g ↦ rw g (c.unique k)
        ])

  -- A new series keeps the chains in step with the series.
  pub put-IsChained : IsChained series' hashes'
  put-IsChained = record { sound = put_sound; complete = put_complete; unique = put_unique }

In-unlink : (ref : ℕ) (x : Link) (xs : List Link) → In x (unlink ref xs) → In x xs
unfolding unlink
In-unlink ref x [] i = i
In-unlink ref x (y ∷ xs) i = elim (Bool-cases (y.ref == ref)) [
  | inl e ↦ inr (rw (unlink, e) at i)
  | inr e ↦ elim (rw (unlink, e) at i) as (λ q. In x (y ∷ xs)) [
    | inl p ↦ inl p
    | inr j ↦ inr (In-unlink ref x xs j)
  ]
]

All-In {κ} : (P : Link → Type κ) (x : Link) (xs : List Link) → All P xs → In x xs → P x
All-In P x [] h i = absurd i
All-In P x (y ∷ xs) (h, hs) (inl e) = subst P (sym e) h
All-In P x (y ∷ xs) (h, hs) (inr i) = All-In P x xs hs i

unlink-ne :
    (ref : ℕ) (x : Link) (xs : List Link) → UniqueRefs xs → In x (unlink ref xs) → x.ref ≢ ref
unfolding unlink
unlink-ne ref x [] u i = absurd i
unlink-ne ref x (y ∷ xs) (a, u) i = elim (Bool-cases (y.ref == ref)) [
  | inl e ↦
      let differs = All-In (λ (z : Link). z.ref ≢ y.ref) x xs a (rw (unlink, e) at i) in
      rw (← (==_iff y.ref ref).0 e) differs
  | inr e ↦ elim (rw (unlink, e) at i) as (λ q. x.ref ≢ ref) [
    | inl p ↦ rw p (λ q. ground arith)
    | inr j ↦ unlink-ne ref x xs u j
  ]
]

unlink_keeps : (ref : ℕ) (x : Link) (xs : List Link) → In x xs → x.ref ≢ ref → In x (unlink ref xs)
unfolding unlink
unlink_keeps ref x [] i h = i
unlink_keeps ref x (y ∷ xs) (inl p) h = elim (Bool-cases (y.ref == ref)) [
  | inl e ↦ absurd (h (ap (λ (q : Link). q.ref) p ∙ (==_iff y.ref ref).0 e))
  | inr e ↦ rw (e, unlink) (inl p)
]
unlink_keeps ref x (y ∷ xs) (inr i) h = elim (Bool-cases (y.ref == ref)) [
  | inl e ↦ rw (e, unlink) i
  | inr e ↦ rw (e, unlink) (inr (unlink_keeps ref x xs i h))
]

All-unlink :
    (n ref : ℕ) (xs : List Link)
    → All (λ (y : Link). y.ref ≢ n) xs
    → All (λ (y : Link). y.ref ≢ n) (unlink ref xs)
unfolding unlink
All-unlink n ref [] h = tt
All-unlink n ref (y ∷ xs) (h, hs) = elim (Bool-cases (y.ref == ref)) [
  | inl e ↦ rw (e, unlink) hs
  | inr e ↦ rw (e, unlink) (h, All-unlink n ref xs hs)
]

UniqueRefs-unlink : (ref : ℕ) (xs : List Link) → UniqueRefs xs → UniqueRefs (unlink ref xs)
unfolding unlink
UniqueRefs-unlink ref [] u = tt
UniqueRefs-unlink ref (y ∷ xs) (a, u) = elim (Bool-cases (y.ref == ref)) [
  | inl e ↦ rw (e, unlink) u
  | inr e ↦ rw (e, unlink) (All-unlink y.ref ref xs a, UniqueRefs-unlink ref xs u)
]

module _ (ref : ℕ) (ms : MemSeries) (h : Head) (c : IsChained h.series h.hashes)
    (there : find ref h.series ≡ some ms) where
  abbrev left : Table ℕ (List Link)
  left = put_or_delete (hash ms.labels) (unlink ref (chain (hash ms.labels) h.hashes)) h.hashes

  chain-left :
      (k : ℕ)
      → chain k left ≡ (
          if hash ms.labels == k
          then unlink ref (chain (hash ms.labels) h.hashes)
          else chain k h.hashes)
  chain-left k = find-put_or_delete (hash ms.labels) k _ h.hashes

  -- A link of another chain is no link of the removed series.
  other_chain :
      (k : ℕ) (x : Link) → (hash ms.labels == k) ≡ false → Linked k x h.series → x.ref ≢ ref
  other_chain k x e (ns, f, p, q) r =
      let it : ns ≡ ms = ground (arith, ap (λ (n : ℕ). find n h.series) r) in
      ground (arith, ap (λ (m : MemSeries). hash m.labels) it, ap hash p)

  still-Linked :
      (k : ℕ) (x : Link) → x.ref ≢ ref → Linked k x h.series → Linked k x (delete ref h.series)
  still-Linked k x n (ns, f, p, q) = (ns, ground (arith, find-delete ref x.ref h.series, f), p, q)

  delete_sound : (k : ℕ) (x : Link) → In x (chain k left) → Linked k x (delete ref h.series)
  delete_sound k x i = elim (Bool-cases (hash ms.labels == k)) [
    | inl e ↦
        let same = (==_iff (hash ms.labels) k).0 e in
        let j = rw (chain-left k, e) at i in
        still-Linked k x (unlink-ne ref x _ (c.unique (hash ms.labels)) j)
          (c.sound k x (rw same at (In-unlink ref x _ j)))
    | inr e ↦
        let linked = c.sound k x (rw (chain-left k, e) at i) in
        still-Linked k x (other_chain k x e linked) linked
  ]

  delete_complete :
      (r : ℕ) (ns : MemSeries)
      → find r (delete ref h.series) ≡ some ns
      → In (record { ref = r; labels = ns.labels }) (chain (hash ns.labels) left)
  delete_complete r ns e =
      let ne : r ≢ ref = λ p. ground (arith, find-delete ref r h.series) in
      let old = c.complete r ns (ground (arith, find-delete ref r h.series)) in
      rw (chain-left (hash ns.labels)) (elim (Bool-cases (hash ms.labels == hash ns.labels)) [
        | inl g ↦ rw g (unlink_keeps ref _ _ (rw ((==_iff _ _).0 g) old) ne)
        | inr g ↦ rw g old
      ])

  delete_unique : (k : ℕ) → UniqueRefs (chain k left)
  delete_unique k = rw (chain-left k) (elim (Bool-cases (hash ms.labels == k)) [
    | inl g ↦ rw g (UniqueRefs-unlink ref _ (c.unique (hash ms.labels)))
    | inr g ↦ rw g (c.unique k)
  ])

  -- Removing a series keeps the chains in step with the series.
  pub delete-IsChained : IsChained (delete ref h.series) left
  delete-IsChained = record {
    sound = delete_sound;
    complete = delete_complete;
    unique = delete_unique;
  }

-- The search of a chain finds the series with the given labels, if there is one.
pub find_link-some :
    (l : Labels) (xs : List Link) (r : ℕ)
    → find_link l xs ≡ some r
    → In (record { ref = r; labels = l }) xs
unfolding find_link
find_link-some l [] r e = absurd (cc)
find_link-some l (x ∷ xs) r e = elim (Bool-cases (equal x.labels l)) [
  | inl f ↦ inl (ground (arith, (equal_iff x.labels l).0 f))
  | inr f ↦ inr (find_link-some l xs r (ground arith))
]

pub find_link-none :
    (l : Labels) (xs : List Link) (r : ℕ)
    → find_link l xs ≡ none
    → ¬ In (record { ref = r; labels = l }) xs
unfolding find_link
find_link-none l [] r e i = i
find_link-none l (x ∷ xs) r e (inl p) =
    ground (arith, (equal_iff x.labels l).1 (ap (λ (q : Link). q.labels) (sym p)))
find_link-none l (x ∷ xs) r e (inr i) = find_link-none l xs r (ground arith) i
