-- ===== src/Tsdb/Head/Samples.antt =====
-- The samples of one series (internal/tsdb/head.go): `appendSample` keeps them strictly ascending
-- in time and never overwrites, and a query's slice is the samples of its range.
use omni_metrics.Prelude.{
  ℕ, List, [], ◌∷◌, ◌++◌, Option, none, some, ◌≡◌, refl, ap, ◌∙◌, arith, All, All-map, Bool-cases,
  Option-cases, inl, inr, if◌then◌else◌,
}
use omni_metrics.Prelude.Int.{ℤ, ltb_ℤ, eqb_ℤ, eqb_ℤ_iff, ◌<ℤ◌}
use omni_metrics.Tsdb.Head.{
  Sample, search, last?, at?, insert_at, has_time, insert_out_of_order, append_to,
}

abbrev pub Later : ℤ → List Sample → Type 0
Later t = All (λ (s : Sample). t <ℤ s.t)

abbrev pub IsAscending : List Sample → Type 0
IsAscending [] = Unit
IsAscending (s ∷ ss) = Later s.t ss × IsAscending ss

-- The reference: a walk to the place of `t`.
insert_sample : ℤ → ℕ → List Sample → List Sample
insert_sample t v [] = record { t = t; v = v } ∷ []
insert_sample t v (s ∷ ss) =
    if ltb_ℤ t s.t
    then record { t = t; v = v } ∷ s ∷ ss
    else if eqb_ℤ t s.t
    then s ∷ ss
    else s ∷ insert_sample t v ss

out_of_order_lem :
    (t : ℤ) (v : ℕ) (ss : List Sample) → insert_out_of_order t v ss ≡ insert_sample t v ss
unfolding insert_out_of_order search at? insert_at has_time insert_sample
out_of_order_lem t v [] = refl
out_of_order_lem t v (s ∷ ss) = ground (arith, out_of_order_lem t v ss)

insert_past :
    (t : ℤ) (v : ℕ) (s : Sample) (ss : List Sample)
    → s.t <ℤ t
    → insert_sample t v (s ∷ ss) ≡ s ∷ insert_sample t v ss
unfolding insert_sample
insert_past t v s ss h = ground arith

last?-Later :
    (u : ℤ) (s l : Sample) (ss : List Sample)
    → Later u (s ∷ ss)
    → last? (s ∷ ss) ≡ some l
    → u <ℤ l.t
unfolding last?
last?-Later u s l [] h e = ground arith
last?-Later u s l (r ∷ ss) (a, h) e = last?-Later u r l ss h e

insert_sample_later :
    (t : ℤ) (v : ℕ) (ss : List Sample) (l : Sample)
    → IsAscending ss
    → last? ss ≡ some l
    → l.t <ℤ t
    → insert_sample t v ss ≡ ss ++ (record { t = t; v = v } ∷ [])
unfolding insert_sample last?
insert_sample_later t v [] l h e k = cc
insert_sample_later t v (s ∷ []) l h e k = unfold insert_sample in ground arith
insert_sample_later t v (s ∷ r ∷ ss) l (a, h) e k =
    insert_past t v s (r ∷ ss) (omega (arith, last?-Later s.t r l ss a e))
    ∙ ap (λ q. s ∷ q) (insert_sample_later t v (r ∷ ss) l h e k)

insert_sample_last :
    (t : ℤ) (v : ℕ) (ss : List Sample) (l : Sample)
    → IsAscending ss
    → last? ss ≡ some l
    → t ≡ l.t
    → insert_sample t v ss ≡ ss
unfolding insert_sample last?
insert_sample_last t v [] l h e k = cc
insert_sample_last t v (s ∷ []) l h e k = unfold insert_sample in ground arith
insert_sample_last t v (s ∷ r ∷ ss) l (a, h) e k =
    insert_past t v s (r ∷ ss) (rw k (last?-Later s.t r l ss a e))
    ∙ ap (λ q. s ∷ q) (insert_sample_last t v (r ∷ ss) l h e k)

last?-none : (ss : List Sample) → last? ss ≡ none → ss ≡ []
unfolding last?
last?-none [] e = refl
last?-none (s ∷ []) e = cc
last?-none (s ∷ r ∷ ss) e = absurd (cc (last?-none (r ∷ ss) e))

-- On an ascending list the three paths of `appendSample` are one walk.
append_to_lem :
    (t : ℤ) (v : ℕ) (ss : List Sample) → IsAscending ss → append_to t v ss ≡ insert_sample t v ss
unfolding append_to
append_to_lem t v ss h = elim (Option-cases (last? ss)) [
  | inl e ↦ rw (e, append_to) (rw (last?-none ss e) (unfold insert_sample in refl))
  | inr (l, e) ↦
      rw (e, append_to)
        (ground (
          arith,
          insert_sample_later t v ss l h e,
          insert_sample_last t v ss l h e,
          eqb_ℤ_iff t l.t,
          out_of_order_lem t v ss,
        ))
]

Later-insert_sample :
    (u t : ℤ) (v : ℕ) (ss : List Sample) → u <ℤ t → Later u ss → Later u (insert_sample t v ss)
unfolding insert_sample
Later-insert_sample u t v [] h k = (h, tt)
Later-insert_sample u t v (s ∷ ss) h (k, ks) = ground (arith, Later-insert_sample u t v ss)

insert_sample-IsAscending :
    (t : ℤ) (v : ℕ) (ss : List Sample) → IsAscending ss → IsAscending (insert_sample t v ss)
unfolding insert_sample
insert_sample-IsAscending t v [] h = (tt, tt)
insert_sample-IsAscending t v (s ∷ ss) (k, h) = ground (
  arith,
  insert_sample-IsAscending t v ss h,
  Later-insert_sample s.t t v ss,
  All-map (λ (r : Sample). s.t <ℤ r.t) (λ (r : Sample). t <ℤ r.t) ss,
)

-- The value at a time, if the series has one.
pub value_at : ℤ → List Sample → Option ℕ
value_at u [] = none
value_at u (s ∷ ss) = if eqb_ℤ s.t u then some s.v else value_at u ss

abbrev pub or_else : Option ℕ → ℕ → ℕ
or_else none v = v
or_else (some w) v = w

value_at-Later : (u : ℤ) (ss : List Sample) → Later u ss → value_at u ss ≡ none
unfolding value_at
value_at-Later u [] h = refl
value_at-Later u (s ∷ ss) (h, hs) = ground (arith, value_at-Later u ss hs)

value_at-insert_sample :
    (u t : ℤ) (v : ℕ) (ss : List Sample)
    → IsAscending ss
    → value_at u (insert_sample t v ss)
      ≡ (if eqb_ℤ t u then some (or_else (value_at t ss) v) else value_at u ss)
unfolding value_at insert_sample
value_at-insert_sample u t v [] h = refl
value_at-insert_sample u t v (s ∷ ss) (k, h) = elim (Bool-cases (ltb_ℤ t s.t)) [
  | inl e ↦ rw e (
      ground (
        arith,
        value_at-Later t ss (
            All-map (λ (r : Sample). s.t <ℤ r.t) (λ (r : Sample). t <ℤ r.t) ss (λ x p. ground arith)
              k),
      ))
  | inr e ↦ rw e (ground (arith, value_at-insert_sample u t v ss h, eqb_ℤ_iff t s.t))
]

-- `appendSample` on an ascending list leaves it strictly ascending, so no time is there twice; the
-- first value of a time stays, and every other time reads as before.
pub append_to_values :
    (t : ℤ) (v : ℕ) (ss : List Sample)
    → IsAscending ss
    → IsAscending (append_to t v ss)
      × ((u : ℤ)
          → value_at u (append_to t v ss)
            ≡ (if eqb_ℤ t u then some (or_else (value_at t ss) v) else value_at u ss))
append_to_values t v ss h =
    rw (append_to_lem t v ss h)
      (insert_sample-IsAscending t v ss h, λ u. value_at-insert_sample u t v ss h)
