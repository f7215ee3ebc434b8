-- ===== src/Promql/Aggregate/Values.antt =====
-- internal/promql/funcs.go: the values of an aggregation's groups.
use omni_metrics.Prelude.{
  ℕ, List, [], ◌∷◌, Bool, Option, none, some, Str, str_eq, ◌≡◌, ◌≢◌, refl, sym, ap, ◌∙◌, Bool-cases,
  inl, inr, In, ◌↔◌, if◌then◌else◌,
}
use mathlib.Core.Path.{subst}
use omni_metrics.Prelude.Int.{ℤ}
use omni_metrics.Model.Labels.{Label, Labels, to_string}
use omni_metrics.Promql.Value.{VectorSample, Vector, Runtime, ok}
use omni_metrics.Promql.Signature.{Group, group_by, group_labels}
use omni_metrics.Promql.Aggregate.{reduce_groups, aggregate, grouped}
use omni_metrics.Promql.Aggregate.Reduced.{
  Aggregator, agg_sum, agg_avg, agg_min, agg_max, agg_count, agg_group, agg_stddev, agg_stdvar,
  name_of, IsStrict, Reduces, IsReducer, reduce-Reduces,
}
use omni_metrics.Promql.Aggregate.Kept.{Kept, group_labels-Kept}
use omni_metrics.Promql.Aggregate.Groups.{
  members_of, IsGroups, IsDistinct, picked, group_by-IsGroups, group_by-members,
}

-- The value of the first sample whose label set has a string.
unfoldable pub value_under : Str → Vector → Option ℕ
value_under k [] = none
value_under k (s ∷ ss) = if str_eq (to_string s.metric) k then some s.v else value_under k ss

module _ (f : Runtime) where
  abbrev TakesReduction : Str → Type 0
  TakesReduction op =
      (v : Vector) (grouping : List Str) (without : Bool) (ts : ℤ) (param : ℕ) (label : Str)
      → aggregate f op v grouping without ts param label
        ≡ reduce_groups f op param ts (grouped f grouping without (λ s. s.v) v)

  -- None of the eight takes the way of topk, bottomk or count_values.
  aggregate-reduce_groups : (a : Aggregator) → TakesReduction (name_of a)
  unfolding aggregate str_eq name_of
  aggregate-reduce_groups agg_sum v g w t p l = refl
  aggregate-reduce_groups agg_avg v g w t p l = refl
  aggregate-reduce_groups agg_min v g w t p l = refl
  aggregate-reduce_groups agg_max v g w t p l = refl
  aggregate-reduce_groups agg_count v g w t p l = refl
  aggregate-reduce_groups agg_group v g w t p l = refl
  aggregate-reduce_groups agg_stddev v g w t p l = refl
  aggregate-reduce_groups agg_stdvar v g w t p l = refl

  -- What a result says of a key whose samples have these values: nothing where there are none, and
  -- else a value that is right for them.
  unfoldable pub Answers : (List ℕ → ℕ → Type 0) → Str → Vector → List ℕ → Type 0
  Answers Right k out [] = value_under k out ≡ none
  Answers Right k out (x ∷ xs) = (v : ℕ) × Right (x ∷ xs) v × (value_under k out ≡ some v)

  Answers-skip :
      (Right : List ℕ → ℕ → Type 0) (k : Str) (out out' : Vector) (vals : List ℕ)
      → value_under k out' ≡ value_under k out
      → Answers Right k out vals
      → Answers Right k out' vals
  unfolding Answers
  Answers-skip Right k out out' [] e h = e ∙ h
  Answers-skip Right k out out' (x ∷ xs) e (v, r, h) = (v, r, e ∙ h)

  filled : (vals : List ℕ) → vals ≢ [] → (x : ℕ) × (xs : List ℕ) × (vals ≡ x ∷ xs)
  filled [] n = absurd (n refl)
  filled (x ∷ xs) n = (x, xs, refl)

  reduce_groups-Answers :
      (op : Str) (Right : List ℕ → ℕ → Type 0) (param : ℕ) (ts : ℤ) (gs : List (Group ℕ))
      → IsReducer f op Right
      → IsGroups gs
      → (out : Vector) × (reduce_groups f op param ts gs ≡ ok out)
        × ((k : Str) → Answers Right k out (members_of k gs))
  unfolding reduce_groups members_of Answers value_under IsDistinct
  reduce_groups-Answers op Right param ts [] r h = ([], refl, λ k. refl)
  reduce_groups-Answers op Right param ts (g ∷ gs) r ((m, d), (e, hk), (n, hf)) =
      let (x, xs, full) = filled g.members n in
      let (v, value, right) = r param x xs in
      let (out, rest, answers) = reduce_groups-Answers op Right param ts gs r (d, hk, hf) in
      let s : VectorSample = record { metric = g.labels; t = ts; v = v } in
      (
        s ∷ out,
        rw full (rw value (rw rest refl)),
        λ k. elim (Bool-cases (str_eq g.key k)) [
          | inl p ↦ rw p (rw full (v, right, rw (ap (λ q. str_eq q k) (sym e) ∙ p) refl))
          | inr p ↦ rw p (
              Answers-skip Right k out (s ∷ out) (members_of k gs)
                (rw (ap (λ q. str_eq q k) (sym e) ∙ p) refl) (answers k))
        ],
      )

  -- Where `<` of floats is irreflexive and transitive, an aggregation by sum, avg, min, max, count,
  -- group, stddev or stdvar returns. For each string of a label set its result has that set exactly
  -- if some sample's group has it, with the total of the values of that group's samples in their
  -- order, their mean, a least or a greatest of them, their number, 1, or the mean square of their
  -- distances from the mean or its root. The labels of a group are those of the sample with a name
  -- in the list, or `without` those with another name than these and than the metric's.
  pub aggregate-Answers :
      (a : Aggregator) (v : Vector) (grouping : List Str) (without : Bool) (ts : ℤ) (param : ℕ)
      (label : Str)
      → IsStrict f.lt
      → ((out : Vector) × (aggregate f (name_of a) v grouping without ts param label ≡ ok out)
          × ((k : Str)
              → Answers
                  (Reduces f a)
                  k
                  out
                  (picked (λ s. group_labels grouping without s.metric) (λ s. s.v) k v)))
        × ((ls : Labels) (l : Label)
            → In l (group_labels grouping without ls) ↔ Kept grouping without ls l)
  unfolding members_of IsDistinct
  aggregate-Answers a v grouping without ts param label strict =
      let labels = λ (s : VectorSample). group_labels grouping without s.metric in
      let value = λ (s : VectorSample). s.v in
      let (out, e, answers) =
        reduce_groups-Answers (name_of a) (Reduces f a) param ts (group_by labels value [] v)
          (reduce-Reduces f a strict) (group_by-IsGroups labels value [] v (tt, tt, tt)) in
      (
        (
          out,
          aggregate-reduce_groups a v grouping without ts param label ∙ e,
          λ k.
              subst (λ vals. Answers (Reduces f a) k out vals)
                (group_by-members labels value k [] v) (answers k),
        ),
        group_labels-Kept grouping without,
      )
