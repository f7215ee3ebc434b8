-- ===== src/Alerts/Rule/Changes.antt =====
-- internal/alerts/evaluator/evaluator.go: what holds of the outcome of EvaluateRule.
use omni_metrics.Prelude.{
  ℕ, suc, List, [], ◌∷◌, ◌++◌, Bool, true, false, Str, ◌≡◌, ◌≢◌, refl, sym, ap, ◌∙◌, All, length,
  leb, Option-cases, Bool-cases, inl, inr, if◌then◌else◌,
}
use omni_metrics.Prelude.Int.{ℤ, pos, leb_ℤ}
use omni_metrics.Prelude.Int64.{mul_int64}
use omni_metrics.Prelude.Table.{Table, find, string_eq}
use omni_metrics.Alerts.State.{
  State, state_ok, state_pending, state_firing, state_resolved, next, sub_time,
}
use omni_metrics.Alerts.Fingerprint.{sorted_keys}
use omni_metrics.Alerts.Rule.{
  Rule, RuleInstance, RuleSample, Change, Evaluation, Store, Progress, going, stopped, Queried,
  answered, query_failed, evaluate_rule, tick, tick_all, advance_instance, resolve_one, resolve_all,
  add_change, count_state, then_tick, new_instance, both_loops, concluded, index_samples,
  index_instances, for_d, no_evaluation,
}

-- A change of state, by a rule that holds off for `d`, is to another state. It is to firing, and not
-- from pending, only where `d` is not positive, and to pending only where it is.
abbrev pub Moves : ℤ → State → State → Type 0
Moves d prev new =
    (prev ≢ new)
    × (new ≡ state_firing → prev ≢ state_pending → leb_ℤ d (pos 0) ≡ true)
    × (new ≡ state_pending → leb_ℤ d (pos 0) ≡ false)

next-Moves :
    (prev : State) (present : Bool) (active_at now d : ℤ)
    → (next prev present active_at now d).1 ≡ true
    → Moves d prev (next prev present active_at now d).0
unfolding next
next-Moves state_pending false a now d h = (λ e. absurd (cc), λ e. absurd (cc), λ e. absurd (cc))
next-Moves state_firing false a now d h = (λ e. absurd (cc), λ e. absurd (cc), λ e. absurd (cc))
next-Moves state_ok false a now d h = absurd (cc)
next-Moves state_resolved false a now d h = absurd (cc)
next-Moves state_firing true a now d h = absurd (cc)
next-Moves state_pending true a now d h = elim (Bool-cases (leb_ℤ d (sub_time now a))) [
  | inl p ↦ rw p (λ e. absurd (cc), λ e n. absurd (n refl), λ e. absurd (cc))
  | inr p ↦ absurd (let g = rw p at h in cc)
]
next-Moves state_ok true a now d h = elim (Bool-cases (leb_ℤ d (pos 0))) [
  | inl p ↦ rw p (λ e. absurd (cc), λ e n. refl, λ e. absurd (cc))
  | inr p ↦ rw p (λ e. absurd (cc), λ e n. absurd (cc), λ e. refl)
]
next-Moves state_resolved true a now d h = elim (Bool-cases (leb_ℤ d (pos 0))) [
  | inl p ↦ rw p (λ e. absurd (cc), λ e n. refl, λ e. absurd (cc))
  | inr p ↦ rw p (λ e. absurd (cc), λ e n. absurd (cc), λ e. refl)
]

-- The number of transitions is the length of the list of changes, and each is a move.
abbrev pub IsCounted : ℤ → Evaluation → Type 0
IsCounted d out =
    (out.transitions ≡ length out.changes) × All (λ c. Moves d c.prev c.new) out.changes

All-append_one :
    (d : ℤ) (cs : List Change) (c : Change)
    → All (λ c. Moves d c.prev c.new) cs
    → Moves d c.prev c.new
    → All (λ c. Moves d c.prev c.new) (cs ++ (c ∷ []))
All-append_one d [] c h m = (m, tt)
All-append_one d (x ∷ xs) c (h, hs) m = (h, All-append_one d xs c hs m)

length-append_one : (cs : List Change) (c : Change) → length (cs ++ (c ∷ [])) ≡ suc (length cs)
length-append_one [] c = refl
length-append_one (x ∷ xs) c = ap suc (length-append_one xs c)

-- The pause of a rule before it fires: `time.Duration(rule.ForS) * time.Second`, which wraps.
abbrev pub pause : Rule → ℤ
pause rule = mul_int64 rule.for_s (pos 1000000000)

module _ {S : Type 0} (store : Store S) (fresh : Str → Str) (max_instances : ℕ) (now : ℤ)
    (rule : Rule) where
  add_change-IsCounted :
      (changed : Bool) (c : Change) (out : Evaluation)
      → (changed ≡ true → Moves (pause rule) c.prev c.new)
      → IsCounted (pause rule) out
      → IsCounted (pause rule) (add_change store fresh max_instances now rule changed c out)
  add_change-IsCounted false c out m h = h
  add_change-IsCounted true c out m (n, a) = (
    ap suc n ∙ sym (length-append_one out.changes c),
    All-append_one (pause rule) out.changes c a (m refl),
  )

  count_state-IsCounted :
      (st : State) (out : Evaluation)
      → IsCounted (pause rule) out
      → IsCounted (pause rule) (count_state store fresh max_instances now rule st out)
  count_state-IsCounted state_firing out h = h
  count_state-IsCounted state_pending out h = h
  count_state-IsCounted state_ok out h = h
  count_state-IsCounted state_resolved out h = h

  -- Progress keeps the count.
  abbrev Fine : Progress S → Type 0
  Fine (going s tracked out) = IsCounted (pause rule) out
  Fine (stopped s) = Unit

  then_tick-Fine :
      (k : S → ℕ → Evaluation → Progress S) (p : Progress S)
      → Fine p
      → ((s : S) (t : ℕ) (out : Evaluation) → IsCounted (pause rule) out → Fine (k s t out))
      → Fine (then_tick store fresh max_instances now rule k p)
  then_tick-Fine k (going s t out) h hk = hk s t out h
  then_tick-Fine k (stopped s) h hk = tt

  written-Fine :
      (ok : Bool) (s s' : S) (t : ℕ) (out : Evaluation)
      → IsCounted (pause rule) out
      → Fine (if ok then going s t out else stopped s')
  written-Fine true s s' t out h = h
  written-Fine false s s' t out h = tt

  advance_instance-Fine :
      (s : S) (t : ℕ) (out : Evaluation) (fp : Str) (sample : RuleSample) (cur : RuleInstance)
      → IsCounted (pause rule) out
      → Fine (advance_instance store fresh max_instances now rule s t out fp sample cur)
  unfolding advance_instance for_d
  advance_instance-Fine s t out fp sample cur h = written-Fine _ _ _ t _ (
      count_state-IsCounted _ _
        (add_change-IsCounted _ _ out (next-Moves cur.state true cur.active_at now (pause rule)) h))

  tick-Fine :
      (by_fp : Table Str RuleInstance) (s : S) (t : ℕ) (out : Evaluation) (fp : Str)
      (sample : RuleSample)
      → IsCounted (pause rule) out
      → Fine (tick store fresh max_instances now rule by_fp s t out fp sample)
  unfolding tick
  tick-Fine by_fp s t out fp sample h = elim (Option-cases (find fp by_fp)) [
    | inr (cur, e) ↦ rw (e, Fine, tick) (advance_instance-Fine s t out fp sample cur h)
    | inl e ↦ elim (Bool-cases (leb max_instances t)) [
      | inl p ↦ rw (e, Fine, tick) (rw (p, Fine) h)
      | inr p ↦
          rw (e, Fine, tick)
            (rw (p, Fine)
              (advance_instance-Fine s (suc t) out fp sample
                (new_instance store fresh max_instances now rule fp) h))
    ]
  ]

  tick_all-Fine :
      (by_fp : Table Str RuleInstance) (present : Table Str RuleSample) (fps : List Str) (s : S)
      (t : ℕ) (out : Evaluation)
      → IsCounted (pause rule) out
      → Fine (tick_all store fresh max_instances now rule by_fp present fps s t out)
  unfolding tick_all
  tick_all-Fine by_fp present [] s t out h = h
  tick_all-Fine by_fp present (fp ∷ fps) s t out h = elim (Option-cases (find fp present)) [
    | inl e ↦ rw (e, Fine, tick_all) (tick_all-Fine by_fp present fps s t out h)
    | inr (sample, e) ↦
        rw (e, Fine, tick_all)
          (then_tick-Fine _ _ (tick-Fine by_fp s t out fp sample h)
            (tick_all-Fine by_fp present fps))
  ]

  resolve_one-Fine :
      (s : S) (t : ℕ) (out : Evaluation) (i : RuleInstance)
      → IsCounted (pause rule) out
      → Fine (resolve_one store fresh max_instances now rule s t out i)
  unfolding resolve_one for_d
  resolve_one-Fine s t out i h =
      written-Fine _ _ _ t _
        (add_change-IsCounted _ _ out (next-Moves i.state false i.active_at now (pause rule)) h)

  resolve_all-Fine :
      (present : Table Str RuleSample) (is : List RuleInstance) (s : S) (t : ℕ) (out : Evaluation)
      → IsCounted (pause rule) out
      → Fine (resolve_all store fresh max_instances now rule present is s t out)
  unfolding resolve_all
  resolve_all-Fine present [] s t out h = h
  resolve_all-Fine present (i ∷ is) s t out h = elim (Option-cases (find i.fingerprint present)) [
    | inr (sample, e) ↦ rw (e, Fine, resolve_all) (resolve_all-Fine present is s t out h)
    | inl e ↦
        rw (e, Fine, resolve_all)
          (then_tick-Fine _ _ (resolve_one-Fine s t out i h) (resolve_all-Fine present is))
  ]

  concluded-IsCounted :
      (p : Progress S)
      → Fine p
      → IsCounted (pause rule) (concluded store fresh max_instances now rule p).1
  concluded-IsCounted (going s t out) h = h
  concluded-IsCounted (stopped s) h = (refl, tt)

  both_loops-Fine :
      (existing : List RuleInstance) (present : Table Str RuleSample) (s : S)
      → Fine (both_loops store fresh max_instances now rule existing present s)
  both_loops-Fine existing present s =
      then_tick-Fine _ _
        (tick_all-Fine (index_instances existing []) present (sorted_keys present) s
          (length existing) no_evaluation (refl, tt))
        (resolve_all-Fine present existing)

  -- Whatever the store answers, the outcome of a rule's evaluation counts as many transitions as it
  -- lists. Each of them is to another state; it is to firing, and not from pending, only where the
  -- rule's pause, seconds as int64 nanoseconds that wrap, is not positive; and it is to pending
  -- only where the pause is positive.
  pub evaluate_rule-IsCounted :
      (q : Queried) (s : S)
      → IsCounted (pause rule) (evaluate_rule store fresh max_instances now rule q s).1
  unfolding evaluate_rule
  evaluate_rule-IsCounted (query_failed reason) s = (refl, tt)
  evaluate_rule-IsCounted (answered samples) s =
      elim (Option-cases (store.list_instances s rule.id)) [
        | inl e ↦ rw (e, evaluate_rule) (refl, tt)
        | inr (existing, e) ↦
            rw (e, evaluate_rule)
              (concluded-IsCounted _ (both_loops-Fine existing (index_samples samples []) s))
      ]
