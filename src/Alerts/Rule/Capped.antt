-- ===== src/Alerts/Rule/Capped.antt =====
-- internal/alerts/evaluator/evaluator.go: the cap on a rule's instances.
use omni_metrics.Prelude.{
  ℕ, suc, ◌+◌, ◌≤◌, List, [], ◌∷◌, Bool, true, false, ◌||◌, Str, str_eq, ◌≡◌, ◌⊎◌, refl, sym, ◌∙◌,
  arith, length, leb, some, Option-cases, Bool-cases, inl, inr, if◌then◌else◌,
}
use omni_metrics.Prelude.Int.{ℤ}
use omni_metrics.Prelude.Table.{Table, find, put, find-put, string_eq}
use omni_metrics.Alerts.Fingerprint.{sorted_keys}
use omni_metrics.Alerts.Rule.{
  Rule, RuleInstance, RuleSample, Evaluation, HistoryEntry, Store, Progress, going, stopped, tick,
  tick_all, advance_instance, resolve_one, resolve_all, record_if, then_tick, new_instance,
  both_loops, index_instances, no_evaluation,
}

-- A store that keeps a log of the instances that were written to it, also of writes that failed.
abbrev pub logging : {S : Type 0} → Store S → Store (S × List RuleInstance)
logging store = record {
  list_instances = λ (s, log) id. store.list_instances s id;
  upsert_instance = λ (s, log) i. let (s', ok) = store.upsert_instance s i in ((s', i ∷ log), ok);
  delete_instance = λ (s, log) id. let (s', ok) = store.delete_instance s id in ((s', log), ok);
  append_history = λ (s, log) h. (store.append_history s h, log);
}

unfoldable pub has_fingerprint : List RuleInstance → Str → Bool
has_fingerprint [] fp = false
has_fingerprint (i ∷ is) fp = str_eq i.fingerprint fp || has_fingerprint is fp

-- How many of the instances in a log have no fingerprint that was there.
unfoldable pub added : List RuleInstance → List RuleInstance → ℕ
unfolding has_fingerprint
added existing [] = 0
added existing (i ∷ log) =
    let rest = added existing log in
    if has_fingerprint existing i.fingerprint then rest else suc rest

abbrev pub log_of : {S : Type 0} → Progress (S × List RuleInstance) → List RuleInstance
log_of (going s tracked out) = s.1
log_of (stopped s) = s.1

index_instances_sound :
    (fp : Str) (is : List RuleInstance) (m : Table Str RuleInstance) (cur : RuleInstance)
    → find fp (index_instances is m) ≡ some cur
    → (has_fingerprint is fp ≡ true) ⊎ (find fp m ≡ some cur)
unfolding index_instances has_fingerprint
index_instances_sound fp [] m cur h = inr h
index_instances_sound fp (i ∷ is) m cur h =
    elim (index_instances_sound fp is (put i.fingerprint i m) cur h) [
      | inl e ↦ inl (ground arith)
      | inr e ↦ elim (Bool-cases (str_eq i.fingerprint fp)) [
        | inl p ↦ inl (ground arith)
        | inr p ↦ inr (sym (rw p at (find-put i.fingerprint fp i m)) ∙ e)
      ]
    ]

module _ {S : Type 0} (store : Store S) (fresh : Str → Str) (max_instances : ℕ) (now : ℤ)
    (rule : Rule) (existing : List RuleInstance) (b : ℕ) where
  -- With what was there, the new instances are within the count of the cap, and that within a bound.
  unfoldable Capped : Progress (S × List RuleInstance) → Type 0
  Capped (going (s, log) tracked out) =
      (length existing + added existing log ≤ tracked) × (tracked ≤ b)
  Capped (stopped (s, log)) = length existing + added existing log ≤ b

  Capped-log :
      (p : Progress (S × List RuleInstance))
      → Capped p
      → length existing + added existing (log_of p) ≤ b
  unfolding Capped
  Capped-log (going (s, log) t out) (h, l) = omega arith
  Capped-log (stopped (s, log)) h = h

  then_tick-Capped :
      (k : S × List RuleInstance → ℕ → Evaluation → Progress (S × List RuleInstance))
      (p : Progress (S × List RuleInstance))
      → Capped p
      → ((s : S) (log : List RuleInstance) (t : ℕ) (out : Evaluation)
          → length existing + added existing log ≤ t
          → t ≤ b
          → Capped (k (s, log) t out))
      → Capped (then_tick (logging store) fresh max_instances now rule k p)
  unfolding Capped
  then_tick-Capped k (going (s, log) t out) (h, l) hk = hk s log t out h l
  then_tick-Capped k (stopped (s, log)) h hk = h

  -- A write goes on or stops, with the same log.
  written-Capped :
      (ok : Bool) (q r : S × List RuleInstance) (t : ℕ) (out : Evaluation)
      → length existing + added existing q.1 ≤ t
      → length existing + added existing r.1 ≤ t
      → t ≤ b
      → Capped (if ok then going q t out else stopped r)
  unfolding Capped
  written-Capped true q r t out h h' l = (h, l)
  written-Capped false q r t out h h' l = omega arith

  recorded_log :
      (changed : Bool) (h : HistoryEntry) (s : S) (log : List RuleInstance)
      → (record_if (logging store) fresh max_instances now rule changed h (s, log)).1 ≡ log
  recorded_log true h s log = refl
  recorded_log false h s log = refl

  advance_instance-Capped :
      (s : S) (log : List RuleInstance) (t : ℕ) (out : Evaluation) (fp : Str) (sample : RuleSample)
      (cur : RuleInstance)
      → length existing
          + (if has_fingerprint existing fp then added existing log else suc (added existing log))
        ≤ t
      → t ≤ b
      → Capped (
          advance_instance
            (logging store)
            fresh
            max_instances
            now
            rule
            (s, log)
            t
            out
            fp
            sample
            cur)
  unfolding advance_instance added
  advance_instance-Capped s log t out fp sample cur h l =
      written-Capped _ _ _ t _ (rw (recorded_log _ _ _ _) h) h l

  tick-Capped :
      (s : S) (log : List RuleInstance) (t : ℕ) (out : Evaluation) (fp : Str) (sample : RuleSample)
      → max_instances ≤ b
      → length existing + added existing log ≤ t
      → t ≤ b
      → Capped (
          tick
            (logging store)
            fresh
            max_instances
            now
            rule
            (index_instances existing [])
            (s, log)
            t
            out
            fp
            sample)
  unfolding tick find Capped
  tick-Capped s log t out fp sample m h l =
      elim (Option-cases (find fp (index_instances existing []))) [
        | inr (cur, e) ↦
            rw (e, tick)
              (advance_instance-Capped s log t out fp sample cur
                (elim (index_instances_sound fp existing [] cur e) [
                  | inl known ↦ ground (arith, known)
                  | inr none ↦ absurd (cc)
                ])
                l)
        | inl e ↦ elim (Bool-cases (leb max_instances t)) [
          | inl p ↦ rw (e, tick) (rw p (h, l))
          | inr p ↦
              rw (e, tick)
                (rw p (
                  advance_instance-Capped s log (suc t) out fp sample
                    (new_instance (logging store) fresh max_instances now rule fp) (ground arith)
                    (ground arith)))
        ]
      ]

  tick_all-Capped :
      (present : Table Str RuleSample) (fps : List Str) (s : S) (log : List RuleInstance) (t : ℕ)
      (out : Evaluation)
      → max_instances ≤ b
      → length existing + added existing log ≤ t
      → t ≤ b
      → Capped (
          tick_all
            (logging store)
            fresh
            max_instances
            now
            rule
            (index_instances existing [])
            present
            fps
            (s, log)
            t
            out)
  unfolding tick_all Capped
  tick_all-Capped present [] s log t out m h l = (h, l)
  tick_all-Capped present (fp ∷ fps) s log t out m h l = elim (Option-cases (find fp present)) [
    | inl e ↦ rw (e, tick_all) (tick_all-Capped present fps s log t out m h l)
    | inr (sample, e) ↦
        rw (e, tick_all)
          (then_tick-Capped _ _ (tick-Capped s log t out fp sample m h l)
            (λ s' log' t' out' h' l'. tick_all-Capped present fps s' log' t' out' m h' l'))
  ]

  resolve_one-Capped :
      (s : S) (log : List RuleInstance) (t : ℕ) (out : Evaluation) (i : RuleInstance)
      → length existing + added existing log ≤ t
      → t ≤ b
      → Capped (resolve_one (logging store) fresh max_instances now rule (s, log) t out i)
  unfolding resolve_one
  resolve_one-Capped s log t out i h l =
      written-Capped _ _ _ t _ (rw (recorded_log _ _ s log) h) (rw (recorded_log _ _ s log) h) l

  resolve_all-Capped :
      (present : Table Str RuleSample) (is : List RuleInstance) (s : S) (log : List RuleInstance)
      (t : ℕ) (out : Evaluation)
      → length existing + added existing log ≤ t
      → t ≤ b
      → Capped (resolve_all (logging store) fresh max_instances now rule present is (s, log) t out)
  unfolding resolve_all Capped
  resolve_all-Capped present [] s log t out h l = (h, l)
  resolve_all-Capped present (i ∷ is) s log t out h l =
      elim (Option-cases (find i.fingerprint present)) [
        | inr (sample, e) ↦ rw (e, resolve_all) (resolve_all-Capped present is s log t out h l)
        | inl e ↦
            rw (e, resolve_all)
              (then_tick-Capped _ _ (resolve_one-Capped s log t out i h l)
                (λ s' log' t' out' h' l'. resolve_all-Capped present is s' log' t' out' h' l'))
      ]

  -- Over any store, an evaluation keeps the cap on instances: what was there, with the writes of
  -- instances under fingerprints that were not there, is no more than what was there or than the
  -- cap, whichever is more. That holds also where a write fails and stops the evaluation.
  pub both_loops_capped :
      (present : Table Str RuleSample) (s : S)
      → length existing ≤ b
      → max_instances ≤ b
      → length existing
          + added existing (
              log_of
                (both_loops (logging store) fresh max_instances now rule existing present (s, [])))
        ≤ b
  unfolding Capped
  both_loops_capped present s l m = Capped-log _ (
      then_tick-Capped _ _
        (tick_all-Capped present (sorted_keys present) s [] (length existing) no_evaluation m
          (unfold added in omega arith) l)
        (λ s' log' t' out' h' l'. resolve_all-Capped present existing s' log' t' out' h' l'))
