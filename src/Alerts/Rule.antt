-- ===== src/Alerts/Rule.antt =====
-- internal/alerts/evaluator/evaluator.go: EvaluateRule, the evaluation of a rule for all the series that
-- its query returns; internal/alerts/models/models.go: what it reads and writes. The store is a
-- parameter, with its state passed on; the identifiers of package uuid are the parameter `fresh`.
pub mod Capped
pub mod Changes
use omni_metrics.Prelude.{
  ℕ, zero, suc, ◌+◌, ◌*◌, ◌≤◌, List, [], ◌∷◌, ◌++◌, Bool, true, false, Option, none, some, Str,
  bytes, str_lt, leb, length, String, if◌then◌else◌,
}
use omni_metrics.Prelude.Int.{ℤ, pos}
use omni_metrics.Prelude.Int64.{mul_int64}
use omni_metrics.Prelude.Table.{Table, find, put, string_eq}
use omni_metrics.Alerts.Fingerprint.{state_name, sorted_keys, fingerprint_of}
use omni_metrics.Alerts.State.{State, state_ok, state_pending, state_firing, state_resolved, next}

-- Of the rule, what its evaluation reads.
pub record Rule : Type 0 where
  pub id : Str
  pub name : Str
  pub for_s : ℤ
  pub severity : Str
  pub labels : Table Str Str
  pub annotations : Table Str Str

pub record RuleInstance : Type 0 where
  pub id : Str
  pub rule_id : Str
  pub fingerprint : Str
  pub state : State
  pub state_name : Str
  pub current_value : ℕ
  pub active_at : ℤ
  pub started_at : ℤ
  pub updated_at : ℤ
  pub labels : Table Str Str
  pub annotations : Table Str Str

pub record HistoryEntry : Type 0 where
  pub rule_id : Str
  pub fingerprint : Str
  pub prev : State
  pub new : State
  pub prev_name : Str
  pub new_name : Str
  pub timestamp : ℤ
  pub value : ℕ
  pub reason : Str

pub record RuleSample : Type 0 where
  pub labels : Table Str Str
  pub value : ℕ

-- A transition as the notifier gets it.
pub record Change : Type 0 where
  pub rule_id : Str
  pub rule_name : Str
  pub severity : Str
  pub fingerprint : Str
  pub prev : State
  pub new : State
  pub value : ℕ
  pub labels : Table Str Str
  pub annotations : Table Str Str
  pub time : ℤ

-- `Outcome`; `err` says whether there is an error.
pub record Evaluation : Type 0 where
  pub active : ℕ
  pub pending : ℕ
  pub transitions : ℕ
  pub changes : List Change
  pub err : Bool
  pub fail_reason : Str

abbrev pub no_evaluation : Evaluation
no_evaluation = record {
  active = 0;
  pending = 0;
  transitions = 0;
  changes = [];
  err = false;
  fail_reason = [];
}

abbrev pub failed_with : Str → Evaluation
failed_with reason = record no_evaluation { err = true; fail_reason = reason }

-- The store: a write gives the state behind it and whether it went well.
pub record Store (S : Type 0) : Type 0 where
  pub list_instances : S → Str → Option (List RuleInstance)
  pub upsert_instance : S → RuleInstance → S × Bool
  pub delete_instance : S → Str → S × Bool
  pub append_history : S → HistoryEntry → S

-- Rule labels win; the nil map of two empty ones is the empty table.
unfoldable pub merge_labels : Table Str Str → Table Str Str → Table Str Str
merge_labels series [] = series
merge_labels series ((k, v) ∷ rest) = put k v (merge_labels series rest)

unfoldable pub transition_reason : State → State → Str
transition_reason state_pending state_firing = bytes "for duration elapsed"
transition_reason prev state_firing = bytes "condition is true"
transition_reason prev state_pending = bytes "condition is true; waiting for 'for' duration"
transition_reason prev state_resolved = bytes "condition no longer true"
transition_reason prev state_ok = []

-- `indexSamples`, and `byFP`: a later entry of a fingerprint replaces an earlier one.
unfoldable pub index_samples : List RuleSample → Table Str RuleSample → Table Str RuleSample
unfolding fingerprint_of
index_samples [] m = m
index_samples (s ∷ ss) m = index_samples ss (put (fingerprint_of s.labels) s m)

unfoldable pub index_instances : List RuleInstance → Table Str RuleInstance → Table Str RuleInstance
index_instances [] m = m
index_instances (i ∷ is) m = index_instances is (put i.fingerprint i m)

-- The query's samples, or the class of its failure.
pub data Queried : Type 0 where
  answered : List RuleSample → Queried
  query_failed : Str → Queried

-- Where the evaluation stands: the store, the instances counted against the cap, and the outcome; or
-- the store behind a write that failed.
pub data Progress (S : Type 0) : Type 0 where
  going : S → ℕ → Evaluation → Progress S
  stopped : S → Progress S

module _ {S : Type 0} (store : Store S) (fresh : Str → Str) (max_instances : ℕ) (now : ℤ)
    (rule : Rule) where
  -- A product of int64s, which wraps.
  unfoldable pub for_d : ℤ
  unfolding mul_int64
  for_d = mul_int64 rule.for_s (pos 1000000000)

  abbrev pub entry : Str → State → State → ℕ → Str → HistoryEntry
  entry fp prev new value reason = record {
    rule_id = rule.id;
    fingerprint = fp;
    prev = prev;
    new = new;
    prev_name = state_name prev;
    new_name = state_name new;
    timestamp = now;
    value = value;
    reason = reason;
  }

  abbrev pub change : Str → State → State → ℕ → Table Str Str → Table Str Str → Change
  change fp prev new value labels annotations = record {
    rule_id = rule.id;
    rule_name = rule.name;
    severity = rule.severity;
    fingerprint = fp;
    prev = prev;
    new = new;
    value = value;
    labels = labels;
    annotations = annotations;
    time = now;
  }

  -- What a transition adds to the outcome.
  abbrev pub add_change : Bool → Change → Evaluation → Evaluation
  add_change false c out = out
  add_change true c out = record out {
    transitions = suc out.transitions;
    changes = out.changes ++ (c ∷ []);
  }

  abbrev pub count_state : State → Evaluation → Evaluation
  count_state state_firing out = record out { active = suc out.active }
  count_state state_pending out = record out { pending = suc out.pending }
  count_state _ out = out

  abbrev pub record_if : Bool → HistoryEntry → S → S
  record_if false h s = s
  record_if true h s = store.append_history s h

  -- The instance that stands for a series without one.
  abbrev pub new_instance : Str → RuleInstance
  new_instance fp = record {
    id = fresh fp;
    rule_id = rule.id;
    fingerprint = fp;
    state = state_ok;
    state_name = state_name state_ok;
    current_value = 0;
    active_at = now;
    started_at = now;
    updated_at = now;
    labels = [];
    annotations = [];
  }

  -- A sample advances an instance; `counted` is what the cap counts behind it.
  unfoldable pub advance_instance :
      S → ℕ → Evaluation → Str → RuleSample → RuleInstance → Progress S
  unfolding next merge_labels transition_reason state_name
  advance_instance s counted out fp sample cur =
      let (new, changed) = next cur.state true cur.active_at now for_d in
      let labels = merge_labels sample.labels rule.labels in
      let i : RuleInstance = record {
        id = cur.id;
        rule_id = rule.id;
        fingerprint = fp;
        state = new;
        state_name = state_name new;
        current_value = sample.value;
        active_at = cur.active_at;
        started_at = cur.started_at;
        updated_at = now;
        labels = labels;
        annotations = rule.annotations;
      } in
      let (s', written) = store.upsert_instance s i in
      let c = change fp cur.state new sample.value labels rule.annotations in
      if written
      then going
          (record_if changed (entry fp cur.state new sample.value (transition_reason cur.state new))
            s')
          counted (count_state new (add_change changed c out))
      else stopped s'

  -- One series of the first loop: a new one beyond the cap is refused.
  unfoldable pub tick : Table Str RuleInstance → S → ℕ → Evaluation → Str → RuleSample → Progress S
  unfolding advance_instance
  tick by_fp s tracked out fp sample = elim (find fp by_fp) [
    | some cur ↦ advance_instance s tracked out fp sample cur
    | none ↦
        if leb max_instances tracked
        then going s tracked (record out { fail_reason = bytes "instance_cap" })
        else advance_instance s (suc tracked) out fp sample (new_instance fp)
  ]

  abbrev pub then_tick : (S → ℕ → Evaluation → Progress S) → Progress S → Progress S
  then_tick k (going s tracked out) = k s tracked out
  then_tick k (stopped s) = stopped s

  unfoldable pub tick_all :
      Table Str RuleInstance → Table Str RuleSample → List Str → S → ℕ → Evaluation → Progress S
  unfolding tick
  tick_all by_fp present [] s tracked out = going s tracked out
  tick_all by_fp present (fp ∷ fps) s tracked out = elim (find fp present) [
    | none ↦ tick_all by_fp present fps s tracked out
    | some sample ↦ then_tick (tick_all by_fp present fps) (tick by_fp s tracked out fp sample)
  ]

  -- One instance of the second loop whose series is gone.
  unfoldable pub resolve_one : S → ℕ → Evaluation → RuleInstance → Progress S
  unfolding next state_name
  resolve_one s tracked out i =
      let (new, changed) = next i.state false i.active_at now for_d in
      let c = change i.fingerprint i.state new 0 i.labels i.annotations in
      let s' =
        record_if changed (entry i.fingerprint i.state new 0 (bytes "condition no longer true"))
          s in
      let (s'', deleted) = store.delete_instance s' i.id in
      if deleted then going s'' tracked (add_change changed c out) else stopped s''

  unfoldable pub resolve_all :
      Table Str RuleSample → List RuleInstance → S → ℕ → Evaluation → Progress S
  unfolding resolve_one
  resolve_all present [] s tracked out = going s tracked out
  resolve_all present (i ∷ is) s tracked out = elim (find i.fingerprint present) [
    | some sample ↦ resolve_all present is s tracked out
    | none ↦ then_tick (resolve_all present is) (resolve_one s tracked out i)
  ]

  abbrev pub concluded : Progress S → S × Evaluation
  concluded (going s tracked out) = (s, out)
  concluded (stopped s) = (s, failed_with (bytes "storage"))

  abbrev pub both_loops : List RuleInstance → Table Str RuleSample → S → Progress S
  both_loops existing present s = then_tick (resolve_all present existing) (
      tick_all (index_instances existing []) present (sorted_keys present) s (length existing)
        no_evaluation)

  unfoldable pub evaluate_rule : Queried → S → S × Evaluation
  unfolding tick_all resolve_all index_instances index_samples sorted_keys
  evaluate_rule (query_failed reason) s = (s, failed_with reason)
  evaluate_rule (answered samples) s = elim (store.list_instances s rule.id) [
    | none ↦ (s, failed_with (bytes "storage"))
    | some existing ↦ concluded (both_loops existing (index_samples samples []) s)
  ]
