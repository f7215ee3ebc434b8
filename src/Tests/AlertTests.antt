-- ===== src/Tests/AlertTests.antt =====
-- The alert state machine (internal/alerts) at concrete inputs.
use omni_metrics.Prelude.{
  List, [], ◌∷◌, ◌+◌, ◌≤◌, if◌then◌else◌, false, length, true, some, bytes, ◌≡◌, arith,
}
use omni_metrics.Alerts.State.{state_ok, state_pending, state_firing, state_resolved, next}
use omni_metrics.Alerts.State.Holds.{state_after, latest, IsForward, state_after_lem}
use omni_metrics.Alerts.Severity.{is_severity, map_severity, map_severity_lem}
use omni_metrics.Alerts.Fingerprint.{state_name, parse_state, parse_state-state_name}
use omni_metrics.Alerts.Rule.{
  Rule, RuleInstance, RuleSample, Store, answered, evaluate_rule, both_loops, new_instance,
}
use omni_metrics.Alerts.Rule.Changes.{IsCounted, pause, evaluate_rule-IsCounted}
use omni_metrics.Alerts.Rule.Capped.{added, log_of, logging, both_loops_capped}
use omni_metrics.Prelude.Int.{ℤ, pos, leb_ℤ, ◌-ℤ◌}

-- Found at 20, 30 and 40 ns, by a rule of 15 ns.
abbrev times : List ℤ
times = pos 40 ∷ pos 30 ∷ []

state_after_example :
    (state_after (pos 15) (pos 20) state_ok times
      ≡ (if leb_ℤ (pos 15) (latest (pos 20) times -ℤ pos 20) then state_firing else state_pending))
    × ((t : ℤ)
        → next (state_after (pos 15) (pos 20) state_ok times) false (pos 20) t (pos 15)
          ≡ (state_resolved, true))
unfolding IsForward
state_after_example =
    state_after_lem (pos 15) (pos 20) state_ok times (omega arith) (λ e. absurd (cc))
      (λ e. absurd (cc)) (omega arith, (omega arith, tt))

-- A store that keeps its instances in a list, and no history.
abbrev listed : Store (List RuleInstance)
listed = record {
  list_instances = λ s id. some s;
  upsert_instance = λ s i. (i ∷ s, true);
  delete_instance = λ s id. (s, true);
  append_history = λ s h. s;
}

abbrev a_rule : Rule
a_rule = record {
  id = bytes "r";
  name = bytes "Down";
  for_s = pos 0;
  severity = bytes "critical";
  labels = [];
  annotations = [];
}

abbrev down : RuleSample
down = record { labels = (bytes "job", bytes "n") ∷ []; value = 1 }

abbrev gone : RuleInstance
gone = new_instance listed (λ fp. fp) 5 (pos 3) a_rule (bytes "f")

evaluate_rule-IsCounted_example :
    IsCounted
      (pause a_rule)
      (evaluate_rule listed (λ fp. fp) 5 (pos 7) a_rule (answered (down ∷ [])) (gone ∷ [])).1
evaluate_rule-IsCounted_example =
    evaluate_rule-IsCounted listed (λ fp. fp) 5 (pos 7) a_rule (answered (down ∷ [])) (gone ∷ [])

-- One instance was there, under `f`, and a cap of five leaves room for the new one.
both_loops_capped_example :
    length (gone ∷ [])
      + added (gone ∷ []) (
          log_of (
            both_loops
              (logging listed)
              (λ fp. fp)
              5
              (pos 7)
              a_rule
              (gone ∷ [])
              ((bytes "e", down) ∷ [])
              ([], [])))
    ≤ 5
both_loops_capped_example =
    both_loops_capped listed (λ fp. fp) 5 (pos 7) a_rule (gone ∷ []) 5 ((bytes "e", down) ∷ []) []
      (omega arith) (omega arith)

parse_state-state_name_example : parse_state (state_name state_firing) ≡ some state_firing
parse_state-state_name_example = parse_state-state_name state_firing

map_severity_example :
    (is_severity (map_severity (λ s. s) (bytes "page")) ≡ true)
    × (is_severity (bytes "page") ≡ true → map_severity (λ s. s) (bytes "page") ≡ bytes "page")
map_severity_example = map_severity_lem (λ s. s) (bytes "page")
