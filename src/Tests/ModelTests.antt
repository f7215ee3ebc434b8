-- ===== src/Tests/ModelTests.antt =====
-- Label sets and matchers (internal/model) at concrete inputs.
use omni_metrics.Prelude.{
  [], ◌∷◌, Option, none, some, true, false, ◌≡◌, ◌⊎◌, arith, bytes, Str, Bool, if◌then◌else◌, ◌↔◌,
}
use omni_metrics.Prelude.Bytes.{str_eq, str_eq_iff}
use omni_metrics.Model.Labels.{Label, normalize, get, has, equal, hash}
use omni_metrics.Model.Labels.Normal.{IsNormal, normalize-IsNormal}
use omni_metrics.Model.Labels.Lookup.{last_value, get-normalize, equal_iff}
use omni_metrics.Model.Labels.Canonical.{hash-normalize}
use omni_metrics.Model.Matcher.{
  match_regexp, Matcher, new_matcher, matches, selects, is_regexp, new_matcher-selects,
}

abbrev job : Label
job = record { name = bytes "job"; value = bytes "n" }

abbrev env : Label
env = record { name = bytes "env"; value = bytes "x" }

abbrev old_env : Label
old_env = record { name = bytes "env"; value = bytes "w" }

normalize-IsNormal_example : IsNormal (normalize (job ∷ old_env ∷ env ∷ []))
normalize-IsNormal_example = normalize-IsNormal (job ∷ old_env ∷ env ∷ [])

get-normalize_example : get (normalize (job ∷ old_env ∷ env ∷ [])) (bytes "env") ≡ bytes "x"
unfolding last_value str_eq
get-normalize_example = get-normalize (bytes "env") (job ∷ old_env ∷ env ∷ [])

hash-normalize_example :
    (normalize (job ∷ env ∷ []) ≡ normalize (env ∷ job ∷ []))
    × (hash (normalize (job ∷ env ∷ [])) ≡ hash (normalize (env ∷ job ∷ [])))
unfolding has last_value
hash-normalize_example =
    hash-normalize (job ∷ env ∷ []) (env ∷ job ∷ []) (λ n. ground arith)
      (λ n. ground (arith, str_eq_iff (bytes "job") n, str_eq_iff (bytes "env") n))

equal_iff_example : (equal (job ∷ []) (env ∷ []) ≡ true) ↔ (job ∷ [] ≡ env ∷ [])
equal_iff_example = equal_iff (job ∷ []) (env ∷ [])

-- A pattern language that knows one pattern.
abbrev one_pattern : Str → Option (Str → Bool)
one_pattern p = if str_eq p (bytes "^(?:a|b)$") then some (str_eq (bytes "a")) else none

new_matcher-selects_example :
    ((is_regexp match_regexp ≡ true)
      × (one_pattern (bytes "^(?:a|b)$") ≡ none)
      × (new_matcher one_pattern match_regexp (bytes "job") (bytes "a|b") ≡ none))
    ⊎ ((m : Matcher) × (new_matcher one_pattern match_regexp (bytes "job") (bytes "a|b") ≡ some m)
        × (m.name ≡ bytes "job")
        × ((s : Str) → matches m s ≡ selects match_regexp (bytes "a|b") m.re s)
        × ((is_regexp match_regexp ≡ false) ⊎ (one_pattern (bytes "^(?:a|b)$") ≡ some m.re)))
new_matcher-selects_example =
    new_matcher-selects one_pattern match_regexp (bytes "job") (bytes "a|b")
