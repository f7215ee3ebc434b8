-- ===== src/Model/Matcher.antt =====
-- internal/model/matcher.go: selecting series by a label's value. The package regexp is a
-- parameter: `compile` gives the test of a pattern that compiles.
use omni_metrics.Prelude.{
  ◌++◌, Bool, true, false, not, Option, none, some, ◌≡◌, refl, Str, bytes, str_eq, ◌⊎◌, inl, inr,
  Option-cases, if◌then◌else◌,
}
use mathlib.Core.Option

pub data MatchType : Type 0 where
  match_equal match_not_equal match_regexp match_not_regexp : MatchType

-- `re` is the compiled pattern's `MatchString`. The nil pointer of the other two types is never
-- called; it stands as `unused`.
pub record Matcher : Type 0 where
  pub kind : MatchType
  pub name : Str
  pub value : Str
  pub re : Str → Bool

abbrev pub unused : Str → Bool
unused s = false

abbrev pub is_regexp : MatchType → Bool
is_regexp match_regexp = true
is_regexp match_not_regexp = true
is_regexp _ = false

unfoldable pub operator : MatchType → Str
operator match_equal = bytes "="
operator match_not_equal = bytes "!="
operator match_regexp = bytes "=~"
operator match_not_regexp = bytes "!~"

-- `NewMatcher`; `none` is the error of a pattern that does not compile.
unfoldable pub new_matcher : (Str → Option (Str → Bool)) → MatchType → Str → Str → Option Matcher
new_matcher compile t name value =
    if is_regexp t
    then Option.map (λ re. record { kind = t; name = name; value = value; re = re })
        (compile (bytes "^(?:" ++ (value ++ bytes ")$")))
    else some (record { kind = t; name = name; value = value; re = unused })

match_by : MatchType → Matcher → Str → Bool
match_by match_equal m s = str_eq s m.value
match_by match_not_equal m s = not (str_eq s m.value)
match_by match_regexp m s = m.re s
match_by match_not_regexp m s = not (m.re s)

unfoldable pub matches : Matcher → Str → Bool
unfolding match_by
matches m s = match_by m.kind m s

-- What a matcher of a type selects, with `test` the anchored pattern's test.
abbrev pub selects : MatchType → Str → (Str → Bool) → Str → Bool
selects match_equal value test s = str_eq s value
selects match_not_equal value test s = not (str_eq s value)
selects match_regexp value test s = test s
selects match_not_regexp value test s = not (test s)

-- A matcher that `NewMatcher` returns selects by its type, name and value; for the two regexp types
-- by the test of the pattern between `^(?:` and `)$`, and there it fails exactly where that pattern
-- does not compile.
pub new_matcher-selects :
    (compile : Str → Option (Str → Bool)) (t : MatchType) (name value : Str)
    → ((is_regexp t ≡ true)
        × (compile (bytes "^(?:" ++ (value ++ bytes ")$")) ≡ none)
        × (new_matcher compile t name value ≡ none))
      ⊎ ((m : Matcher) × (new_matcher compile t name value ≡ some m)
          × (m.name ≡ name)
          × ((s : Str) → matches m s ≡ selects t value m.re s)
          × ((is_regexp t ≡ false) ⊎ (compile (bytes "^(?:" ++ (value ++ bytes ")$")) ≡ some m.re)))
unfolding new_matcher matches
new_matcher-selects compile match_equal name value = inr (_, refl, refl, (λ s. refl), inl refl)
new_matcher-selects compile match_not_equal name value = inr (_, refl, refl, (λ s. refl), inl refl)
new_matcher-selects compile t name value =
    elim (Option-cases (compile (bytes "^(?:" ++ (value ++ bytes ")$")))) [
      | inl e ↦ inl (refl, e, rw e)
      | inr (re, e) ↦
          inr (
            record { kind = t; name = name; value = value; re = re },
            rw e,
            refl,
            (λ s. refl),
            inr e,
          )
    ]
