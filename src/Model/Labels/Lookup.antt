-- ===== src/Model/Labels/Lookup.antt =====
-- What `Get`, `Has` and `Equal` (internal/model/labels.go) see of a label set that the
-- constructors built.
use omni_metrics.Prelude.{
  [], ◌∷◌, ◌≡◌, ◌↔◌, refl, sym, ◌∙◌, true, false, arith, Bool-cases, inl, inr, length, Str, str_eq,
  str_lt, str_eq_iff, str_eq_refl, str_lt_irrefl, if◌then◌else◌,
}
use omni_metrics.Model.Labels.{
  Label, Labels, insert_by_name, sort_stable, dedup_from, dedup, normalize, get, equal, all_equal,
  label_eq,
}
use omni_metrics.Model.Labels.Normal.{Below, IsNormal, normalize-IsNormal}

-- The value that a map filled by `ls` in turn holds for `n`, from `d` on: the last one wins.
unfoldable pub last_value : Str → Labels → Str → Str
last_value n [] d = d
last_value n (l ∷ ls) d = last_value n ls (if str_eq l.name n then l.value else d)

pub lt_ne : (a b : Str) → str_lt a b ≡ true → str_eq a b ≡ false
lt_ne a b h = elim (Bool-cases (str_eq a b)) [
  | inr e ↦ e
  | inl e ↦ let same = (str_eq_iff a b).0 e in ground (arith, str_lt_irrefl b)
]

last_value-insert :
    (n : Str) (x : Label) (ys : Labels) (d : Str)
    → last_value n (insert_by_name x ys) d ≡ last_value n (x ∷ ys) d
unfolding last_value insert_by_name
last_value-insert n x [] d = refl
last_value-insert n x (y ∷ ys) d = elim (Bool-cases (str_lt y.name x.name)) [
  | inr e ↦ rw e
  | inl e ↦ rw e (
      last_value-insert n x ys (if str_eq y.name n then y.value else d)
      ∙ ground (
        arith,
        lt_ne y.name x.name e,
        str_eq_iff y.name n,
        str_eq_iff x.name n,
        str_eq_iff y.name x.name,
      ))
]

last_value-sort :
    (n : Str) (ls : Labels) (d : Str) → last_value n (sort_stable ls) d ≡ last_value n ls d
unfolding last_value sort_stable
last_value-sort n [] d = refl
last_value-sort n (l ∷ ls) d =
    last_value-insert n l (sort_stable ls) d
    ∙ last_value-sort n ls (if str_eq l.name n then l.value else d)

last_value-dedup_from :
    (n : Str) (last : Label) (ls : Labels) (d : Str)
    → last_value n (dedup_from last ls) d ≡ last_value n (last ∷ ls) d
unfolding last_value dedup_from
last_value-dedup_from n last [] d = refl
last_value-dedup_from n last (l ∷ ls) d = elim (Bool-cases (str_eq l.name last.name)) [
  | inl e ↦
      rw (e, dedup_from)
        (last_value-dedup_from n (record last { value = l.value }) ls d
          ∙ ground (arith, str_eq_iff l.name last.name))
  | inr e ↦
      rw (e, dedup_from)
        (last_value-dedup_from n l ls (if str_eq last.name n then last.value else d))
]

last_value-Below : (n : Str) (ls : Labels) (d : Str) → Below n ls → last_value n ls d ≡ d
unfolding last_value
last_value-Below n [] d h = refl
last_value-Below n (l ∷ ls) d (h, hs) =
    ground
      (arith, lt_ne n l.name h, str_eq_iff n l.name, str_eq_iff l.name n, last_value-Below n ls d)

pub get-IsNormal : (n : Str) (ls : Labels) → IsNormal ls → get ls n ≡ last_value n ls []
unfolding get last_value
get-IsNormal n [] h = refl
get-IsNormal n (l ∷ ls) (b, h) = elim (Bool-cases (str_eq l.name n)) [
  | inl e ↦
      rw e
        (let same = (str_eq_iff l.name n).0 e in sym (last_value-Below n ls l.value (rw same at b)))
  | inr e ↦ rw e (get-IsNormal n ls h)
]

-- `Get` on what `normalize` built from any list of labels is the value of the last of them with
-- that name, and the empty string if there is none.
pub get-normalize : (n : Str) (ls : Labels) → get (normalize ls) n ≡ last_value n ls []
unfolding normalize
get-normalize n ls =
    get-IsNormal n _ (normalize-IsNormal ls) ∙ deduped (sort_stable ls) ∙ last_value-sort n ls []
  where
    deduped : (s : Labels) → last_value n (dedup s) [] ≡ last_value n s []
    deduped [] = refl
    deduped (l ∷ s) = last_value-dedup_from n l s []

all_equal_sound : (a b : Labels) → length a ≡ length b → all_equal a b ≡ true → a ≡ b
unfolding all_equal label_eq
all_equal_sound [] [] h e = refl
all_equal_sound [] (y ∷ ys) h e = absurd (omega arith)
all_equal_sound (x ∷ xs) [] h e = absurd (omega arith)
all_equal_sound (x ∷ xs) (y ∷ ys) h e =
    ground (arith, str_eq_iff x.name y.name, str_eq_iff x.value y.value, all_equal_sound xs ys)

all_equal_refl : (a : Labels) → all_equal a a ≡ true
unfolding all_equal label_eq
all_equal_refl [] = refl
all_equal_refl (x ∷ xs) = ground (arith, str_eq_refl x.name, str_eq_refl x.value, all_equal_refl xs)

-- `Equal` holds exactly of identical label sets.
pub equal_iff : (a b : Labels) → (equal a b ≡ true) ↔ (a ≡ b)
unfolding equal
equal_iff a b = (ground (arith, all_equal_sound a b), λ e. rw e (ground (arith, all_equal_refl b)))
