-- ===== src/Model/Labels/Canonical.antt =====
-- The sorted form of internal/model/labels.go is canonical: what a label set holds decides the
-- slice, and with it `Hash` and `String`.
use omni_metrics.Prelude.{
  [], ◌∷◌, ◌≡◌, refl, ap, sym, ◌∙◌, true, false, ◌||◌, arith, Bool-cases, inl, inr, Str, str_eq,
  str_lt, str_eq_iff, str_eq_refl, str_lt_trans, str_lt_connected,
}
use omni_metrics.Model.Labels.{
  Label, Labels, insert_by_name, sort_stable, dedup_from, dedup, normalize, get, has, hash,
}
use omni_metrics.Model.Labels.Normal.{Below, IsNormal, normalize-IsNormal}
use omni_metrics.Model.Labels.Lookup.{last_value, lt_ne, get-normalize, get-IsNormal}

has-insert : (n : Str) (x : Label) (ys : Labels) → has (insert_by_name x ys) n ≡ has (x ∷ ys) n
unfolding has insert_by_name
has-insert n x [] = refl
has-insert n x (y ∷ ys) = elim (Bool-cases (str_lt y.name x.name)) [
  | inl e ↦ rw e (ground (arith, has-insert n x ys))
  | inr e ↦ rw e
]

has-sort : (n : Str) (ls : Labels) → has (sort_stable ls) n ≡ has ls n
unfolding has sort_stable
has-sort n [] = refl
has-sort n (l ∷ ls) =
    has-insert n l (sort_stable ls) ∙ ap (λ b. str_eq l.name n || b) (has-sort n ls)

has-dedup_from :
    (n : Str) (last : Label) (ls : Labels) → has (dedup_from last ls) n ≡ has (last ∷ ls) n
unfolding has dedup_from
has-dedup_from n last [] = refl
has-dedup_from n last (l ∷ ls) = elim (Bool-cases (str_eq l.name last.name)) [
  | inl e ↦
      let same = (str_eq_iff l.name last.name).0 e in
      rw (e, dedup_from)
        (has-dedup_from n (record last { value = l.value }) ls ∙ rw same (ground arith))
  | inr e ↦ rw (e, dedup_from) (ap (λ b. str_eq last.name n || b) (has-dedup_from n l ls))
]

-- `normalize` loses no name and adds none.
pub has-normalize : (n : Str) (ls : Labels) → has (normalize ls) n ≡ has ls n
unfolding normalize
has-normalize n ls = deduped (sort_stable ls) ∙ has-sort n ls
  where
    deduped : (s : Labels) → has (dedup s) n ≡ has s n
    deduped [] = refl
    deduped (l ∷ s) = has-dedup_from n l s

has-Below : (n : Str) (ls : Labels) → Below n ls → has ls n ≡ false
unfolding has
has-Below n [] h = refl
has-Below n (l ∷ ls) (h, hs) =
    ground (arith, lt_ne n l.name h, str_eq_iff n l.name, str_eq_iff l.name n, has-Below n ls hs)

-- A name below the head is in no normal list.
has-lt_head :
    (n : Str) (l : Label) (ls : Labels)
    → str_lt n l.name ≡ true
    → IsNormal (l ∷ ls)
    → has (l ∷ ls) n ≡ false
unfolding has
has-lt_head n l ls h (b, bs) = has-Below n (l ∷ ls) (h, below ls b)
  where
    below : (ms : Labels) → Below l.name ms → Below n ms
    below [] k = tt
    below (m ∷ ms) (k, ks) = (str_lt_trans n l.name m.name h k, below ms ks)

-- What two lists hold, name by name.
pub record SameContents (a b : Labels) : Type 0 where
  pub names : (n : Str) → has a n ≡ has b n
  pub values : (n : Str) → get a n ≡ get b n

heads_same :
    (x y : Label) (xs ys : Labels)
    → IsNormal (x ∷ xs)
    → IsNormal (y ∷ ys)
    → SameContents (x ∷ xs) (y ∷ ys)
    → x.name ≡ y.name
unfolding has
heads_same x y xs ys hx hy s = elim (Bool-cases (str_lt x.name y.name)) [
  | inl e ↦ ground (arith, has-lt_head x.name y ys e hy, s.names x.name, str_eq_refl x.name)
  | inr e ↦ elim (Bool-cases (str_lt y.name x.name)) [
    | inl f ↦ ground (arith, has-lt_head y.name x xs f hx, s.names y.name, str_eq_refl y.name)
    | inr f ↦ str_lt_connected x.name y.name e f
  ]
]

get-Below : (n : Str) (ls : Labels) → Below n ls → get ls n ≡ []
unfolding get
get-Below n [] h = refl
get-Below n (l ∷ ls) (h, hs) =
    ground (arith, lt_ne n l.name h, str_eq_iff n l.name, str_eq_iff l.name n, get-Below n ls hs)

module _ (x y : Label) (xs ys : Labels) (e : x.name ≡ y.name) (bx : Below x.name xs)
    (by : Below y.name ys) (s : SameContents (x ∷ xs) (y ∷ ys)) where
  tail_names : (n : Str) → has xs n ≡ has ys n
  unfolding has
  tail_names n = elim (Bool-cases (str_eq x.name n)) [
    | inl f ↦
        let same = (str_eq_iff x.name n).0 f in
        has-Below n xs (rw same at bx) ∙ sym (has-Below n ys (rw (sym e ∙ same) at by))
    | inr f ↦ ground (arith, s.names n)
  ]

  tail_values : (n : Str) → get xs n ≡ get ys n
  unfolding get
  tail_values n = elim (Bool-cases (str_eq x.name n)) [
    | inl f ↦
        let same = (str_eq_iff x.name n).0 f in
        get-Below n xs (rw same at bx) ∙ sym (get-Below n ys (rw (sym e ∙ same) at by))
    | inr f ↦ ground (arith, s.values n)
  ]

  head_value : x.value ≡ y.value
  unfolding get
  head_value = ground (arith, s.values x.name, str_eq_refl x.name, str_eq_refl y.name)

-- Two sorted label sets that hold the same names with the same values are the same slice.
pub IsNormal-unique : (a b : Labels) → IsNormal a → IsNormal b → SameContents a b → a ≡ b
IsNormal-unique [] [] ha hb s = refl
IsNormal-unique [] (y ∷ ys) ha hb s =
    unfold has in ground (arith, s.names y.name, str_eq_refl y.name)
IsNormal-unique (x ∷ xs) [] ha hb s =
    unfold has in ground (arith, s.names x.name, str_eq_refl x.name)
IsNormal-unique (x ∷ xs) (y ∷ ys) (bx, ha) (by, hb) s =
    let e = heads_same x y xs ys (bx, ha) (by, hb) s in
    let tails : SameContents xs ys = record {
      names = tail_names x y xs ys e bx by s;
      values = tail_values x y xs ys e bx by s;
    } in
    cc (e, head_value x y xs ys e bx by s, IsNormal-unique xs ys ha hb tails)

-- Two ways to list the same labels, in any order and with overwritten values, give one slice and
-- so one hash, if they name the same labels and the last value of each name is the same.
pub hash-normalize :
    (a b : Labels)
    → ((n : Str) → has a n ≡ has b n)
    → ((n : Str) → last_value n a [] ≡ last_value n b [])
    → (normalize a ≡ normalize b) × (hash (normalize a) ≡ hash (normalize b))
hash-normalize a b h v = (same, ap hash same)
  where
    same : normalize a ≡ normalize b
    same = IsNormal-unique _ _ (normalize-IsNormal a) (normalize-IsNormal b) (record {
      names = λ n. has-normalize n a ∙ h n ∙ sym (has-normalize n b);
      values = λ n. get-normalize n a ∙ v n ∙ sym (get-normalize n b);
    })

-- A sorted label set is left as it is.
pub normalize_of_IsNormal : (ls : Labels) → IsNormal ls → normalize ls ≡ ls
normalize_of_IsNormal ls h = IsNormal-unique _ ls (normalize-IsNormal ls) h (record {
  names = λ n. has-normalize n ls;
  values = λ n. get-normalize n ls ∙ sym (get-IsNormal n ls h);
})
