-- ===== src/Promql/Aggregate/Groups.antt =====
-- internal/promql/funcs.go: what the groups of an aggregation are.
use omni_metrics.Prelude.{
  List, [], ◌∷◌, ◌++◌, false, Str, str_eq, str_eq_iff, ◌≡◌, ◌≢◌, refl, sym, ap, ◌∙◌, arith,
  Bool-cases, inl, inr, All, if◌then◌else◌,
}
use mathlib.Core.List.{append_assoc, append-nil}
use omni_metrics.Model.Labels.{Labels, to_string}
use omni_metrics.Promql.Signature.{Group, add_member, group_by}

module _ {ℓ} {B : Type ℓ} where
  -- What stands under a key.
  unfoldable pub members_of : Str → List (Group B) → List B
  members_of k [] = []
  members_of k (g ∷ gs) = if str_eq g.key k then g.members else members_of k gs

  abbrev pub HasKey : Group B → Type 0
  HasKey g = g.key ≡ to_string g.labels

  abbrev pub IsFilled : Group B → Type ℓ
  IsFilled g = g.members ≢ []

  abbrev pub Misses : Str → Group B → Type 0
  Misses k g = str_eq g.key k ≡ false

  -- No two groups have one key.
  unfoldable pub IsDistinct : List (Group B) → Type 0
  IsDistinct [] = Unit
  IsDistinct (g ∷ gs) = All (Misses g.key) gs × IsDistinct gs

  add_member-members :
      (k j : Str) (l : Labels) (b : B) (gs : List (Group B))
      → members_of k (add_member j l b gs) ≡ members_of k gs ++ (if str_eq j k then b ∷ [] else [])
  unfolding members_of add_member
  add_member-members k j l b [] = ground arith
  add_member-members k j l b (g ∷ gs) = ground (
    arith,
    add_member-members k j l b gs,
    str_eq_iff g.key j,
    str_eq_iff g.key k,
    str_eq_iff j k,
    append-nil g.members,
    append-nil (members_of k gs),
  )

  add_member-Misses :
      (k j : Str) (l : Labels) (b : B) (gs : List (Group B))
      → str_eq j k ≡ false
      → All (Misses k) gs
      → All (Misses k) (add_member j l b gs)
  unfolding add_member
  add_member-Misses k j l b [] h t = (h, tt)
  add_member-Misses k j l b (g ∷ gs) h (m, t) = elim (Bool-cases (str_eq g.key j)) [
    | inl p ↦ rw p (m, t)
    | inr p ↦ rw p (m, add_member-Misses k j l b gs h t)
  ]

  add_member-IsDistinct :
      (k : Str) (l : Labels) (b : B) (gs : List (Group B))
      → IsDistinct gs
      → IsDistinct (add_member k l b gs)
  unfolding add_member IsDistinct
  add_member-IsDistinct k l b [] h = (tt, tt)
  add_member-IsDistinct k l b (g ∷ gs) (m, h) = elim (Bool-cases (str_eq g.key k)) [
    | inl p ↦ rw p (m, h)
    | inr p ↦ rw p (
      add_member-Misses g.key k l b gs (ground (arith, str_eq_iff g.key k, str_eq_iff k g.key)) m,
      add_member-IsDistinct k l b gs h,
    )
  ]

  abbrev pub IsGroups : List (Group B) → Type ℓ
  IsGroups gs = IsDistinct gs × All HasKey gs × All IsFilled gs

  add_member-HasKey :
      (l : Labels) (b : B) (gs : List (Group B))
      → All HasKey gs
      → All HasKey (add_member (to_string l) l b gs)
  unfolding add_member
  add_member-HasKey l b [] h = (refl, tt)
  add_member-HasKey l b (g ∷ gs) (e, h) = elim (Bool-cases (str_eq g.key (to_string l))) [
    | inl p ↦ rw p (e, h)
    | inr p ↦ rw p (e, add_member-HasKey l b gs h)
  ]

  append-filled : (bs : List B) (b : B) → bs ++ (b ∷ []) ≢ []
  append-filled [] b e = absurd (cc)
  append-filled (c ∷ bs) b e = absurd (cc)

  add_member-IsFilled :
      (k : Str) (l : Labels) (b : B) (gs : List (Group B))
      → All IsFilled gs
      → All IsFilled (add_member k l b gs)
  unfolding add_member
  add_member-IsFilled k l b [] h = (append-filled [] b, tt)
  add_member-IsFilled k l b (g ∷ gs) (e, h) = elim (Bool-cases (str_eq g.key k)) [
    | inl p ↦ rw p (append-filled g.members b, h)
    | inr p ↦ rw p (e, add_member-IsFilled k l b gs h)
  ]

-- What a walk over the elements finds under a key.
unfoldable pub picked {ℓ κ} :
    {A : Type ℓ} {B : Type κ} → (A → Labels) → (A → B) → Str → List A → List B
picked labels value k [] = []
picked labels value k (a ∷ as_) =
    (if str_eq (to_string (labels a)) k then value a ∷ [] else []) ++ picked labels value k as_

module _ {ℓ κ} {A : Type ℓ} {B : Type κ} (labels : A → Labels) (value : A → B) where
  pub group_by-IsGroups :
      (gs : List (Group B)) (as_ : List A) → IsGroups gs → IsGroups (group_by labels value gs as_)
  unfolding group_by
  group_by-IsGroups gs [] h = h
  group_by-IsGroups gs (a ∷ as_) (d, k, f) =
      group_by-IsGroups (add_member (to_string (labels a)) (labels a) (value a) gs) as_ (
        add_member-IsDistinct (to_string (labels a)) (labels a) (value a) gs d,
        add_member-HasKey (labels a) (value a) gs k,
        add_member-IsFilled (to_string (labels a)) (labels a) (value a) gs f,
      )

  pub group_by-members :
      (k : Str) (gs : List (Group B)) (as_ : List A)
      → members_of k (group_by labels value gs as_) ≡ members_of k gs ++ picked labels value k as_
  unfolding group_by picked
  group_by-members k gs [] = sym (append-nil (members_of k gs))
  group_by-members k gs (a ∷ as_) =
      group_by-members k (add_member (to_string (labels a)) (labels a) (value a) gs) as_
      ∙ ap (λ q. q ++ picked labels value k as_)
          (add_member-members k (to_string (labels a)) (labels a) (value a) gs)
      ∙ append_assoc (members_of k gs)
          (if str_eq (to_string (labels a)) k then value a ∷ [] else []) (picked labels value k as_)
