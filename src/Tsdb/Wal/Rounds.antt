-- ===== src/Tsdb/Wal/Rounds.antt =====
-- One round of the loop that replays a segment (internal/tsdb/wal.go, replaySegment).
use omni_metrics.Prelude.{
  ℕ, zero, suc, ◌+◌, ◌≤◌, [], ◌∷◌, Bool, Option, none, some, ◌≡◌, ◌≢◌, refl, ◌∙◌, arith, Bool-cases,
  inl, inr, ◌⊎◌, ltb, ◌==◌, ==_iff, length, take, drop, Str, length-drop,
}
use omni_metrics.Tsdb.Binary.{get_be32}
use omni_metrics.Tsdb.Record.{DecodeError, Outcome, done, failed, panicked}
use omni_metrics.Tsdb.Head.{Head}
use omni_metrics.Tsdb.Wal.{
  checksum, apply_record, WalError, crc_mismatch, corrupt, Replay, crashed, out_of_fuel, stop_at,
  first_byte, replay_record, replay_from,
}

-- The record that a round reads and applies.
pub record Reads (can_make : ℕ → Bool) (rest : Str) (h : Head) (n : ℕ) (h' : Head) : Type 0 where
  pub size : get_be32 (drop 1 rest) ≡ n
  pub fits : n + 9 ≤ length rest
  pub intact : checksum (take n (drop 5 rest)) ≡ get_be32 (drop (n + 5) rest)
  pub applied : apply_record can_make (first_byte rest) (take n (drop 5 rest)) h ≡ done h'

Outcome-cases :
    {A : Type 0} (o : Outcome A)
    → ((a : A) × (o ≡ done a)) ⊎ (((e : DecodeError) × (o ≡ failed e)) ⊎ (o ≡ panicked))
Outcome-cases (done a) = inl (a, refl)
Outcome-cases (failed e) = inr (inl (e, refl))
Outcome-cases panicked = inr (inr refl)

module _ (can_make : ℕ → Bool) (next : Str → ℕ → Head → Replay) (rest : Str) (valid : ℕ)
    (h : Head) where
  -- The ways that a round can end.
  abbrev Round : Replay → Type 0
  Round x =
      ((e : Option WalError) × (x ≡ stop_at h valid e))
      ⊎ ((x ≡ crashed)
          ⊎ ((n : ℕ) × (h' : Head) × Reads can_make rest h n h'
              × (x ≡ next (drop (n + 9) rest) (valid + (n + 9)) h')))

  pub round : Round (replay_record can_make next rest valid h)
  unfolding replay_record
  round = elim (Bool-cases (ltb (length rest) 5)) [
    | inl a ↦ inl (none, rw a)
    | inr a ↦ elim (Bool-cases (ltb (length rest) (get_be32 (drop 1 rest) + 9))) [
      | inl b ↦ inl (none, rw a (rw b))
      | inr b ↦
          elim (Bool-cases (
            checksum (take (get_be32 (drop 1 rest)) (drop 5 rest))
            == get_be32 (drop (get_be32 (drop 1 rest) + 5) rest))) [
              | inr c ↦ inl (some crc_mismatch, rw a (rw b (rw c)))
              | inl c ↦
                  elim (Outcome-cases (
                    apply_record can_make (first_byte rest)
                      (take (get_be32 (drop 1 rest)) (drop 5 rest)) h)) [
                        | inl (h', d) ↦ inr (
                            inr (
                              get_be32 (drop 1 rest),
                              h',
                              record {
                                size = refl;
                                fits = ground arith;
                                intact = (==_iff _ _).0 c;
                                applied = d;
                              },
                              rw a (rw b (rw c (rw d))),
                            ))
                        | inr (inl (e, d)) ↦ inl (some (corrupt e), rw a (rw b (rw c (rw d))))
                        | inr (inr d) ↦ inr (inl (rw a (rw b (rw c (rw d)))))
                      ]
            ]
    ]
  ]

  pub replay_record-Reads :
      (n : ℕ) (h' : Head)
      → Reads can_make rest h n h'
      → replay_record can_make next rest valid h ≡ next (drop (n + 9) rest) (valid + (n + 9)) h'
  unfolding replay_record
  replay_record-Reads n h' r = ground (arith, r.size, r.fits, r.intact, r.applied)

-- With a unit of fuel for each byte, the loop does not run out.
pub replay_from-ne-out_of_fuel :
    (can_make : ℕ → Bool) (fuel : ℕ) (rest : Str) (valid : ℕ) (h : Head)
    → length rest ≤ fuel
    → replay_from can_make fuel rest valid h ≢ out_of_fuel
unfolding replay_from
replay_from-ne-out_of_fuel can_make fuel [] valid h k = λ e. cc
replay_from-ne-out_of_fuel can_make zero (b ∷ bs) valid h k = absurd (omega arith)
replay_from-ne-out_of_fuel can_make (suc fuel) (b ∷ bs) valid h k =
    elim (round can_make (replay_from can_make fuel) (b ∷ bs) valid h) [
      | inl (e, x) ↦ rw x (λ p. cc)
      | inr (inl x) ↦ rw x (λ p. cc)
      | inr (inr (n, h', r, x)) ↦ rw x (
          replay_from-ne-out_of_fuel can_make fuel (drop (n + 9) (b ∷ bs)) (valid + (n + 9)) h'
            (omega (arith, length-drop (n + 9) (b ∷ bs))))
    ]

pub get_be32-take : (j : ℕ) (xs : Str) → 4 ≤ j → get_be32 (take j xs) ≡ get_be32 xs
unfolding get_be32
get_be32-take zero xs h = absurd (omega arith)
get_be32-take (suc zero) xs h = absurd (omega arith)
get_be32-take (suc (suc zero)) xs h = absurd (omega arith)
get_be32-take (suc (suc (suc zero))) xs h = absurd (omega arith)
get_be32-take (suc (suc (suc (suc j)))) [] h = refl
get_be32-take (suc (suc (suc (suc j)))) (a ∷ []) h = refl
get_be32-take (suc (suc (suc (suc j)))) (a ∷ b ∷ []) h = refl
get_be32-take (suc (suc (suc (suc j)))) (a ∷ b ∷ c ∷ []) h = refl
get_be32-take (suc (suc (suc (suc j)))) (a ∷ b ∷ c ∷ d ∷ xs) h = refl

-- A readable record is applied, whatever fuel is left for it.
pub replay_step :
    (can_make : ℕ → Bool) (fuel : ℕ) (t : Str) (valid : ℕ) (h : Head) (n : ℕ) (h' : Head)
    (x : Replay)
    → Reads can_make t h n h'
    → length t ≤ fuel
    → ((fuel' : ℕ)
        → length (drop (n + 9) t) ≤ fuel'
        → replay_from can_make fuel' (drop (n + 9) t) (valid + (n + 9)) h' ≡ x)
    → replay_from can_make fuel t valid h ≡ x
unfolding replay_from
replay_step can_make fuel [] valid h n h' x r low next = absurd (omega (arith, r.fits))
replay_step can_make zero (b ∷ bs) valid h n h' x r low next = absurd (omega arith)
replay_step can_make (suc fuel) (b ∷ bs) valid h n h' x r low next =
    replay_record-Reads can_make (replay_from can_make fuel) (b ∷ bs) valid h n h' r
    ∙ next fuel (omega (arith, length-drop (n + 9) (b ∷ bs)))
