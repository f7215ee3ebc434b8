-- ===== src/Tsdb/Wal/Restart.antt =====
-- Replaying a log twice (internal/tsdb/wal.go): recovery cuts a segment so that the next start
-- reads the same records and meets no error.
use omni_metrics.Prelude.{
  ℕ, zero, suc, ◌+◌, ◌-◌, ◌≤◌, List, [], ◌∷◌, Bool, true, false, Option, none, some, ◌≡◌, refl, ap,
  sym, ◌∙◌, arith, inl, inr, ◌⊎◌, length, take, drop, Str, length-drop, length-take_le, take-take,
  drop-take,
}
use mathlib.Core.Path.{subst}
use omni_metrics.Tsdb.Binary.{get_be32}
use omni_metrics.Tsdb.Head.{Head}
use omni_metrics.Tsdb.Wal.{
  WalError, Replayed, Replay, finished, crashed, out_of_fuel, first_byte, replay_from,
  replay_segment, Recovered, after_segment, replay_wal, with_file,
}
use omni_metrics.Tsdb.Wal.Rounds.{Reads, round, get_be32-take, replay_step}

first_byte-take : (k : ℕ) (xs : Str) → 1 ≤ k → first_byte (take k xs) ≡ first_byte xs
first_byte-take zero xs h = absurd (omega arith)
first_byte-take (suc k) [] h = refl
first_byte-take (suc k) (x ∷ xs) h = refl

-- A cut behind a record leaves the record readable.
Reads-take :
    (can_make : ℕ → Bool) (rest : Str) (h : Head) (n : ℕ) (h' : Head) (k : ℕ)
    → Reads can_make rest h n h'
    → n + 9 ≤ k
    → k ≤ length rest
    → Reads can_make (take k rest) h n h'
Reads-take can_make rest h n h' k r low high = record {
  size = rw size_cut r.size;
  fits = omega (arith, length-take_le k rest high);
  intact = rw payload_cut (rw sum_cut r.intact);
  applied = rw (first_byte-take k rest (omega arith)) (rw payload_cut r.applied);
}
  where
    size_cut : get_be32 (drop 1 (take k rest)) ≡ get_be32 (drop 1 rest)
    size_cut =
        ap get_be32 (drop-take 1 (k - 1) k rest (omega arith))
        ∙ get_be32-take (k - 1) (drop 1 rest) (omega arith)

    payload_cut : take n (drop 5 (take k rest)) ≡ take n (drop 5 rest)
    payload_cut =
        ap (take n) (drop-take 5 (k - 5) k rest (omega arith))
        ∙ take-take n (k - 5) (drop 5 rest) (omega arith)

    sum_cut : get_be32 (drop (n + 5) (take k rest)) ≡ get_be32 (drop (n + 5) rest)
    sum_cut =
        ap get_be32 (drop-take (n + 5) (k - (n + 5)) k rest (omega arith))
        ∙ get_be32-take (k - (n + 5)) (drop (n + 5) rest) (omega arith)

abbrev pub clean : Replayed → Replayed
clean r = record { head = r.head; stopped = false; error = none; valid = r.valid }

-- What a second replay of the kept bytes does.
abbrev Again : (ℕ → Bool) → Str → ℕ → Head → Replayed → Type 0
Again can_make rest valid h r =
    (k : ℕ) × (r.valid ≡ valid + k)
    × (k ≤ length rest)
    × ((fuel : ℕ)
        → length (take k rest) ≤ fuel
        → replay_from can_make fuel (take k rest) valid h ≡ finished (clean r))

Again-stop :
    (can_make : ℕ → Bool) (rest : Str) (valid : ℕ) (h : Head) (r : Replayed)
    → h ≡ r.head
    → valid ≡ r.valid
    → Again can_make rest valid h r
unfolding replay_from
Again-stop can_make rest valid h r e f =
    (0, omega arith, omega arith, λ fuel k. ground (arith, e, f))

finished_inj : (a b : Replayed) → finished a ≡ finished b → a ≡ b
finished_inj a b e = cc

again :
    (can_make : ℕ → Bool) (fuel : ℕ) (rest : Str) (valid : ℕ) (h : Head) (r : Replayed)
    → replay_from can_make fuel rest valid h ≡ finished r
    → Again can_make rest valid h r
unfolding replay_from
again can_make fuel [] valid h r e = Again-stop can_make [] valid h r (ground arith) (ground arith)
again can_make zero (b ∷ bs) valid h r e = absurd (cc)
again can_make (suc fuel) (b ∷ bs) valid h r e =
    elim (round can_make (replay_from can_make fuel) (b ∷ bs) valid h) [
      | inl (w, x) ↦ Again-stop can_make (b ∷ bs) valid h r (ground (arith, x)) (ground (arith, x))
      | inr (inl x) ↦ absurd (cc (x))
      | inr (inr (n, h', reads, x)) ↦
          let (k, v, low, redo) =
            again can_make fuel (drop (n + 9) (b ∷ bs)) (valid + (n + 9)) h' r (sym x ∙ e) in
          let fits : n + 9 + k ≤ length (b ∷ bs) =
            omega (arith, low, length-drop (n + 9) (b ∷ bs), reads.fits) in
          let cut = drop-take (n + 9) k (n + 9 + k) (b ∷ bs) refl in
          (
            n + 9 + k,
            omega (arith, v),
            fits,
            λ f room.
                replay_step can_make f (take (n + 9 + k) (b ∷ bs)) valid h n h' (finished (clean r))
                  (Reads-take can_make (b ∷ bs) h n h' (n + 9 + k) reads (omega arith) fits) room
                  (λ f' low'. rw cut (redo f' (rw cut at low'))),
          )
    ]

-- Whatever bytes a segment holds: after a replay that finished, with an error or without, the file
-- is cut to `valid` bytes, and replaying what is left gives the same head, reads it to its end and
-- meets no error.
pub replay_segment_again :
    (can_make : ℕ → Bool) (segment : Str) (h : Head) (r : Replayed)
    → replay_segment can_make segment h ≡ finished r
    → (r.valid ≤ length segment)
      × (replay_segment can_make (take r.valid segment) h ≡ finished (clean r))
unfolding replay_segment
replay_segment_again can_make segment h r e =
    let (k, v, low, redo) = again can_make (length segment) segment 0 h r e in
    let same : r.valid ≡ k = omega (arith, v) in
    (
      omega arith,
      subst
          (λ (j : ℕ).
            replay_from can_make (length (take j segment)) (take j segment) 0 h
            ≡ finished (clean r))
          (sym same) (redo (length (take k segment)) (omega arith)),
    )

-- The walk over the files.
after_clean :
    (can_make : ℕ → Bool) (seg : Str) (later : List Str) (h : Head) (r : Replayed)
    (on : Option Recovered)
    → replay_segment can_make seg h ≡ finished r
    → r.error ≡ none
    → r.stopped ≡ false
    → replay_wal can_make later r.head ≡ on
    → replay_wal can_make (seg ∷ later) h ≡ with_file (take r.valid seg) on
unfolding replay_wal after_segment
after_clean can_make seg later h r on e₁ e₂ e₃ e₄ = rw e₁ (rw e₂ (rw e₃ (rw e₄)))

-- Reading a cut file again, and then the files behind it.
again_clean :
    (can_make : ℕ → Bool) (seg : Str) (later : List Str) (h : Head) (r : Replayed)
    (on : Option Recovered)
    → replay_segment can_make seg h ≡ finished r
    → replay_wal can_make later r.head ≡ on
    → replay_wal can_make (take r.valid seg ∷ later) h ≡ with_file (take r.valid seg) on
again_clean can_make seg later h r on e f =
    after_clean can_make (take r.valid seg) later h (clean r) on
      (replay_segment_again can_make seg h r e).1 refl refl f
    ∙ ap (λ q. with_file q on) (take-take r.valid r.valid seg (omega arith))

-- What the walk makes of one file, by how its replay ended.
Walk : (ℕ → Bool) → Str → List Str → Head → Option Recovered → Type 0
Walk can_make seg later h x =
    (x ≡ none)
    ⊎ ((r : Replayed) × (replay_segment can_make seg h ≡ finished r)
        × (((e : WalError) × (r.error ≡ some e)
              × (x
                  ≡ some (record { head = r.head; error = some e; files = take r.valid seg ∷ [] })))
            ⊎ (((r.error ≡ none)
                  × (r.stopped ≡ true)
                  × (x
                      ≡ some (record {
                        head = r.head;
                        error = none;
                        files = take r.valid seg ∷ later;
                      })))
                ⊎ ((r.error ≡ none)
                    × (r.stopped ≡ false)
                    × (x ≡ with_file (take r.valid seg) (replay_wal can_make later r.head))))))

Walk-finished :
    (can_make : ℕ → Bool) (seg : Str) (later : List Str) (h : Head) (r : Replayed)
    (error : Option WalError) (stopped : Bool)
    → replay_segment can_make seg h ≡ finished r
    → r.error ≡ error
    → r.stopped ≡ stopped
    → Walk can_make seg later h (after_segment seg later (replay_wal can_make later) (finished r))
unfolding Walk after_segment
Walk-finished can_make seg later h r (some e) stopped f g s = inr (r, f, inl (e, g, rw g))
Walk-finished can_make seg later h r none true f g s = inr (r, f, inr (inl (g, s, rw g (rw s))))
Walk-finished can_make seg later h r none false f g s = inr (r, f, inr (inr (g, s, rw g (rw s))))

Walk-replay :
    (can_make : ℕ → Bool) (seg : Str) (later : List Str) (h : Head) (x : Replay)
    → replay_segment can_make seg h ≡ x
    → Walk can_make seg later h (after_segment seg later (replay_wal can_make later) x)
unfolding Walk after_segment
Walk-replay can_make seg later h crashed f = inl refl
Walk-replay can_make seg later h out_of_fuel f = inl refl
Walk-replay can_make seg later h (finished r) f =
    Walk-finished can_make seg later h r r.error r.stopped f refl refl

walk :
    (can_make : ℕ → Bool) (seg : Str) (later : List Str) (h : Head)
    → Walk can_make seg later h (replay_wal can_make (seg ∷ later) h)
unfolding replay_wal
walk can_make seg later h = Walk-replay can_make seg later h (replay_segment can_make seg h) refl

with_file-some :
    (s : Str) (o : Option Recovered) (w : Recovered)
    → with_file s o ≡ some w
    → (w' : Recovered) × (o ≡ some w') × (w ≡ record w' { files = s ∷ w'.files })
with_file-some s none w e = absurd (cc)
with_file-some s (some w') w e = (w', refl, ground arith)

-- After a start that met corruption, the next start reads the files that are left, reaches the same
-- head, reports no error and leaves the files as they are: the later segments are gone.
pub replay_wal_again :
    (can_make : ℕ → Bool) (files : List Str) (h : Head) (w : Recovered) (e : WalError)
    → replay_wal can_make files h ≡ some w
    → w.error ≡ some e
    → replay_wal can_make w.files h ≡ some (record { head = w.head; error = none; files = w.files })
unfolding replay_wal Walk
replay_wal_again can_make [] h w e f g = ground arith
replay_wal_again can_make (seg ∷ later) h w e f g = elim (walk can_make seg later h) [
  | inl n ↦ absurd (cc (n, f))
  | inr (r, s, inl (e', g', x)) ↦
      let it : w ≡ record { head = r.head; error = some e'; files = take r.valid seg ∷ [] } =
        ground (arith, x, f) in
      rw it (again_clean can_make seg [] h r _ s refl)
  | inr (r, s, inr (inl (g₁, g₂, x))) ↦ ground (arith, x, f, g)
  | inr (r, s, inr (inr (g₁, g₂, x))) ↦
      let (w', o, q) = with_file-some (take r.valid seg) _ w (sym x ∙ f) in
      let error : w'.error ≡ some e = ground (arith, q, g) in
      rw q (
        again_clean can_make seg w'.files h r _ s
          (replay_wal_again can_make later r.head w' e o error))
]

-- A torn segment that is not the last one: the first start stops there and keeps the later
-- segments, and the next start, whose file is cut clean, goes on and applies them.
pub replay_wal_torn :
    (can_make : ℕ → Bool) (seg : Str) (later : List Str) (h : Head) (r : Replayed)
    → replay_segment can_make seg h ≡ finished r
    → r.error ≡ none
    → r.stopped ≡ true
    → (replay_wal can_make (seg ∷ later) h
        ≡ some (record { head = r.head; error = none; files = take r.valid seg ∷ later }))
      × (replay_wal can_make (take r.valid seg ∷ later) h
          ≡ with_file (take r.valid seg) (replay_wal can_make later r.head))
unfolding replay_wal
replay_wal_torn can_make seg later h r s e t =
    (rw s (unfold after_segment in rw e (rw t)), again_clean can_make seg later h r _ s refl)
