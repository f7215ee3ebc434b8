-- ===== src/Tsdb/Wal/Layout.antt =====
-- The bytes of logged records (internal/tsdb/wal.go, writeRecord) and what they do to a head.
use omni_metrics.Prelude.{
  ℕ, ◌+◌, ◌%◌, ◌^◌, ◌<◌, List, [], ◌∷◌, ◌++◌, Bool, ◌≡◌, refl, ap, sym, ◌∙◌, arith, length, take,
  drop, Str, All, length-append, take-append, drop-append,
}
use mathlib.Core.List.{append_assoc}
use omni_metrics.Tsdb.Binary.{put_be32, get_be32, get_be32-put_be32}
use omni_metrics.Tsdb.Record.{Outcome, done, failed, panicked, ◌>>=◌}
use omni_metrics.Tsdb.Head.{Head}
use omni_metrics.Tsdb.Wal.{checksum, frame, apply_record}
use omni_metrics.Tsdb.Wal.Rounds.{Reads}

pub record LogRecord : Type 0 where
  pub typ : ℕ
  pub payload : Str

-- The bytes of records in turn, and what they do to a head.
unfoldable pub frames : List LogRecord → Str
frames [] = []
frames (r ∷ rs) = frame r.typ r.payload ++ frames rs

unfoldable pub apply_all : (ℕ → Bool) → List LogRecord → Head → Outcome Head
apply_all can_make [] h = done h
apply_all can_make (r ∷ rs) h = do
  h' ← apply_record can_make r.typ r.payload h
  apply_all can_make rs h'

-- The length field holds the payload's length.
abbrev pub Fits : LogRecord → Type 0
Fits r = length r.payload < 2 ^ 32

checksum-lt : (s : Str) → checksum s < 2 ^ 32
unfolding checksum
checksum-lt s = omega arith

-- A record as the reader meets it, with any sum behind the payload.
abbrev pub laid_out : ℕ → Str → ℕ → Str → Str
laid_out typ payload sum tail =
    typ ∷ (put_be32 (length payload) ++ (payload ++ (put_be32 sum ++ tail)))

pub frame-append :
    (typ : ℕ) (payload tail : Str)
    → length payload < 2 ^ 32
    → frame typ payload ++ tail ≡ laid_out typ payload (checksum payload) tail
unfolding frame
frame-append typ payload tail h =
    ap (λ q. typ ∷ q)
      (append_assoc (put_be32 (length payload % 2 ^ 32)) (payload ++ put_be32 (checksum payload))
          tail
        ∙ ap (λ q. put_be32 (length payload % 2 ^ 32) ++ q)
            (append_assoc payload (put_be32 (checksum payload)) tail)
        ∙ ap (λ (n : ℕ). put_be32 n ++ (payload ++ (put_be32 (checksum payload) ++ tail)))
            (omega arith))

module _ (typ : ℕ) (payload : Str) (sum : ℕ) (tail : Str) (small : length payload < 2 ^ 32) where
  pub laid_size : get_be32 (drop 1 (laid_out typ payload sum tail)) ≡ length payload
  laid_size = get_be32-put_be32 (length payload) _ small

  laid_rest : drop 5 (laid_out typ payload sum tail) ≡ payload ++ (put_be32 sum ++ tail)
  unfolding put_be32
  laid_rest = refl

  pub laid_payload : take (length payload) (drop 5 (laid_out typ payload sum tail)) ≡ payload
  laid_payload = rw laid_rest (take-append (length payload) payload (put_be32 sum ++ tail) refl)

  laid_split :
      laid_out typ payload sum tail
      ≡ (typ ∷ (put_be32 (length payload) ++ payload)) ++ (put_be32 sum ++ tail)
  laid_split =
      ap (λ q. typ ∷ q)
        (sym (append_assoc (put_be32 (length payload)) payload (put_be32 sum ++ tail)))

  length-put_be32 : (n : ℕ) → length (put_be32 n) ≡ 4
  unfolding put_be32
  length-put_be32 n = refl

  pub laid_sum :
      sum < 2 ^ 32 → get_be32 (drop (length payload + 5) (laid_out typ payload sum tail)) ≡ sum
  laid_sum h =
      ap (λ q. get_be32 (drop (length payload + 5) q)) laid_split
      ∙ ap get_be32 (
          drop-append (length payload + 5) (typ ∷ (put_be32 (length payload) ++ payload))
            (put_be32 sum ++ tail)
            (omega (
              arith,
              length-append (put_be32 (length payload)) payload,
              length-put_be32 (length payload),
            )))
      ∙ get_be32-put_be32 sum tail h

  pub length-laid : length (laid_out typ payload sum tail) ≡ length payload + 9 + length tail
  length-laid = omega (
    arith,
    length-append (put_be32 (length payload)) (payload ++ (put_be32 sum ++ tail)),
    length-append payload (put_be32 sum ++ tail),
    length-append (put_be32 sum) tail,
    length-put_be32 (length payload),
    length-put_be32 sum,
  )

  pub laid_tail : drop (length payload + 9) (laid_out typ payload sum tail) ≡ tail
  laid_tail =
      ap (drop (length payload + 9)) (
        laid_split
        ∙ sym (append_assoc (typ ∷ (put_be32 (length payload) ++ payload)) (put_be32 sum) tail))
      ∙ drop-append (length payload + 9)
          ((typ ∷ (put_be32 (length payload) ++ payload)) ++ put_be32 sum) tail
          (omega (
            arith,
            length-append (typ ∷ (put_be32 (length payload) ++ payload)) (put_be32 sum),
            length-append (put_be32 (length payload)) payload,
            length-put_be32 (length payload),
            length-put_be32 sum,
          ))

  pub laid-Reads :
      (can_make : ℕ → Bool) (h h' : Head)
      → sum ≡ checksum payload
      → apply_record can_make typ payload h ≡ done h'
      → Reads can_make (laid_out typ payload sum tail) h (length payload) h'
  laid-Reads can_make h h' e a = record {
    size = laid_size;
    fits = omega (arith, length-laid);
    intact = rw laid_payload (sym e ∙ sym (laid_sum (rw e (checksum-lt payload))));
    applied = rw laid_payload a;
  }

pub done_inj : (a b : Head) → done a ≡ done b → a ≡ b
done_inj a b e = cc

pub apply_all_cons :
    (can_make : ℕ → Bool) (r : LogRecord) (rs : List LogRecord) (h h' : Head)
    → apply_all can_make (r ∷ rs) h ≡ done h'
    → (h₁ : Head) × (apply_record can_make r.typ r.payload h ≡ done h₁)
      × (apply_all can_make rs h₁ ≡ done h')
unfolding apply_all
apply_all_cons can_make r rs h h' e = first (apply_record can_make r.typ r.payload h) refl e
  where
    first :
        (o : Outcome Head)
        → apply_record can_make r.typ r.payload h ≡ o
        → (o >>= λ x. apply_all can_make rs x) ≡ done h'
        → (h₁ : Head) × (apply_record can_make r.typ r.payload h ≡ done h₁)
          × (apply_all can_make rs h₁ ≡ done h')
    first (done h₁) f g = (h₁, f, g)
    first (failed w) f g = absurd (cc)
    first panicked f g = absurd (cc)

pub All-append : (xs ys : List LogRecord) → All Fits xs → All Fits ys → All Fits (xs ++ ys)
All-append [] ys a b = b
All-append (x ∷ xs) ys (h, a) b = (h, All-append xs ys a b)
