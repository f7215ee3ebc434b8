-- ===== src/Tsdb/Record/RoundTrip.antt =====
-- Reading back the log's payloads (internal/tsdb/wal.go): `decodeSeries` after `encodeSeries`, and
-- `decodeSamples` after `encodeSamples`.
use omni_metrics.Prelude.{
  ℕ, suc, ◌+◌, ◌^◌, ◌≤◌, ◌<◌, List, [], ◌∷◌, ◌++◌, Bool, true, none, ◌≡◌, refl, ap, ◌∙◌, arith,
  length, Str, All, length-append,
}
use mathlib.Core.List.{append_assoc, append-nil}
use omni_metrics.Model.Labels.{Label, Labels, from_strings, pair_up}
use omni_metrics.Model.Labels.Normal.{IsNormal}
use omni_metrics.Model.Labels.Canonical.{normalize_of_IsNormal}
use omni_metrics.Tsdb.Binary.{put_uvarint, put_varint, put_le, IsU64, IsI64, length-put_uvarint}
use omni_metrics.Tsdb.Record.{
  RefSample, done, Decoder, start, read_uvarint, read_varint, read_fixed64, read_str, put_str,
  put_labels, encode_series, read_pairs, finish_series, decode_series, put_samples, encode_samples,
  read_samples, decode_samples,
}
use omni_metrics.Tsdb.Record.Reading.{
  clean, read_uvarint-put, read_varint-put, read_fixed64-put, length-put_str, read_str-put,
}

-- The flat names and values that `FromStrings` takes.
abbrev flat : Labels → List Str
flat [] = []
flat (l ∷ ls) = l.name ∷ l.value ∷ flat ls

pair_up-flat : (ls : Labels) → pair_up (flat ls) ≡ ls
unfolding pair_up
pair_up-flat [] = refl
pair_up-flat (l ∷ ls) = ap (λ r. l ∷ r) (pair_up-flat ls)

put_labels-cons :
    (l : Label) (ls : Labels) (r : Str)
    → put_labels (l ∷ ls) ++ r ≡ put_str l.name ++ (put_str l.value ++ (put_labels ls ++ r))
unfolding put_labels
put_labels-cons l ls r = simp append_assoc

length-put_labels : (ls : Labels) → length ls ≤ length (put_labels ls)
unfolding put_labels
length-put_labels [] = omega arith
length-put_labels (l ∷ ls) = omega (
  arith,
  length-append (put_str l.name) (put_str l.value ++ put_labels ls),
  length-append (put_str l.value) (put_labels ls),
  length-put_str l.name,
  length-put_uvarint (length l.name),
  length-put_labels ls,
)

read_pairs_step :
    (n : ℕ) (d d₁ d₂ d₃ : Decoder) (name value : Str) (pairs : List Str)
    → read_str d ≡ done (name, d₁)
    → read_str d₁ ≡ done (value, d₂)
    → read_pairs n d₂ ≡ done (pairs, d₃)
    → read_pairs (suc n) d ≡ done (name ∷ value ∷ pairs, d₃)
unfolding read_pairs
read_pairs_step n d d₁ d₂ d₃ name value pairs e₁ e₂ e₃ = rw e₁ (rw e₂ (rw e₃))

read_pairs-put :
    (ls : Labels) (r : Str) (i : ℕ)
    → i + length (put_labels ls ++ r) < 2 ^ 63
    → read_pairs (length ls) (clean (put_labels ls ++ r) i)
      ≡ done (flat ls, clean r (i + length (put_labels ls)))
read_pairs-put [] r i h =
    unfold read_pairs put_labels in ap (λ j. done ([], clean r j)) (omega arith)
read_pairs-put (l ∷ ls) r i h =
    ap (λ q. read_pairs (suc (length ls)) (clean q i)) (put_labels-cons l ls r)
    ∙ read_pairs_step (length ls) _ _ _ _ l.name l.value (flat ls)
        (read_str-put l.name (put_str l.value ++ (put_labels ls ++ r)) i (omega (arith, whole)))
        (read_str-put l.value (put_labels ls ++ r) (i + length (put_str l.name))
          (omega (arith, whole, first)))
        (read_pairs-put ls r (i + length (put_str l.name) + length (put_str l.value))
          (omega (arith, whole, first, second)))
    ∙ ap (λ j. done (flat (l ∷ ls), clean r j)) (omega (arith, all, second))
  where
    whole :
        length (put_labels (l ∷ ls) ++ r)
        ≡ length (put_str l.name ++ (put_str l.value ++ (put_labels ls ++ r)))
    whole = ap length (put_labels-cons l ls r)

    first :
        length (put_str l.name ++ (put_str l.value ++ (put_labels ls ++ r)))
        ≡ length (put_str l.name) + length (put_str l.value ++ (put_labels ls ++ r))
    first = length-append (put_str l.name) _

    second :
        length (put_str l.value ++ (put_labels ls ++ r))
        ≡ length (put_str l.value) + length (put_labels ls ++ r)
    second = length-append (put_str l.value) _

    all :
        length (put_labels (l ∷ ls))
        ≡ length (put_str l.name) + (length (put_str l.value) + length (put_labels ls))
    all =
        unfold put_labels in
        omega (
          arith,
          length-append (put_str l.name) (put_str l.value ++ put_labels ls),
          length-append (put_str l.value) (put_labels ls),
        )

decode_series_step :
    (b : Str) (ref n : ℕ) (d₁ d₂ d₃ : Decoder) (pairs : List Str)
    → read_uvarint (start b) ≡ (ref, d₁)
    → read_uvarint d₁ ≡ (n, d₂)
    → d₂.error ≡ none
    → n < 2 ^ 63
    → n ≤ length b
    → read_pairs n d₂ ≡ done (pairs, d₃)
    → d₃.error ≡ none
    → decode_series b ≡ done (ref, from_strings pairs)
unfolding decode_series
decode_series_step b ref n d₁ d₂ d₃ pairs e₁ e₂ e₃ h₁ h₂ e₄ e₅ =
    rw e₁ (rw e₂ (unfold finish_series in ground (arith, e₃, e₄, e₅)))

-- The log's record of a series, read back, is the reference and the label set that went in: for a
-- uint64 reference, a sorted label set and a payload that a Go slice can hold.
pub decode_series-encode_series :
    (ref : ℕ) (l : Labels)
    → IsU64 ref
    → IsNormal l
    → length (encode_series ref l) < 2 ^ 63
    → decode_series (encode_series ref l) ≡ done (ref, l)
decode_series-encode_series ref l h n k =
    decode_series_step (encode_series ref l) ref (length l) _ (clean (put_labels l ++ []) _)
      (clean [] _) (flat l)
      (ap (λ q. read_uvarint (start q)) shape
        ∙ read_uvarint-put ref (put_uvarint (length l) ++ (put_labels l ++ [])) 0 h)
      (read_uvarint-put (length l) (put_labels l ++ []) _
        (omega (arith, sizes, length-put_labels l)))
      refl (omega (arith, sizes, length-put_labels l)) (omega (arith, sizes, length-put_labels l))
      (read_pairs-put l [] _ (omega (arith, sizes, ap (λ q. length q) (append-nil (put_labels l)))))
      refl
    ∙ ap (λ q. done (ref, q)) rebuilt
  where
    shape :
        encode_series ref l ≡ put_uvarint ref ++ (put_uvarint (length l) ++ (put_labels l ++ []))
    shape = unfold encode_series in simp append-nil

    sizes :
        length (encode_series ref l)
        ≡ length (put_uvarint ref) + (length (put_uvarint (length l)) + length (put_labels l))
    sizes =
        unfold encode_series in
        omega (
          arith,
          length-append (put_uvarint ref) (put_uvarint (length l) ++ put_labels l),
          length-append (put_uvarint (length l)) (put_labels l),
        )

    rebuilt : from_strings (flat l) ≡ l
    rebuilt = unfold from_strings in rw pair_up-flat (normalize_of_IsNormal l n)

-- What the log holds of a sample fits its fixed widths.
abbrev pub IsStorable : RefSample → Type 0
IsStorable s = IsU64 s.ref × IsI64 s.t × IsU64 s.v

put_samples-cons :
    (s : RefSample) (ss : List RefSample) (r : Str)
    → put_samples (s ∷ ss) ++ r
      ≡ put_uvarint s.ref ++ (put_varint s.t ++ (put_le 8 s.v ++ (put_samples ss ++ r)))
unfolding put_samples
put_samples-cons s ss r = simp append_assoc

read_samples_step :
    (n : ℕ) (d d₁ d₂ d₃ : Decoder) (s : RefSample) (ss : List RefSample)
    → read_uvarint d ≡ (s.ref, d₁)
    → read_varint d₁ ≡ (s.t, d₂)
    → read_fixed64 d₂ ≡ (s.v, d₃)
    → d₃.error ≡ none
    → read_samples n d₃ ≡ done ss
    → read_samples (suc n) d ≡ done (s ∷ ss)
unfolding read_samples
read_samples_step n d d₁ d₂ d₃ s ss e₁ e₂ e₃ ok e₄ = ground (arith, e₁, e₂, e₃, ok, e₄)

read_samples-put :
    (ss : List RefSample) (r : Str) (i : ℕ)
    → All IsStorable ss
    → read_samples (length ss) (clean (put_samples ss ++ r) i) ≡ done ss
read_samples-put [] r i h = unfold read_samples in refl
read_samples-put (s ∷ ss) r i ((hr, ht, hv), hs) =
    ap (λ q. read_samples (suc (length ss)) (clean q i)) (put_samples-cons s ss r)
    ∙ read_samples_step (length ss) _ _ _ _ s ss (read_uvarint-put s.ref _ i hr)
        (read_varint-put s.t _ _ ht) (read_fixed64-put s.v _ _ hv) refl (read_samples-put ss r _ hs)

decode_samples_step :
    (can_make : ℕ → Bool) (b : Str) (n : ℕ) (d : Decoder)
    → read_uvarint (start b) ≡ (n, d)
    → d.error ≡ none
    → n < 2 ^ 63
    → can_make n ≡ true
    → decode_samples can_make b ≡ read_samples n d
unfolding decode_samples
decode_samples_step can_make b n d e₁ e₂ h m = rw e₁ (ground (arith, e₂, m))

length-put_samples : (ss : List RefSample) → length ss ≤ length (put_samples ss)
unfolding put_samples
length-put_samples [] = omega arith
length-put_samples (s ∷ ss) = omega (
  arith,
  length-append (put_uvarint s.ref) (put_varint s.t ++ (put_le 8 s.v ++ put_samples ss)),
  length-append (put_varint s.t) (put_le 8 s.v ++ put_samples ss),
  length-append (put_le 8 s.v) (put_samples ss),
  length-put_uvarint s.ref,
  length-put_samples ss,
)

-- The log's record of a batch, read back, is the batch: references and float bits below 2^64,
-- timestamps of 64 bits, a payload that a Go slice can hold and a count that `make` accepts.
pub decode_samples-encode_samples :
    (can_make : ℕ → Bool) (ss : List RefSample)
    → All IsStorable ss
    → length (encode_samples ss) < 2 ^ 63
    → can_make (length ss) ≡ true
    → decode_samples can_make (encode_samples ss) ≡ done ss
decode_samples-encode_samples can_make ss h k m =
    decode_samples_step can_make (encode_samples ss) (length ss) (clean (put_samples ss ++ []) _)
      (ap (λ q. read_uvarint (start q)) shape
        ∙ read_uvarint-put (length ss) (put_samples ss ++ []) 0
            (omega (arith, sizes, length-put_samples ss)))
      refl (omega (arith, sizes, length-put_samples ss)) m
    ∙ read_samples-put ss [] _ h
  where
    shape : encode_samples ss ≡ put_uvarint (length ss) ++ (put_samples ss ++ [])
    shape = unfold encode_samples in simp append-nil

    sizes : length (encode_samples ss) ≡ length (put_uvarint (length ss)) + length (put_samples ss)
    sizes = unfold encode_samples in length-append (put_uvarint (length ss)) (put_samples ss)
