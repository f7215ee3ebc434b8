-- ===== src/Tsdb/Wal/Recovery.antt =====
-- Replaying what the log wrote (internal/tsdb/wal.go): a segment of whole records, one that a crash
-- cut inside its last record, and one whose record is corrupt.
use omni_metrics.Prelude.{
  ℕ, zero, suc, ◌+◌, ◌^◌, ◌≤◌, ◌<◌, List, [], ◌∷◌, ◌++◌, Bool, true, none, some, ◌≡◌, ◌≢◌, refl, ap,
  sym, ◌∙◌, arith, Bool-cases, inl, inr, ltb, length, take, drop, Str, All, length-append,
  length-take_le,
}
use mathlib.Core.List.{append_assoc, append-nil}
use omni_metrics.Tsdb.Binary.{put_be32, get_be32}
use omni_metrics.Tsdb.Record.{done}
use omni_metrics.Tsdb.Head.{Head}
use omni_metrics.Tsdb.Wal.{
  checksum, frame, crc_mismatch, Replay, finished, stop_at, replay_record, replay_from,
  replay_segment,
}
use omni_metrics.Tsdb.Wal.Rounds.{replay_step, get_be32-take}
use omni_metrics.Tsdb.Wal.Layout.{
  LogRecord, frames, apply_all, Fits, laid_out, frame-append, laid_size, laid_payload, laid_sum,
  length-laid, laid_tail, laid-Reads, done_inj, apply_all_cons,
}

-- The loop passes whole records one by one.
replay_frames :
    (can_make : ℕ → Bool) (rs : List LogRecord) (tail : Str) (h h' : Head) (fuel valid : ℕ)
    (x : Replay)
    → All Fits rs
    → apply_all can_make rs h ≡ done h'
    → length (frames rs ++ tail) ≤ fuel
    → ((fuel' : ℕ)
        → length tail ≤ fuel'
        → replay_from can_make fuel' tail (valid + length (frames rs)) h' ≡ x)
    → replay_from can_make fuel (frames rs ++ tail) valid h ≡ x
unfolding frames
replay_frames can_make [] tail h h' fuel valid x f a low next =
    let same : h ≡ h' = done_inj h h' (unfold apply_all in a) in
    ap (λ (g : Head). replay_from can_make fuel tail valid g) same
    ∙ ap (λ (n : ℕ). replay_from can_make fuel tail n h') (omega arith)
    ∙ next fuel low
replay_frames can_make (r ∷ rs) tail h h' fuel valid x (f, fs) a low next =
    let (h₁, now, then_) = apply_all_cons can_make r rs h h' a in
    let n = length r.payload in
    let whole =
      append_assoc (frame r.typ r.payload) (frames rs) tail
      ∙ frame-append r.typ r.payload (frames rs ++ tail) f in
    let size = length-laid r.typ r.payload (checksum r.payload) (frames rs ++ tail) f in
    let sizes = length-append (frame r.typ r.payload) (frames rs) in
    let framed = ap length (frame-append r.typ r.payload [] f) in
    let bare = length-laid r.typ r.payload (checksum r.payload) [] f in
    let nil = ap (λ q. length q) (append-nil (frame r.typ r.payload)) in
    rw whole (
      replay_step can_make fuel (laid_out r.typ r.payload (checksum r.payload) (frames rs ++ tail))
        valid h n h₁ x
        (laid-Reads r.typ r.payload (checksum r.payload) (frames rs ++ tail) f can_make h h₁ refl
          now)
        (rw whole at low)
        (λ fuel' low'. rw (laid_tail r.typ r.payload (checksum r.payload) (frames rs ++ tail) f) (
          replay_frames can_make rs tail h₁ h' fuel' (valid + (n + 9)) x fs then_
            (rw (laid_tail r.typ r.payload (checksum r.payload) (frames rs ++ tail) f) at low')
            (λ f'' l''.
              ap (λ (v : ℕ). replay_from can_make f'' tail v h')
                (omega (arith, sizes, framed, bare, nil))
              ∙ next f'' l''))))

torn_round :
    (can_make : ℕ → Bool) (next : Str → ℕ → Head → Replay) (t : Str) (valid n : ℕ) (h : Head)
    → (5 ≤ length t → get_be32 (drop 1 t) ≡ n)
    → length t < n + 9
    → replay_record can_make next t valid h ≡ stop_at h valid none
unfolding replay_record
torn_round can_make next t valid n h s k = elim (Bool-cases (ltb (length t) 5)) [
  | inl e ↦ rw e
  | inr e ↦ let size = s (ground arith) in rw e (ground (arith, size))
]

torn_from :
    (can_make : ℕ → Bool) (fuel j typ : ℕ) (t : Str) (valid n : ℕ) (h : Head)
    → j ≤ length t
    → (4 ≤ j → get_be32 (take j t) ≡ n)
    → j < n + 8
    → j < fuel
    → replay_from can_make fuel (typ ∷ take j t) valid h ≡ stop_at h valid none
unfolding replay_from
torn_from can_make zero j typ t valid n h a s k l = absurd (omega arith)
torn_from can_make (suc fuel) j typ t valid n h a s k l =
    torn_round can_make (replay_from can_make fuel) (typ ∷ take j t) valid n h
      (λ five. s (omega (arith, length-take_le j t a))) (omega (arith, length-take_le j t a))

torn_tail :
    (can_make : ℕ → Bool) (fuel k typ : ℕ) (payload : Str) (valid : ℕ) (h : Head)
    → length payload < 2 ^ 32
    → k < length payload + 9
    → length (take k (laid_out typ payload (checksum payload) [])) ≤ fuel
    → replay_from can_make fuel (take k (laid_out typ payload (checksum payload) [])) valid h
      ≡ finished (record { head = h; stopped = ltb 0 k; error = none; valid = valid })
torn_tail can_make fuel zero typ payload valid h f k l = unfold replay_from in refl
torn_tail can_make fuel (suc j) typ payload valid h f k l =
    let size = length-laid typ payload (checksum payload) [] f in
    let t = drop 1 (laid_out typ payload (checksum payload) []) in
    torn_from can_make fuel j typ t valid (length payload) h (omega (arith, size))
      (λ four. get_be32-take j t four ∙ laid_size typ payload (checksum payload) [] f) (omega arith)
      (omega (arith, size, length-take_le j t (omega (arith, size))))
    ∙ ground arith

-- A crash that cut the log inside its last record, or between two records (`k` is 0): replay applies
-- every whole record, reports no error, says that it stopped exactly if bytes of a cut record were
-- there, and cuts the file behind the last whole record. The records' payloads are below 4 GiB, and
-- each record can be applied in its turn.
pub replay_segment_torn :
    (can_make : ℕ → Bool) (rs : List LogRecord) (last : LogRecord) (k : ℕ) (h h' : Head)
    → All Fits rs
    → Fits last
    → k < length (frame last.typ last.payload)
    → apply_all can_make rs h ≡ done h'
    → replay_segment can_make (frames rs ++ take k (frame last.typ last.payload)) h
      ≡ finished (record { head = h'; stopped = ltb 0 k; error = none; valid = length (frames rs) })
unfolding replay_segment
replay_segment_torn can_make rs last k h h' fs f low a =
    let bare : frame last.typ last.payload
        ≡ laid_out last.typ last.payload (checksum last.payload) [] =
      sym (append-nil (frame last.typ last.payload)) ∙ frame-append last.typ last.payload [] f in
    let size = length-laid last.typ last.payload (checksum last.payload) [] f in
    replay_frames can_make rs (take k (frame last.typ last.payload)) h h' _ 0 _ fs a (omega arith)
      (λ fuel l.
        ap (λ (q : Str). replay_from can_make fuel (take k q) (0 + length (frames rs)) h') bare
        ∙ torn_tail can_make fuel k last.typ last.payload (0 + length (frames rs)) h' f
            (omega (arith, ap (λ (q : Str). length q) bare, size)) (rw bare at l)
        ∙ ap
            (λ (v : ℕ). finished (record { head = h'; stopped = ltb 0 k; error = none; valid = v }))
            (omega arith))

corrupt_round :
    (can_make : ℕ → Bool) (next : Str → ℕ → Head → Replay) (t : Str) (valid n : ℕ) (h : Head)
    → get_be32 (drop 1 t) ≡ n
    → n + 9 ≤ length t
    → checksum (take n (drop 5 t)) ≢ get_be32 (drop (n + 5) t)
    → replay_record can_make next t valid h ≡ stop_at h valid (some crc_mismatch)
unfolding replay_record
corrupt_round can_make next t valid n h s k c = ground (arith, s, c)

-- A record whose checksum does not fit its payload: replay applies the records before it, reports
-- the mismatch and cuts the file in front of it, whatever bytes follow.
pub replay_segment_corrupt :
    (can_make : ℕ → Bool) (rs : List LogRecord) (typ sum : ℕ) (payload more : Str) (h h' : Head)
    → All Fits rs
    → length payload < 2 ^ 32
    → sum < 2 ^ 32
    → sum ≢ checksum payload
    → apply_all can_make rs h ≡ done h'
    → replay_segment can_make
        (frames rs ++ (typ ∷ (put_be32 (length payload) ++ (payload ++ (put_be32 sum ++ more)))))
        h
      ≡ finished (record {
        head = h';
        stopped = true;
        error = some crc_mismatch;
        valid = length (frames rs);
      })
unfolding replay_segment
replay_segment_corrupt can_make rs typ sum payload more h h' fs f s c a =
    replay_frames can_make rs (laid_out typ payload sum more) h h' _ 0 _ fs a (omega arith)
      (λ fuel l. stops fuel l ∙ ap (λ (v : ℕ). stop_at h' v (some crc_mismatch)) (omega arith))
  where
    v : ℕ
    v = 0 + length (frames rs)

    stops :
        (fuel : ℕ)
        → length (laid_out typ payload sum more) ≤ fuel
        → replay_from can_make fuel (laid_out typ payload sum more) v h'
          ≡ stop_at h' v (some crc_mismatch)
    stops zero l = absurd (omega arith)
    stops (suc fuel) l =
        unfold replay_from in
        corrupt_round can_make (replay_from can_make fuel) (laid_out typ payload sum more) v
          (length payload) h' (laid_size typ payload sum more f)
          (omega (arith, length-laid typ payload sum more f))
          (λ e. c (
            sym (laid_sum typ payload sum more f s)
            ∙ sym e
            ∙ ap checksum (laid_payload typ payload sum more f)))
