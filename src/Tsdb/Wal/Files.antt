-- ===== src/Tsdb/Wal/Files.antt =====
-- The files that the log's append side leaves (internal/tsdb/wal.go, writeRecord, roll), and what
-- `replayWAL` makes of files of whole records.
use omni_metrics.Prelude.{
  ℕ, List, [], ◌∷◌, ◌++◌, Bool, false, none, some, ◌≡◌, refl, ap, sym, ◌∙◌, arith, Bool-cases, inl,
  inr, length, take, Str, All, leb, take-append,
}
use mathlib.Core.List.{append_assoc, append-nil}
use omni_metrics.Tsdb.Record.{done}
use omni_metrics.Tsdb.Head.{Head}
use omni_metrics.Tsdb.Wal.{
  Wal, frame, finished, roll, append_frame, write_record, disk, replay_segment, after_segment,
  replay_wal,
}
use omni_metrics.Tsdb.Wal.Recovery.{replay_segment_torn}
use omni_metrics.Tsdb.Wal.Layout.{LogRecord, frames, apply_all, Fits, done_inj, apply_all_cons}

-- Files of whole records, and the records in their order.
unfoldable pub each_frames : List (List LogRecord) → List Str
each_frames [] = []
each_frames (c ∷ cs) = frames c ∷ each_frames cs

unfoldable pub all_records : List (List LogRecord) → List LogRecord
all_records [] = []
all_records (c ∷ cs) = c ++ all_records cs

-- The log's files hold these records, none cut: the full segments and the open one.
pub record Holds (w : Wal) (rs : List LogRecord) : Type 0 where
  pub old : List (List LogRecord)
  pub last : List LogRecord
  pub full_files : w.full ≡ each_frames old
  pub open_file : w.cur ≡ frames last
  pub records : rs ≡ all_records old ++ last

-- A log whose one file is empty holds nothing.
pub empty-Holds :
    (size seq most : ℕ)
    → Holds (record { full = []; cur = []; cur_size = size; seq = seq; max_seg_size = most }) []
unfolding each_frames frames all_records
empty-Holds size seq most = record {
  old = [];
  last = [];
  full_files = refl;
  open_file = refl;
  records = refl;
}

frames-append : (xs ys : List LogRecord) → frames (xs ++ ys) ≡ frames xs ++ frames ys
unfolding frames
frames-append [] ys = refl
frames-append (x ∷ xs) ys =
    ap (λ q. frame x.typ x.payload ++ q) (frames-append xs ys)
    ∙ sym (append_assoc (frame x.typ x.payload) (frames xs) (frames ys))

each_frames-append :
    (xs ys : List (List LogRecord)) → each_frames (xs ++ ys) ≡ each_frames xs ++ each_frames ys
unfolding each_frames
each_frames-append [] ys = refl
each_frames-append (x ∷ xs) ys = ap (λ q. frames x ∷ q) (each_frames-append xs ys)

all_records-append :
    (xs ys : List (List LogRecord)) → all_records (xs ++ ys) ≡ all_records xs ++ all_records ys
unfolding all_records
all_records-append [] ys = refl
all_records-append (x ∷ xs) ys =
    ap (λ q. x ++ q) (all_records-append xs ys)
    ∙ sym (append_assoc x (all_records xs) (all_records ys))

All-split : (xs ys : List LogRecord) → All Fits (xs ++ ys) → All Fits xs × All Fits ys
All-split [] ys h = (tt, h)
All-split (x ∷ xs) ys (a, h) = let (b, c) = All-split xs ys h in ((a, b), c)

apply_all-append :
    (can_make : ℕ → Bool) (xs ys : List LogRecord) (h h' : Head)
    → apply_all can_make (xs ++ ys) h ≡ done h'
    → (h₁ : Head) × (apply_all can_make xs h ≡ done h₁) × (apply_all can_make ys h₁ ≡ done h')
unfolding apply_all
apply_all-append can_make [] ys h h' e = (h, refl, e)
apply_all-append can_make (x ∷ xs) ys h h' e =
    let (h₀, now, then_) = apply_all_cons can_make x (xs ++ ys) h h' e in
    let (h₁, a, b) = apply_all-append can_make xs ys h₀ h' then_ in (h₁, rw now a, b)

take_whole : (s : Str) → take (length s) s ≡ s
take_whole s = ap (take (length s)) (sym (append-nil s)) ∙ take-append (length s) s [] refl

nothing : LogRecord
nothing = record { typ = 0; payload = [] }

replay_segment_whole :
    (can_make : ℕ → Bool) (rs : List LogRecord) (h h' : Head)
    → All Fits rs
    → apply_all can_make rs h ≡ done h'
    → replay_segment can_make (frames rs) h
      ≡ finished (record { head = h'; stopped = false; error = none; valid = length (frames rs) })
unfolding frame nothing
replay_segment_whole can_make rs h h' f a =
    ap (λ q. replay_segment can_make q h) (sym (append-nil (frames rs)))
    ∙ replay_segment_torn can_make rs nothing 0 h h' f (omega arith) (omega arith) a

-- Files of whole records, each applicable in its turn: replay applies all of them, reports no
-- error and leaves the files as they are.
pub replay_wal_whole :
    (can_make : ℕ → Bool) (cs : List (List LogRecord)) (h h' : Head)
    → All Fits (all_records cs)
    → apply_all can_make (all_records cs) h ≡ done h'
    → replay_wal can_make (each_frames cs) h
      ≡ some (record { head = h'; error = none; files = each_frames cs })
unfolding each_frames all_records replay_wal after_segment
replay_wal_whole can_make [] h h' f a =
    ap (λ (g : Head). some (record { head = g; error = none; files = [] }))
      (done_inj h h' (unfold apply_all in a))
replay_wal_whole can_make (c ∷ cs) h h' f a =
    let (h₁, now, then_) = apply_all-append can_make c (all_records cs) h h' a in
    let (fits, later) = All-split c (all_records cs) f in
    rw (replay_segment_whole can_make c h h₁ fits now) (
      rw (replay_wal_whole can_make cs h₁ h' later then_) (
        ap (λ (q : Str). some (record { head = h'; error = none; files = q ∷ each_frames cs }))
          (take_whole (frames c))))

roll-Holds : (w : Wal) (rs : List LogRecord) → Holds w rs → Holds (roll w) rs
unfolding roll
roll-Holds w rs s = record {
  old = s.old ++ (s.last ∷ []);
  last = [];
  full_files =
      ap (λ (q : List Str). q ++ (w.cur ∷ [])) s.full_files
      ∙ ap (λ (q : Str). each_frames s.old ++ (q ∷ [])) s.open_file
      ∙ unfold each_frames in sym (each_frames-append s.old (s.last ∷ []));
  open_file = unfold frames in refl;
  records =
      s.records
      ∙ sym (
          append-nil (all_records (s.old ++ (s.last ∷ [])))
          ∙ all_records-append s.old (s.last ∷ [])
          ∙ unfold all_records in ap (λ q. all_records s.old ++ q) (append-nil s.last));
}

add-Holds :
    (typ : ℕ) (payload : Str) (w : Wal) (rs : List LogRecord)
    → Holds w rs
    → Holds
        (append_frame (frame typ payload) w)
        (rs ++ (record { typ = typ; payload = payload } ∷ []))
unfolding append_frame
add-Holds typ payload w rs s = record {
  old = s.old;
  last = s.last ++ (record { typ = typ; payload = payload } ∷ []);
  full_files = s.full_files;
  open_file =
      ap (λ (q : Str). q ++ frame typ payload) s.open_file
      ∙ sym (
          frames-append s.last (record { typ = typ; payload = payload } ∷ [])
          ∙ ap (λ q. frames s.last ++ q) (unfold frames in append-nil (frame typ payload)));
  records =
      ap (λ q. q ++ (record { typ = typ; payload = payload } ∷ [])) s.records
      ∙ append_assoc (all_records s.old) s.last (record { typ = typ; payload = payload } ∷ []);
}

-- A record that is written stands behind the others, whether or not the segment was full.
pub write-Holds :
    (typ : ℕ) (payload : Str) (w : Wal) (rs : List LogRecord)
    → Holds w rs
    → Holds (write_record typ payload w) (rs ++ (record { typ = typ; payload = payload } ∷ []))
unfolding write_record
write-Holds typ payload w rs s = elim (Bool-cases (leb w.max_seg_size w.cur_size)) [
  | inl e ↦ rw e (add-Holds typ payload (roll w) rs (roll-Holds w rs s))
  | inr e ↦ rw e (add-Holds typ payload w rs s)
]

-- The files of an unharmed log are read back whole: replay applies every record, reports no error
-- and leaves the files as they are. The records have payloads below 4 GiB and can be applied in
-- their turn.
pub replay_wal-disk :
    (can_make : ℕ → Bool) (w : Wal) (rs : List LogRecord) (h h' : Head)
    → Holds w rs
    → All Fits rs
    → apply_all can_make rs h ≡ done h'
    → replay_wal can_make (disk w) h ≡ some (record { head = h'; error = none; files = disk w })
replay_wal-disk can_make w rs h h' s f a =
    let cs = s.old ++ (s.last ∷ []) in
    let on_disk : disk w ≡ each_frames cs =
      ap (λ (q : List Str). q ++ (w.cur ∷ [])) s.full_files
      ∙ ap (λ (q : Str). each_frames s.old ++ (q ∷ [])) s.open_file
      ∙ unfold each_frames in sym (each_frames-append s.old (s.last ∷ [])) in
    let all : rs ≡ all_records cs =
      s.records
      ∙ sym (
          all_records-append s.old (s.last ∷ [])
          ∙ unfold all_records in ap (λ q. all_records s.old ++ q) (append-nil s.last)) in
    rw on_disk (replay_wal_whole can_make cs h h' (rw all at f) (rw all at a))
