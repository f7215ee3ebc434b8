-- ===== src/Tsdb/Db/Runs.antt =====
-- Every run of the storage engine (internal/tsdb/tsdb.go): batches that are begun, staged and then
-- committed or rolled back, against the records that the commits log.
use omni_metrics.Prelude.{
  ℕ, ◌+◌, ◌^◌, ◌<◌, List, [], ◌∷◌, ◌++◌, Bool, Option, none, some, All, ◌≡◌, refl, ap, ◌∙◌,
}
use mathlib.Core.List.{foldl}
use omni_metrics.Prelude.Int.{ℤ}
use omni_metrics.Model.Labels.{Labels}
use omni_metrics.Tsdb.Record.{done}
use omni_metrics.Tsdb.Head.{Head, new_head, acquire}
use omni_metrics.Tsdb.Head.Invariant.{new_head-IsHead}
use omni_metrics.Tsdb.Wal.{Wal, replay_wal, disk}
use omni_metrics.Tsdb.Wal.Layout.{LogRecord, apply_all, done_inj, apply_all_cons, Fits, All-append}
use omni_metrics.Tsdb.Wal.Files.{Holds, replay_wal-disk}
use omni_metrics.Tsdb.Db.{
  Appender, Db, nothing_staged, append, commit, rollback, took_ref, map_wal, log_batch,
}
use omni_metrics.Tsdb.Db.Staged.{AreNew, view, with_series}
use omni_metrics.Tsdb.Db.Durable.{IsStaged, commit-replayed, rollback-IsStaged, append-IsStaged}
use omni_metrics.Tsdb.Db.Logged.{IsCommittable, commit_records, commit-Holds, commit-Fits}

-- One engine from its empty head: the records logged so far, the state, and the open batch.
pub data Run (can_make : ℕ → Bool) (keep : ℤ) (limit : ℕ)
    : List LogRecord → Db → Appender → Type 0 where
  opened :
      (db : Db) (w : Wal)
      → db.head ≡ new_head keep limit
      → db.wal ≡ some w
      → Holds w []
      → Run can_make keep limit [] db nothing_staged
  appended :
      {rs : List LogRecord} {db : Db} {a : Appender} (l : Labels) (t : ℤ) (v : ℕ)
      → Run can_make keep limit rs db a
      → db.head.last_ref + 1 < 2 ^ 64
      → Run can_make keep limit rs (append l t v db a).1 (append l t v db a).2
  committed :
      {rs : List LogRecord} {db : Db} {a : Appender}
      → Run can_make keep limit rs db a
      → IsCommittable can_make a
      → Run can_make keep limit (rs ++ commit_records a) (commit db a).0 (commit db a).1
  rolled_back :
      {rs : List LogRecord} {db : Db} {a : Appender}
      → Run can_make keep limit rs db a
      → Run can_make keep limit rs (rollback db a).0 (rollback db a).1

replay-append :
    (can_make : ℕ → Bool) (xs ys : List LogRecord) (h h' : Head)
    → apply_all can_make xs h ≡ done h'
    → apply_all can_make (xs ++ ys) h ≡ apply_all can_make ys h'
unfolding apply_all
replay-append can_make [] ys h h' e = ap (apply_all can_make ys) (done_inj h h' e)
replay-append can_make (x ∷ xs) ys h h' e =
    let (h₁, now, then_) = apply_all_cons can_make x xs h h' e in
    rw now (replay-append can_make xs ys h₁ h' then_)

replay-Run :
    (can_make : ℕ → Bool) (keep : ℤ) (limit : ℕ) (rs : List LogRecord) (db : Db) (a : Appender)
    → Run can_make keep limit rs db a
    → (r : Head) × (apply_all can_make rs (new_head keep limit) ≡ done r) × IsStaged r db.head a
unfolding commit rollback
replay-Run can_make keep limit rs db a (opened _ w e on empty) = (
  new_head keep limit,
  unfold apply_all in refl,
  record {
    whole = rw e (new_head-IsHead keep limit);
    stored = ap view e;
    fresh = unfold AreNew in tt;
  },
)
replay-Run can_make keep limit rs db a (appended {rs = rs'} {db = db'} {a = a'} l t v run room) =
    let (r, e, s) = replay-Run can_make keep limit rs' db' a' run in
    (r, e, append-IsStaged r l t v db' a' room s)
replay-Run can_make keep limit rs db a (committed {rs = rs'} {db = db'} {a = a'} run fit) =
    let (r, e, s) = replay-Run can_make keep limit rs' db' a' run in
    let (r', e', s') = commit-replayed can_make r db' a' s fit in
    (r', replay-append can_make rs' (commit_records a') (new_head keep limit) r e ∙ e', s')
replay-Run can_make keep limit rs db a (rolled_back {rs = rs'} {db = db'} {a = a'} run) =
    let (r, e, s) = replay-Run can_make keep limit rs' db' a' run in
    (r, e, rollback-IsStaged r db' a' s)

wal-took_ref :
    (l : Labels) (t : ℤ) (v : ℕ) (db : Db) (a : Appender) (o : Option (ℕ × Bool)) (h : Head)
    → (took_ref l t v db a (o, h)).1.wal ≡ db.wal
wal-took_ref l t v db a none h = refl
wal-took_ref l t v db a (some q) h = refl

-- The files hold exactly the records of the commits.
logged :
    (can_make : ℕ → Bool) (keep : ℤ) (limit : ℕ) (rs : List LogRecord) (db : Db) (a : Appender)
    → Run can_make keep limit rs db a
    → (w : Wal) × (db.wal ≡ some w) × Holds w rs × All Fits rs
unfolding append commit rollback
logged can_make keep limit rs db a (opened _ w e on empty) = (w, on, empty, tt)
logged can_make keep limit rs db a (appended {rs = rs'} {db = db'} {a = a'} l t v run room) =
    let (w, e, s, f) = logged can_make keep limit rs' db' a' run in
    let q = acquire l db'.head in (w, wal-took_ref l t v db' a' q.0 q.1 ∙ e, s, f)
logged can_make keep limit rs db a (committed {rs = rs'} {db = db'} {a = a'} run fit) =
    let (w, e, s, f) = logged can_make keep limit rs' db' a' run in
    (
      log_batch a' w,
      ap (map_wal (log_batch a')) e,
      commit-Holds a' w rs' s,
      All-append rs' (commit_records a') f (commit-Fits can_make a' fit),
    )
logged can_make keep limit rs db a (rolled_back {rs = rs'} {db = db'} {a = a'} run) =
    logged can_make keep limit rs' db' a' run

-- After any run, from an empty log, of begun, staged, committed and rolled back batches, each
-- committed batch readable by the codec and no reference at the top of its range, the engine has a
-- log, and replaying its files into an empty head reports no error, leaves the files, and gives a
-- head that, with the series that the open batch has staged added, stores by reference exactly the
-- series, labels and samples that the live head stores.
pub Run-restart :
    (can_make : ℕ → Bool) (keep : ℤ) (limit : ℕ) (rs : List LogRecord) (db : Db) (a : Appender)
    → Run can_make keep limit rs db a
    → (w : Wal) × (db.wal ≡ some w)
      × (r : Head) × (replay_wal can_make (disk w) (new_head keep limit)
          ≡ some (record { head = r; error = none; files = disk w }))
      × (view db.head ≡ foldl with_series (view r) a.new_series)
Run-restart can_make keep limit rs db a run =
    let (w, on, s, f) = logged can_make keep limit rs db a run in
    let (r, e, st) = replay-Run can_make keep limit rs db a run in
    (w, on, r, replay_wal-disk can_make w rs (new_head keep limit) r s f e, st.stored)
