-- ===== src/Transcoder/Limits.antt =====
-- worker/transcoder.py, ProgressTracker: how often it writes, and what the job's row then holds.
use mathlib.Core.Path.{subst}
use vlog.Prelude.{
  ℕ, String, Bool, true, false, not, Option, none, some, List, [], ◌∷◌, ◌≡◌, ◌≤◌, ◌⊎◌, ◌+◌, ◌==◌,
  ◌&&◌, refl, arith, if◌then◌else◌, Bool-cases, inl, inr,
}
use vlog.Prelude.Dicts.{get}
use vlog.Prelude.Tables.{fetch, fetch-update_key}
use vlog.WorkerApi.Schema.{Job, Database, Config}
use vlog.WorkerApi.Selection.{job_id}
use vlog.Transcoder.Jobs.{set_job, set_percent, update_job_progress}
use vlog.Transcoder.Tracker.{
  ProgressTracker, is_last, may_update, begins_job, finish_job, begins_quality, finish_quality,
  update_job, set_qualities, update_quality,
}

pub data Call : Type 0 where
  job : ℕ → Call
  quality : String → ℕ → Call

abbrev pub percent : Call → ℕ
percent (job p) = p
percent (quality n p) = p

-- One call of `update_job` or `update_quality` for the job `k`, which begins at `now` and writes at
-- `later`; every write reaches the database.
unfoldable pub call :
    Config → ℕ → ℕ → ℕ → Call → ProgressTracker → Database → (ProgressTracker × Database) × Bool
unfolding update_job update_quality
call c k now later (job p) t db = update_job c now later true k p t db
call c k now later (quality n p) t db = update_quality now k n p t db

-- Calls at their times, each of which ends before the next one begins: the state at the end.
unfoldable pub calls :
    Config → ℕ → List (ℕ × ℕ × Call) → ProgressTracker → Database → ProgressTracker × Database
unfolding call
calls c k [] t db = (t, db)
calls c k ((now, later, x) ∷ rest) t db =
    let r = call c k now later x t db in calls c k rest r.0.0 r.0.1

-- The writes, with their times and percentages.
unfoldable pub writes : Config → ℕ → List (ℕ × ℕ × Call) → ProgressTracker → Database → List (ℕ × ℕ)
unfolding call
writes c k [] t db = []
writes c k ((now, later, x) ∷ rest) t db =
    let r = call c k now later x t db in
    let others = writes c k rest r.0.0 r.0.1 in if r.1 then (now, percent x) ∷ others else others

-- Each write but those of 100 percent comes at least the interval after the one before.
abbrev pub IsLimited : ℕ → ℕ → List (ℕ × ℕ) → Type 0
IsLimited interval last [] = Unit
IsLimited interval last ((now, p) ∷ rest) =
    ((p ≡ 100) ⊎ (last + interval ≤ now)) × IsLimited interval now rest

-- What the tracker takes for the job's progress is in the job's row.
abbrev pub Agrees : Option ℕ → Option Job → Type 0
Agrees none o = Unit
Agrees (some p) none = ⊥
Agrees (some p) (some j) = j.progress_percent ≡ p

may :
    (now p : ℕ) (t : ProgressTracker)
    → may_update now p t ≡ true
    → (p ≡ 100) ⊎ (t.last_update_time + t.min_interval ≤ now)
unfolding may_update
may now p t h = elim (Bool-cases (p == 100)) [
  | inl e ↦ inl (ground (arith, e))
  | inr e ↦ inr (ground (arith, h, e))
]

-- What one call does to the times.
pub record Called (now : ℕ) (x : Call) (t : ProgressTracker)
    (r : (ProgressTracker × Database) × Bool) : Type 0 where
  pub interval : r.0.0.min_interval ≡ t.min_interval
  pub wrote :
      r.1 ≡ true
      → (r.0.0.last_update_time ≡ now)
        × ((percent x ≡ 100) ⊎ (t.last_update_time + t.min_interval ≤ now))
  pub kept : r.1 ≡ false → r.0.0.last_update_time ≡ t.last_update_time

Called-if :
    (b : Bool) (now : ℕ) (x : Call) (t u : ProgressTracker) (db db' : Database)
    → u.min_interval ≡ t.min_interval
    → u.last_update_time ≡ now
    → (b ≡ true → (percent x ≡ 100) ⊎ (t.last_update_time + t.min_interval ≤ now))
    → Called now x t (if b then ((u, db'), true) else ((t, db), false))
Called-if true now x t u db db' i l h = record {
  interval = i;
  wrote = λ e. (l, h refl);
  kept = λ e. cc;
}
Called-if false now x t u db db' i l h = record {
  interval = refl;
  wrote = λ e. cc;
  kept = λ e. refl;
}

both : (a b : Bool) → a && b ≡ true → a ≡ true
both true b h = refl
both false b h = h

call-Called :
    (c : Config) (k now later : ℕ) (x : Call) (t : ProgressTracker) (db : Database)
    → Called now x t (call c k now later x t db)
unfolding call update_job update_quality begins_job begins_quality finish_job finish_quality
call-Called c k now later (job p) t db =
    Called-if (may_update now p t && not (is_last t.last_job_progress p)) now (job p) t _ db _ refl
      refl (λ e. may now p t (both (may_update now p t) _ e))
call-Called c k now later (quality n p) t db =
    Called-if (may_update now p t && not (is_last (get n t.last_quality_progress) p)) now
      (quality n p) t _ db _ refl refl (λ e. may now p t (both (may_update now p t) _ e))

next_write :
    (now : ℕ) (x : Call) (t : ProgressTracker) (s : ProgressTracker × Database) (b : Bool)
    (later : List (ℕ × ℕ))
    → Called now x t (s, b)
    → IsLimited s.0.min_interval s.0.last_update_time later
    → IsLimited t.min_interval t.last_update_time (if b then (now, percent x) ∷ later else later)
next_write now x t s true later h l =
    let w = h.wrote refl in
    (
      w.1,
      subst (λ n. IsLimited t.min_interval n later) w.0
          (subst (λ n. IsLimited n s.0.last_update_time later) h.interval l),
    )
next_write now x t s false later h l =
    subst (λ n. IsLimited t.min_interval n later) (h.kept refl)
      (subst (λ n. IsLimited n s.0.last_update_time later) h.interval l)

writes-IsLimited :
    (c : Config) (k : ℕ) (cs : List (ℕ × ℕ × Call)) (t : ProgressTracker) (db : Database)
    → IsLimited t.min_interval t.last_update_time (writes c k cs t db)
unfolding writes
writes-IsLimited c k [] t db = tt
writes-IsLimited c k ((now, later, x) ∷ rest) t db =
    let r = call c k now later x t db in
    next_write now x t r.0 r.1 (writes c k rest r.0.0 r.0.1) (call-Called c k now later x t db)
      (writes-IsLimited c k rest r.0.0 r.0.1)

-- The row of the job is there and holds what the tracker takes it to hold.
abbrev pub Holds : ℕ → ProgressTracker → Database → Type 0
Holds k t db = (j : Job) × (fetch job_id k db.jobs ≡ some j) × Agrees t.last_job_progress (some j)

abbrev HoldsAfter : ℕ → (ProgressTracker × Database) × Bool → Type 0
HoldsAfter k r = Holds k r.0.0 r.0.1

Holds-if :
    (b : Bool) (k : ℕ) (t u : ProgressTracker) (db db' : Database)
    → Holds k t db
    → Holds k u db'
    → HoldsAfter k (if b then ((u, db'), true) else ((t, db), false))
Holds-if true k t u db db' h i = i
Holds-if false k t u db db' h i = h

call-Holds :
    (c : Config) (k now later : ℕ) (x : Call) (t : ProgressTracker) (db : Database)
    → Holds k t db
    → HoldsAfter k (call c k now later x t db)
unfolding call update_job update_quality update_job_progress set_job set_percent set_qualities
    begins_job begins_quality finish_job finish_quality
call-Holds c k now later (job p) t db h =
    Holds-if (may_update now p t && not (is_last t.last_job_progress p)) k t _ db _ h (
      set_percent c later p h.0,
      fetch-update_key job_id k (set_percent c later p) db.jobs h.0 (λ x. refl) h.1,
      refl,
    )
call-Holds c k now later (quality n p) t db h =
    Holds-if (may_update now p t && not (is_last (get n t.last_quality_progress) p)) k t _ db _ h h

calls-Holds :
    (c : Config) (k : ℕ) (cs : List (ℕ × ℕ × Call)) (t : ProgressTracker) (db : Database)
    → Holds k t db
    → Holds k (calls c k cs t db).0 (calls c k cs t db).1
unfolding calls
calls-Holds c k [] t db h = h
calls-Holds c k ((now, later, x) ∷ rest) t db h =
    let r = call c k now later x t db in
    calls-Holds c k rest r.0.0 r.0.1 (call-Holds c k now later x t db h)

-- Over calls of `update_job` and `update_quality`, at any times, each of which ends before the next
-- one begins and whose writes all reach the database, from a tracker whose last progress of the job
-- is in the job's row: each call that writes less than 100 percent begins at least the interval
-- after the beginning of the one that wrote before it, and at the end the tracker's last progress
-- of the job is still that of the row.
pub calls-IsLimited :
    (c : Config) (k : ℕ) (cs : List (ℕ × ℕ × Call)) (t : ProgressTracker) (db : Database)
    → Holds k t db
    → IsLimited t.min_interval t.last_update_time (writes c k cs t db)
      × Holds k (calls c k cs t db).0 (calls c k cs t db).1
calls-IsLimited c k cs t db h = (writes-IsLimited c k cs t db, calls-Holds c k cs t db h)
