-- ===== src/Transcoder/Recovering.antt =====
-- worker/transcoder.py: what a recovery pass makes of each job.
use vlog.Prelude.{
  ℕ, String, Bool, true, false, Option, none, some, List, [], ◌∷◌, ◌≡◌, ◌≢◌, ◌==◌, refl, ap, ◌∙◌,
  if◌then◌else◌, leb, is_some, Bool-cases, inl, inr,
}
use vlog.Prelude.Tables.{
  fetch, update_key, fetch-key, fetch-update_where, fetch-update_key, fetch-update_key_ne, set_if,
  HasUniqueKeys, HasUniqueKeys-update_where,
}
use vlog.WorkerApi.Schema.{Video, Job, Database}
use vlog.WorkerApi.Stale.{before}
use vlog.WorkerApi.Selection.{job_id}
use vlog.Transcoder.Jobs.{
  permanent, set_job, set_error, mark_job_failed, next_attempt, set_reset, reset_fetched,
  reset_job_for_retry,
}
use vlog.Transcoder.Recovery.{
  video_id, set_video, set_video_failed, set_video_pending, reset_video_to_pending, recover_one,
  recover_seen, recover_job, recover_jobs,
}

-- What recovery makes of a job: failed for good after the last attempt, else given another attempt.
abbrev pub recovered : String → String → ℕ → Job → Job
recovered worker text now j =
    if leb j.max_attempts j.attempt_number
    then set_error permanent now text j
    else set_reset worker now (next_attempt j.attempt_number) j

abbrev pub has_video : Database → Job → Bool
has_video db j = is_some (fetch video_id j.video_id db.videos)

if_same : (b : Bool) (x y : Option Job) → x ≡ y → (if b then x else x) ≡ y
if_same true x y h = h
if_same false x y h = h

is_some-set_if :
    (p : Video → Bool) (f : Video → Video) (o : Option Video) → is_some (set_if p f o) ≡ is_some o
is_some-set_if p f none = refl
is_some-set_if p f (some v) = refl

module _ (worker text : String) (now : ℕ) where
  reset_here :
      (j : Job) (db : Database)
      → fetch job_id j.id db.jobs ≡ some j
      → fetch job_id j.id (reset_job_for_retry worker now j.id db).jobs
        ≡ some (set_reset worker now (next_attempt j.attempt_number) j)
  unfolding reset_job_for_retry reset_fetched set_job set_reset
  reset_here j db h =
      rw (h, reset_fetched)
        (fetch-update_key job_id j.id (set_reset worker now (next_attempt j.attempt_number)) db.jobs
          j (λ x. refl) h)

  reset_elsewhere :
      (k i : ℕ) (db : Database)
      → k ≢ i
      → fetch job_id k (reset_job_for_retry worker now i db).jobs ≡ fetch job_id k db.jobs
  unfolding reset_job_for_retry reset_fetched set_job set_reset
  reset_elsewhere k i db ne = go (fetch job_id i db.jobs) refl
    where
      go :
          (o : Option Job)
          → fetch job_id i db.jobs ≡ o
          → fetch job_id k (reset_fetched worker now o db).jobs ≡ fetch job_id k db.jobs
      go none e = refl
      go (some j) e =
          fetch-update_key_ne job_id k j.id (set_reset worker now (next_attempt j.attempt_number))
            db.jobs (λ x. refl) (λ q. ne (q ∙ fetch-key job_id i db.jobs j e))

  one_here :
      (j : Job) (db : Database)
      → fetch job_id j.id db.jobs ≡ some j
      → fetch job_id j.id (recover_one worker text now j db).jobs
        ≡ some (recovered worker text now j)
  unfolding recover_one set_video mark_job_failed set_job set_error reset_video_to_pending
  one_here j db h = elim (Bool-cases (leb j.max_attempts j.attempt_number)) [
    | inl e ↦
        rw (e, recover_one)
          (fetch-update_key job_id j.id (set_error permanent now text) db.jobs j (λ x. refl) h)
    | inr e ↦ rw (e, recover_one) (reset_here j db h)
  ]

  one_elsewhere :
      (k : ℕ) (j : Job) (db : Database)
      → k ≢ j.id
      → fetch job_id k (recover_one worker text now j db).jobs ≡ fetch job_id k db.jobs
  unfolding recover_one set_video mark_job_failed set_job set_error reset_video_to_pending
  one_elsewhere k j db ne = elim (Bool-cases (leb j.max_attempts j.attempt_number)) [
    | inl e ↦
        rw (e, recover_one)
          (fetch-update_key_ne job_id k j.id (set_error permanent now text) db.jobs (λ x. refl) ne)
    | inr e ↦ rw (e, recover_one) (reset_elsewhere k j.id db ne)
  ]

  seen_here :
      (j : Job) (o : Option Video) (db : Database)
      → fetch job_id j.id db.jobs ≡ some j
      → fetch job_id j.id (recover_seen worker text now j o db).jobs
        ≡ some (if is_some o then recovered worker text now j else j)
  unfolding recover_seen
  seen_here j none db h = h
  seen_here j (some v) db h = one_here j db h

  pub job_here :
      (threshold : ℕ) (j : Job) (db : Database)
      → before j.last_checkpoint threshold ≡ true
      → fetch job_id j.id db.jobs ≡ some j
      → fetch job_id j.id (recover_job worker text threshold now j db).jobs
        ≡ some (if has_video db j then recovered worker text now j else j)
  unfolding recover_job
  job_here threshold j db old h =
      rw (old, recover_job) (seen_here j (fetch video_id j.video_id db.videos) db h)

  seen_elsewhere :
      (k : ℕ) (j : Job) (o : Option Video) (db : Database)
      → k ≢ j.id
      → fetch job_id k (recover_seen worker text now j o db).jobs ≡ fetch job_id k db.jobs
  unfolding recover_seen
  seen_elsewhere k j none db ne = refl
  seen_elsewhere k j (some v) db ne = one_elsewhere k j db ne

  pub job_elsewhere :
      (k threshold : ℕ) (j : Job) (db : Database)
      → k ≢ j.id
      → fetch job_id k (recover_job worker text threshold now j db).jobs ≡ fetch job_id k db.jobs
  unfolding recover_job
  job_elsewhere k threshold j db ne = elim (Bool-cases (before j.last_checkpoint threshold)) [
    | inl e ↦ rw (e, recover_job) (seen_elsewhere k j (fetch video_id j.video_id db.videos) db ne)
    | inr e ↦ rw (e, recover_job) refl
  ]

  one_videos :
      (i : ℕ) (j : Job) (db : Database)
      → is_some (fetch video_id i (recover_one worker text now j db).videos)
        ≡ is_some (fetch video_id i db.videos)
  unfolding recover_one set_video mark_job_failed set_job reset_video_to_pending reset_job_for_retry
      set_video_failed set_video_pending
  one_videos i j db = elim (Bool-cases (leb j.max_attempts j.attempt_number)) [
    | inl e ↦ rw (e, recover_one) (kept set_video_failed db.videos (λ v. refl))
    | inr e ↦ rw (e, recover_one) (go (fetch job_id j.id db.jobs))
  ]
    where
      kept :
          (f : Video → Video) (vs : List Video)
          → ((v : Video) → (f v).id ≡ v.id)
          → is_some (fetch video_id i (update_key video_id j.video_id f vs))
            ≡ is_some (fetch video_id i vs)
      kept f vs keeps =
          ap is_some (fetch-update_where video_id (λ v. v.id == j.video_id) f keeps i vs)
          ∙ is_some-set_if (λ v. v.id == j.video_id) f (fetch video_id i vs)

      go :
          (o : Option Job)
          → is_some (
              fetch video_id i (
                update_key video_id j.video_id set_video_pending
                  (reset_fetched worker now o db).videos))
            ≡ is_some (fetch video_id i db.videos)
      go none = kept set_video_pending db.videos (λ v. refl)
      go (some x) = kept set_video_pending db.videos (λ v. refl)

  seen_videos :
      (i : ℕ) (j : Job) (o : Option Video) (db : Database)
      → is_some (fetch video_id i (recover_seen worker text now j o db).videos)
        ≡ is_some (fetch video_id i db.videos)
  unfolding recover_seen
  seen_videos i j none db = refl
  seen_videos i j (some v) db = one_videos i j db

  pub job_videos :
      (i threshold : ℕ) (j : Job) (db : Database)
      → is_some (fetch video_id i (recover_job worker text threshold now j db).videos)
        ≡ is_some (fetch video_id i db.videos)
  unfolding recover_job
  job_videos i threshold j db = elim (Bool-cases (before j.last_checkpoint threshold)) [
    | inl e ↦ rw (e, recover_job) (seen_videos i j (fetch video_id j.video_id db.videos) db)
    | inr e ↦ rw (e, recover_job) refl
  ]

  one_unique :
      (j : Job) (db : Database)
      → HasUniqueKeys job_id db.jobs
      → HasUniqueKeys job_id (recover_one worker text now j db).jobs
  unfolding recover_one set_video mark_job_failed set_job set_error reset_video_to_pending
      reset_job_for_retry set_reset
  one_unique j db u = elim (Bool-cases (leb j.max_attempts j.attempt_number)) [
    | inl e ↦
        rw (e, recover_one)
          (HasUniqueKeys-update_where job_id (λ x. x.id == j.id) (set_error permanent now text)
            (λ x. refl) db.jobs u)
    | inr e ↦ rw (e, recover_one) (go (fetch job_id j.id db.jobs))
  ]
    where
      go : (o : Option Job) → HasUniqueKeys job_id (reset_fetched worker now o db).jobs
      go none = u
      go (some i) =
          HasUniqueKeys-update_where job_id (λ x. x.id == i.id)
            (set_reset worker now (next_attempt i.attempt_number)) (λ x. refl) db.jobs u

  seen_unique :
      (j : Job) (o : Option Video) (db : Database)
      → HasUniqueKeys job_id db.jobs
      → HasUniqueKeys job_id (recover_seen worker text now j o db).jobs
  unfolding recover_seen
  seen_unique j none db u = u
  seen_unique j (some v) db u = one_unique j db u

  job_unique :
      (threshold : ℕ) (j : Job) (db : Database)
      → HasUniqueKeys job_id db.jobs
      → HasUniqueKeys job_id (recover_job worker text threshold now j db).jobs
  unfolding recover_job
  job_unique threshold j db u = elim (Bool-cases (before j.last_checkpoint threshold)) [
    | inl e ↦ rw (e, recover_job) (seen_unique j (fetch video_id j.video_id db.videos) db u)
    | inr e ↦ rw (e, recover_job) u
  ]

  pub jobs_unique :
      (threshold : ℕ) (js : List Job) (db : Database)
      → HasUniqueKeys job_id db.jobs
      → HasUniqueKeys job_id (recover_jobs worker text threshold now js db).jobs
  unfolding recover_jobs
  jobs_unique threshold [] db u = u
  jobs_unique threshold (j ∷ rest) db u =
      jobs_unique threshold rest (recover_job worker text threshold now j db)
        (job_unique threshold j db u)

  pub jobs_videos :
      (i threshold : ℕ) (js : List Job) (db : Database)
      → is_some (fetch video_id i (recover_jobs worker text threshold now js db).videos)
        ≡ is_some (fetch video_id i db.videos)
  unfolding recover_jobs
  jobs_videos i threshold [] db = refl
  jobs_videos i threshold (j ∷ rest) db =
      jobs_videos i threshold rest (recover_job worker text threshold now j db)
      ∙ job_videos i threshold j db
