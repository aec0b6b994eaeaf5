-- ===== src/AdminApi/Retries.antt =====
-- `retry_video` of api/admin.py after the last failure that `fail_job` of api/worker_api.py records.
use vlog.Prelude.{ℕ, true, false, some, ◌≡◌, ◌≤◌, refl, ap, arith}
use vlog.Prelude.Tables.{update_key, fetch-update_key}
use vlog.WorkerApi.Schema.{Video, pending, failed, Job, Worker, Database, Moment, ok, is_owner}
use vlog.WorkerApi.Claim.{claimable}
use vlog.WorkerApi.Guards.{job_of, claim_expired}
use vlog.WorkerApi.Fail.{
  FailRequest, fail_job, set_final, set_failed, final_transaction, will_retry,
}
use vlog.WorkerApi.Failure.{video_of, closed, update_row}
use vlog.AdminApi.Jobs.{retry_video, set_pending, has_failed}

-- A failed video whose source is there is set to pending, and nothing else.
retry-db :
    (v : ℕ) (db : Database) (row : Video)
    → video_of v db ≡ some row
    → row.status ≡ failed
    → retry_video true v db
      ≡ (ok tt, record db { videos = update_key (λ (x : Video). x.id) v set_pending db.videos })
unfolding retry_video has_failed
retry-db v db row found bad = rw (found, bad, retry_video) refl

module _ (m : Moment) (k : ℕ) (d : FailRequest) (w : Worker) (db : Database) (j : Job) (row : Video)
    (found : job_of k db ≡ some j) (owner : is_owner j.worker_id w.worker_id ≡ true)
    (live : claim_expired m.now j ≡ false) (unlocked : m.locked ≡ false)
    (last : j.max_attempts ≤ j.attempt_number) (video : video_of j.video_id db ≡ some row) where
  last_attempt : will_retry d j ≡ false
  unfolding will_retry
  last_attempt = ground arith

  after_last : (fail_job m k d w db).0 ≡ final_transaction d m.now w j db
  after_last = ap (λ r. r.0) (closed m k d w db j found owner live unlocked last_attempt)

  after_last-video : video_of j.video_id (fail_job m k d w db).0 ≡ some (set_failed d row)
  unfolding final_transaction set_failed
  after_last-video = rw after_last (
      fetch-update_key (λ (v : Video). v.id) j.video_id (set_failed d) db.videos row (λ x. refl)
        video)

  after_last-job : job_of k (fail_job m k d w db).0 ≡ some (set_final d m.now j)
  unfolding final_transaction set_final
  after_last-job = rw after_last (update_row k (set_final d m.now) db j (λ x. refl) found)

  -- The owner of a job at its last attempt reports its failure within the claim, on a database that
  -- can be written, and the failed video, whose source is there, is then retried: the retry is
  -- answered with success and the video is pending, but its job is still completed, so the WHERE
  -- clause of `claim_job` excludes the job with any video.
  pub retried_in_vain :
      (i : Job) × (u : Video) × ((retry_video true j.video_id (fail_job m k d w db).0).0 ≡ ok tt)
      × (video_of j.video_id (retry_video true j.video_id (fail_job m k d w db).0).1 ≡ some u)
      × (u.status ≡ pending)
      × (job_of k (retry_video true j.video_id (fail_job m k d w db).0).1 ≡ some i)
      × ((x : Video) → claimable i x ≡ false)
  unfolding set_pending set_final set_failed claimable
  retried_in_vain =
      let next = (fail_job m k d w db).0 in
      let retried = retry-db j.video_id next (set_failed d row) after_last-video refl in
      (
        set_final d m.now j,
        set_pending (set_failed d row),
        ap (λ r. r.0) retried,
        rw retried (
            fetch-update_key (λ (v : Video). v.id) j.video_id set_pending next.videos
              (set_failed d row) (λ x. refl) after_last-video),
        refl,
        rw retried after_last-job,
        λ x. ground arith,
      )
