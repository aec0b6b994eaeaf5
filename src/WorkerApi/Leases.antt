-- ===== src/WorkerApi/Leases.antt =====
-- What the lease protocol guarantees of a job row: the invariant, the lease, the attempts.
use mathlib.Core.Path.{subst}
use text.Mathlib.TextEquality.{eq_iff}
use vlog.Prelude.{
  ℕ, String, true, Option, none, some, List, ◌≡◌, ◌≢◌, ◌≤◌, refl, sym, ap, ◌∙◌, arith, is_some,
}
use vlog.Prelude.Tables.{fetch, EachRow}
use vlog.WorkerApi.Schema.{Job, Config, is_owner}
use vlog.WorkerApi.Claim.{claim_lapsed, release_claim, set_claim, clear_metadata}
use vlog.WorkerApi.Progress.{set_progress}
use vlog.WorkerApi.Complete.{set_completed}
use vlog.WorkerApi.Fail.{set_retry, set_final}
use vlog.WorkerApi.Stale.{release_job, is_overdue}
use vlog.WorkerApi.Selection.{job_id}
use vlog.WorkerApi.Protocol.{
  Move, lapse, grant, clean, report, complete, retry, give_up, sweep, Moves, stay, then, RowMoves,
  RowsMove,
}

pub record JobOk (j : Job) : Type 0 where
  pub attempts : j.attempt_number ≤ j.max_attempts
  -- While a job is not completed, it has a claim, an expiry and an owner together or none of them.
  pub dated : j.completed_at ≡ none → is_some j.claimed_at ≡ is_some j.claim_expires_at
  pub owned : j.completed_at ≡ none → is_some j.claimed_at ≡ is_some j.worker_id

-- The worker `v` holds the job, and its claim has not run out by `now`.
pub record IsLeased (now : ℕ) (v : String) (j : Job) : Type 0 where
  pub owner : j.worker_id ≡ some v
  pub claimed : j.claimed_at ≢ none
  pub unexpired : (t : ℕ) × (j.claim_expires_at ≡ some t) × (now ≤ t)

-- Attempts do not go down; the keys and the maximum stay; what is completed stays completed.
pub record Advances (j i : Job) : Type 0 where
  pub attempts : j.attempt_number ≤ i.attempt_number
  pub id : i.id ≡ j.id
  pub video : i.video_id ≡ j.video_id
  pub maximum : i.max_attempts ≡ j.max_attempts
  pub completed : j.completed_at ≢ none → i.completed_at ≢ none

Advances-trans : {j i k : Job} → Advances j i → Advances i k → Advances j k
Advances-trans a b = record {
  attempts = omega (arith, a.attempts, b.attempts);
  id = b.id ∙ a.id;
  video = b.video ∙ a.video;
  maximum = b.maximum ∙ a.maximum;
  completed = λ e. b.completed (a.completed e);
}

own_claimed :
    (j : Job) (actor : String)
    → is_owner j.worker_id actor ≡ true
    → JobOk j
    → j.completed_at ≡ none
    → is_some j.claimed_at ≡ true
own_claimed j actor owner o e = ground (arith, o.owned e)

module _ (c : Config) (now : ℕ) (actor : String) where
  Move-JobOk : {j i : Job} → Move c now actor j i → JobOk j → JobOk i
  unfolding release_claim set_claim clear_metadata set_progress set_completed set_retry set_final
      release_job
  Move-JobOk (lapse j l) o = record { attempts = o.attempts; dated = λ e. refl; owned = λ e. refl }
  Move-JobOk (grant w j a u e) o = record {
    attempts = o.attempts;
    dated = λ e. refl;
    owned = λ e. refl;
  }
  Move-JobOk (clean j a) o = record { attempts = o.attempts; dated = o.dated; owned = o.owned }
  Move-JobOk (report d j may) o = record {
    attempts = o.attempts;
    dated = λ e. own_claimed j actor may.owner o e;
    owned = o.owned;
  }
  Move-JobOk (complete j may e) o = record {
    attempts = o.attempts;
    dated = λ e. cc;
    owned = λ e. cc;
  }
  Move-JobOk (retry d j may lt) o = record {
    attempts = omega arith;
    dated = λ e. refl;
    owned = λ e. refl;
  }
  Move-JobOk (give_up d j may) o = record {
    attempts = o.attempts;
    dated = λ e. cc;
    owned = λ e. cc;
  }
  Move-JobOk (sweep j due) o = record {
    attempts = o.attempts;
    dated = λ e. refl;
    owned = λ e. refl;
  }

  Moves-JobOk : {j i : Job} → Moves c now actor j i → JobOk j → JobOk i
  Moves-JobOk stay o = o
  Moves-JobOk (then m s) o = Move-JobOk s (Moves-JobOk m o)

  -- No move of another worker applies to a leased job.
  not_owner :
      (v : String) (j : Job)
      → v ≢ actor
      → j.worker_id ≡ some v
      → is_owner j.worker_id actor ≡ true
      → ⊥
  not_owner v j ne e h = ne ((eq_iff v actor).0 (rw e at h))

  lapsed_not_leased : (v : String) (j : Job) → IsLeased now v j → claim_lapsed now j ≡ true → ⊥
  unfolding claim_lapsed
  lapsed_not_leased v j l h = ground (arith, l.unexpired.1)

  overdue_not_leased : (v : String) (j : Job) → IsLeased now v j → is_overdue now j ≡ true → ⊥
  unfolding is_overdue
  overdue_not_leased v j l h = ground (arith, l.unexpired.1)

  Move-IsLeased : {j i : Job} (v : String) → v ≢ actor → IsLeased now v j → Move c now actor j i → ⊥
  Move-IsLeased v ne l (lapse j h) = lapsed_not_leased v j l h
  Move-IsLeased v ne l (grant w j a u e) = l.claimed u
  Move-IsLeased v ne l (clean j a) = ne (cc (l.owner, a))
  Move-IsLeased v ne l (report d j may) = not_owner v j ne l.owner may.owner
  Move-IsLeased v ne l (complete j may e) = not_owner v j ne l.owner may.owner
  Move-IsLeased v ne l (retry d j may lt) = not_owner v j ne l.owner may.owner
  Move-IsLeased v ne l (give_up d j may) = not_owner v j ne l.owner may.owner
  Move-IsLeased v ne l (sweep j due) = overdue_not_leased v j l due

  Moves-IsLeased :
      {j i : Job} (v : String) → v ≢ actor → IsLeased now v j → Moves c now actor j i → j ≡ i
  Moves-IsLeased v ne l stay = refl
  Moves-IsLeased {j} v ne l (then m s) =
      let e = Moves-IsLeased v ne l m in absurd (Move-IsLeased v ne (subst (IsLeased now v) e l) s)

  Move-Advances : {j i : Job} → Move c now actor j i → Advances j i
  unfolding release_claim set_claim clear_metadata set_progress set_completed set_retry set_final
      release_job
  Move-Advances (lapse j l) = ground arith
  Move-Advances (grant w j a u e) = ground arith
  Move-Advances (clean j a) = ground arith
  Move-Advances (report d j may) = ground arith
  Move-Advances (complete j may e) = ground arith
  Move-Advances (retry d j may lt) = ground arith
  Move-Advances (give_up d j may) = ground arith
  Move-Advances (sweep j due) = ground arith

  pub Moves-Advances : {j i : Job} → Moves c now actor j i → Advances j i
  Moves-Advances stay = record {
    attempts = omega arith;
    id = refl;
    video = refl;
    maximum = refl;
    completed = λ e. e;
  }
  Moves-Advances (then m s) = Advances-trans (Moves-Advances m) (Move-Advances s)

  -- Over the whole table.
  pub RowsMove-JobOk :
      (a b : List Job) → RowsMove c now actor a b → EachRow job_id JobOk a → EachRow job_id JobOk b
  RowsMove-JobOk a b m h k y e = go (fetch job_id k a) refl (m.rows k)
    where
      go :
          (r : Option Job)
          → fetch job_id k a ≡ r
          → RowMoves c now actor r (fetch job_id k b)
          → JobOk y
      go none q none_too = cc
      go (some j) q (i, p, moves) =
          let same : i ≡ y = cc in subst JobOk same (Moves-JobOk moves (h k j q))

  pub RowsMove-IsLeased :
      (a b : List Job) (v : String) (k : ℕ) (j : Job)
      → RowsMove c now actor a b
      → v ≢ actor
      → fetch job_id k a ≡ some j
      → IsLeased now v j
      → fetch job_id k b ≡ some j
  RowsMove-IsLeased a b v k j m ne found l =
      let (i, p, moves) = subst (λ r. RowMoves c now actor r (fetch job_id k b)) found (m.rows k) in
      p ∙ ap some (sym (Moves-IsLeased v ne l moves))
