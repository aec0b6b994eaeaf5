-- ===== src/Transcoder/Leasing.antt =====
-- worker/transcoder.py, `get_existing_job`: the local worker's claim and those of the remote workers.
use mathlib.Core.Path.{subst}
use native.Mathlib.Decide.{ℕ_discrete}
use text.Mathlib.Text.{◌==◌ as str_eq}
use text.Mathlib.TextEquality.{eq_iff}
use vlog.Prelude.{
  ℕ, String, Bool, true, false, not, Option, none, some, List, [], ◌∷◌, ◌≡◌, ◌≢◌, ◌≤◌, ◌+◌, ◌&&◌,
  refl, sym, ap, ◌∙◌, arith, ◌==◌, is_none, find_first, Bool-cases, inl, inr, All,
}
use vlog.Prelude.Tables.{
  fetch, fetch_here, fetch_later, fetch-update_key, fetch-update_key_ne, HasUniqueKeys,
  HasUniqueKeys-update_where,
}
use vlog.WorkerApi.Schema.{Job, Database, Moment, Config, is_owner}
use vlog.WorkerApi.Guards.{job_of}
use vlog.WorkerApi.Selection.{job_id}
use vlog.WorkerApi.System.{Server, Request, run}
use vlog.WorkerApi.Guarantees.{IsForeign, run-lease}
use vlog.Transcoder.Jobs.{local_worker, set_job, is_obtainable, set_local, obtain, get_existing_job}

-- The first row that passes a test is the row with its key, and passes it.
find_first-row :
    (p : Job → Bool) (js : List Job) (j : Job)
    → HasUniqueKeys job_id js
    → find_first p js ≡ some j
    → (fetch job_id j.id js ≡ some j) × (p j ≡ true)
find_first-row p [] j u h = cc
find_first-row p (x ∷ rest) j u h = elim (Bool-cases (p x)) [
  | inl e ↦
      let same : x ≡ j = cc (first e) in
      subst (λ y. (fetch job_id y.id (x ∷ rest) ≡ some y) × (p y ≡ true)) same
        (fetch_here job_id x.id x rest refl, e)
  | inr e ↦
      let ih = find_first-row p rest j u.1 (later e) in
      (fetch_later job_id j.id x j rest u.0 ih.0, ih.1)
]
  where
    first : p x ≡ true → some x ≡ some j
    first e = ground (arith, e, h)

    later : p x ≡ false → find_first p rest ≡ some j
    later e = ground (arith, e, h)

abbrev wanted : Moment → (ℕ → Bool) → ℕ → Job → Bool
wanted m taken video j = not (taken j.id) && is_obtainable m.now video j

some_apart : {A : Type 0} → (x : A) → some x ≢ none
some_apart x e = cc

-- The two outcomes of the call.
obtained :
    (c : Config) (m : Moment) (taken : ℕ → Bool) (video : ℕ) (db : Database) (o : Option Job)
    → m.locked ≡ false
    → find_first (wanted m taken video) db.jobs ≡ o
    → get_existing_job c m taken video db ≡ obtain c m.now o db
unfolding get_existing_job
obtained c m taken video db o l e = rw (l, e) refl

refused :
    (c : Config) (m : Moment) (taken : ℕ → Bool) (video : ℕ) (db : Database)
    → m.locked ≡ true
    → get_existing_job c m taken video db ≡ (db, none)
unfolding get_existing_job
refused c m taken video db l = rw l refl

-- What the call leaves when it returns a row.
granted :
    (c : Config) (m : Moment) (taken : ℕ → Bool) (video : ℕ) (db : Database) (j : Job)
    → HasUniqueKeys job_id db.jobs
    → (get_existing_job c m taken video db).1 ≡ some j
    → (fetch job_id j.id db.jobs ≡ some j)
      × (wanted m taken video j ≡ true)
      × ((get_existing_job c m taken video db).0 ≡ set_job j.id (set_local c m.now) db)
unfolding obtain
granted c m taken video db j u h = elim (Bool-cases m.locked) [
  | inl l ↦ absurd (nothing (sym (ap (λ r. r.1) (refused c m taken video db l)) ∙ h))
  | inr l ↦
      go (find_first (wanted m taken video) db.jobs) refl (obtained c m taken video db _ l refl)
]
  where
    nothing : none ≡ some j → ⊥
    nothing e = cc

    go :
        (o : Option Job)
        → find_first (wanted m taken video) db.jobs ≡ o
        → get_existing_job c m taken video db ≡ obtain c m.now o db
        → (fetch job_id j.id db.jobs ≡ some j)
          × (wanted m taken video j ≡ true)
          × ((get_existing_job c m taken video db).0 ≡ set_job j.id (set_local c m.now) db)
    go none e r = absurd (nothing (sym (ap (λ x. x.1) r) ∙ h))
    go (some i) e r =
        let same : i ≡ j = cc (sym (ap (λ x. x.1) r) ∙ h) in
        let row = find_first-row (wanted m taken video) db.jobs i u e in
        subst
          (λ x.
            (fetch job_id x.id db.jobs ≡ some x)
            × (wanted m taken video x ≡ true)
            × ((get_existing_job c m taken video db).0 ≡ set_job x.id (set_local c m.now) db))
          same (row.0, row.1, ap (λ x. x.0) r)

ungranted :
    (c : Config) (m : Moment) (taken : ℕ → Bool) (video : ℕ) (db : Database)
    → (get_existing_job c m taken video db).1 ≡ none
    → (get_existing_job c m taken video db).0 ≡ db
unfolding obtain
ungranted c m taken video db h = elim (Bool-cases m.locked) [
  | inl l ↦ ap (λ r. r.0) (refused c m taken video db l)
  | inr l ↦ go (find_first (wanted m taken video) db.jobs) (obtained c m taken video db _ l refl)
]
  where
    go :
        (o : Option Job)
        → get_existing_job c m taken video db ≡ obtain c m.now o db
        → (get_existing_job c m taken video db).0 ≡ db
    go none r = ap (λ x. x.0) r
    go (some i) r = absurd (some_apart i (sym (ap (λ x. x.1) r) ∙ h))

names_apart : (v : String) → v ≢ local_worker → str_eq v local_worker ≡ false
names_apart v ne = elim (Bool-cases (str_eq v local_worker)) [
  | inl e ↦ absurd (ne ((eq_iff v local_worker).0 e))
  | inr e ↦ e
]

foreign_apart :
    (m : Moment) (taken : ℕ → Bool) (video t : ℕ) (j : Job) (v : String)
    → j.worker_id ≡ some v
    → v ≢ local_worker
    → j.claimed_at ≢ none
    → j.claim_expires_at ≡ some t
    → m.now ≤ t
    → wanted m taken video j ≡ true
    → ⊥
unfolding is_obtainable
foreign_apart m taken video t j v owner ne claimed expiry le w =
    let other : is_owner j.worker_id local_worker ≡ false = rw owner (names_apart v ne) in
    let held : is_none j.claimed_at ≡ false = ground (arith, claimed) in
    ground (arith, w, held, other)

-- Where job ids are unique, a row that `get_existing_job` returns was not completed, and no sequence of
-- requests to the worker API by workers of other names and of checks for offline workers, each made
-- by the end of the local claim, changes the row that the call leaves.
pub get_existing_job-leases :
    (c : Config) (m : Moment) (taken : ℕ → Bool) (video : ℕ) (s : Server) (j : Job)
    (rs : List (Moment × Request))
    → HasUniqueKeys job_id s.db.jobs
    → (get_existing_job c m taken video s.db).1 ≡ some j
    → All (IsForeign local_worker (m.now + c.claim_duration)) rs
    → (j.completed_at ≡ none)
      × (job_of j.id (run c rs (record s { db = (get_existing_job c m taken video s.db).0 })).db
          ≡ some (set_local c m.now j))
unfolding set_job set_local is_obtainable
get_existing_job-leases c m taken video s j rs u h foreign =
    let g = granted c m taken video s.db j u h in
    let after = set_job j.id (set_local c m.now) s.db in
    let unique =
      HasUniqueKeys-update_where job_id (λ x. x.id == j.id) (set_local c m.now) (λ x. refl)
        s.db.jobs u in
    let row = fetch-update_key job_id j.id (set_local c m.now) s.db.jobs j (λ x. refl) g.0 in
    (
      ground (arith, g.1),
      rw g.2 (
          run-lease c rs (record s { db = after }) local_worker j.id (m.now + c.claim_duration)
            (set_local c m.now j) unique row refl (some_apart m.now) refl foreign),
    )

-- Where job ids are unique, `get_existing_job` does not change the row of a job while the claim of a
-- worker of another name on it runs.
pub get_existing_job-keeps :
    (c : Config) (m : Moment) (taken : ℕ → Bool) (video k t : ℕ) (db : Database) (j : Job)
    (v : String)
    → HasUniqueKeys job_id db.jobs
    → job_of k db ≡ some j
    → j.worker_id ≡ some v
    → v ≢ local_worker
    → j.claimed_at ≢ none
    → j.claim_expires_at ≡ some t
    → m.now ≤ t
    → job_of k (get_existing_job c m taken video db).0 ≡ some j
unfolding set_job set_local
get_existing_job-keeps c m taken video k t db j v u found owner ne claimed expiry le =
    go (get_existing_job c m taken video db).1 refl
  where
    go :
        (o : Option Job)
        → (get_existing_job c m taken video db).1 ≡ o
        → job_of k (get_existing_job c m taken video db).0 ≡ some j
    go none e = rw (ungranted c m taken video db e) found
    go (some i) e = elim (ℕ_discrete k i.id) [
      | yes q ↦
          let g = granted c m taken video db i u e in
          let same : i ≡ j = cc (g.0, found, q) in
          absurd (
            foreign_apart m taken video t j v owner ne claimed expiry le
              (subst (λ x. wanted m taken video x ≡ true) same g.1))
      | no apart ↦
          let g = granted c m taken video db i u e in
          rw g.2 (
            fetch-update_key_ne job_id k i.id (set_local c m.now) db.jobs (λ x. refl) apart ∙ found)
    ]
