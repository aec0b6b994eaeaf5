-- ===== src/JobState/States.antt =====
-- api/job_state.py: what `get_state` returns, against a description of each state by the row's
-- fields, and the transition checks against the state.
use vlog.Prelude.{ℕ, true, false, none, some, ◌≡◌, ◌≢◌, ◌↔◌, ◌⊎◌, ◌≤◌, ◌<◌, arith}
use vlog.JobState.Rows.{
  JobState, unclaimed, claimed, expired, completed, failed, retrying, JobRow, Mapping, row,
  from_mapping,
}
use vlog.JobState.Machine.{
  ok, value_error, get_state, is_claimed, is_failed, can_claim, can_reclaim, can_complete,
}

-- The last attempt has failed.
abbrev pub IsExhausted : JobRow → Type 0
IsExhausted r = (r.last_error ≢ none) × (r.max_attempts ≤ r.attempt_number)

-- The claim is held past `now`, or ended by `now`.
abbrev pub IsHeld : JobRow → ℕ → Type 0
IsHeld r now = (t : ℕ) × (r.claim_expires_at ≡ some t) × (now < t)

abbrev pub IsOver : JobRow → ℕ → Type 0
IsOver r now = (t : ℕ) × (r.claim_expires_at ≡ some t) × (t ≤ now)

-- A row in each state, by its fields.
abbrev pub InState : JobState → JobRow → ℕ → Type 0
InState completed r now = r.completed_at ≢ none
InState failed r now = (r.completed_at ≡ none) × IsExhausted r
InState claimed r now =
    (r.completed_at ≡ none) × ¬ IsExhausted r × (r.claimed_at ≢ none) × IsHeld r now
InState expired r now =
    (r.completed_at ≡ none) × ¬ IsExhausted r × (r.claimed_at ≢ none) × IsOver r now
InState retrying r now =
    (r.completed_at ≡ none)
    × (r.last_error ≢ none)
    × (r.attempt_number < r.max_attempts)
    × (r.claimed_at ≡ none)
InState unclaimed r now = (r.completed_at ≡ none) × (r.last_error ≡ none) × (r.claimed_at ≡ none)

-- The rows that no state describes: a claim without an expiry.
abbrev pub IsCorrupt : JobRow → Type 0
IsCorrupt r =
    (r.completed_at ≡ none) × ¬ IsExhausted r × (r.claimed_at ≢ none) × (r.claim_expires_at ≡ none)

module _ (r : JobRow) (now clock : ℕ) where
  get_state_sound : (s : JobState) → get_state (row r) (some now) clock ≡ ok s → InState s r now
  unfolding get_state
  get_state_sound completed h = ground arith
  get_state_sound failed h = ground arith
  get_state_sound claimed h = ground arith
  get_state_sound expired h = ground arith
  get_state_sound retrying h = ground arith
  get_state_sound unclaimed h = ground arith

  get_state_complete : (s : JobState) → InState s r now → get_state (row r) (some now) clock ≡ ok s
  unfolding get_state
  get_state_complete completed h = ground arith
  get_state_complete failed h = ground arith
  get_state_complete claimed h = ground arith
  get_state_complete expired h = ground arith
  get_state_complete retrying h = ground arith
  get_state_complete unclaimed h = ground arith

  -- At a given time `get_state` returns a state exactly when the row's fields are those of the
  -- state; so the states that it returns exclude one another.
  pub get_state_iff : (s : JobState) → (get_state (row r) (some now) clock ≡ ok s) ↔ InState s r now
  get_state_iff s = (get_state_sound s, get_state_complete s)

  -- `get_state` raises ValueError exactly on an uncompleted, unexhausted row with a claim that has
  -- no expiry.
  pub get_state-error_iff : (get_state (row r) (some now) clock ≡ value_error) ↔ IsCorrupt r
  unfolding get_state
  get_state-error_iff = (λ h. ground arith, λ h. ground arith)

  -- `can_claim` holds exactly in the states unclaimed and retrying.
  pub can_claim_iff : (can_claim (row r) (some now) ≡ true) ↔ (
      (get_state (row r) (some now) clock ≡ ok unclaimed)
      ⊎ (get_state (row r) (some now) clock ≡ ok retrying))
  unfolding get_state can_claim
  can_claim_iff = (λ h. ground arith, λ h. ground arith)

  -- `can_complete` holds exactly when the state is claimed, or when it is failed and an unexpired
  -- claim is held; no claim that can be completed can be reclaimed.
  pub can_complete_iff :
      ((can_complete (row r) (some now) clock ≡ true) ↔ (
        (get_state (row r) (some now) clock ≡ ok claimed)
        ⊎ ((get_state (row r) (some now) clock ≡ ok failed)
            × ((r.claimed_at ≢ none) × IsHeld r now))))
      × (can_complete (row r) (some now) clock ≡ true
          → can_reclaim (row r) (some now) clock ≡ false)
  unfolding get_state can_complete can_reclaim
  can_complete_iff = ((λ h. ground arith, λ h. ground arith), λ h. ground arith)

-- A row read from the database has at least one attempt and a positive maximum.
pub from_mapping_bounds :
    (m : Mapping) → (0 < (from_mapping m).attempt_number) × (0 < (from_mapping m).max_attempts)
unfolding from_mapping
from_mapping_bounds m = ground arith

-- Not mutually exclusive as predicates: an exhausted row with a held claim is failed and claimed.
pub failed_and_claimed :
    (r : JobRow) (now clock : ℕ)
    → InState failed r now
    → r.claimed_at ≢ none
    → IsHeld r now
    → (is_failed (row r) ≡ true)
      × (is_claimed (row r) (some now) clock ≡ true)
      × (get_state (row r) (some now) clock ≡ ok failed)
unfolding is_failed is_claimed get_state
failed_and_claimed r now clock f c h = ground arith
