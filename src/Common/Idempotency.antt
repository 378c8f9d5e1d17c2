-- ===== src/Common/Idempotency.antt =====
-- src/common/idempotency.ts and src/common/durableSafety.ts, with the model of
-- src/database/models/IdempotencyKey.ts. `B` is the type of a response body, `now` is what
-- `new Date()` answers, and `request_hash` is the SHA-256 of the request's method, path and body.
pub mod Owned
pub mod Replay
use trademart_b.Prelude.{
  ℕ, ◌+◌, ◌*◌, Bool, true, false, not, ◌||◌, ◌&&◌, Option, none, some, List, [], ◌∷◌, String, leb,
  ◌==◌, ◌===◌, if◌then◌else◌, length, codes, all_codes, between, trim, is_blank,
}
use trademart_b.Mongo.{Collection, Created, stored, duplicate_key, errored}

pub data KeyStatus : Type 0 where
  in_progress completed : KeyStatus

pub record IdempotencyKey (B : Type 0) : Type 0 where
  pub key : String
  pub operation : String
  pub request_hash : String
  pub status : KeyStatus
  pub response_status : Option ℕ
  pub response_body : Option B
  pub request_id : Option String
  pub actor : Option String
  pub created_at : ℕ
  pub completed_at : Option ℕ
  pub expires_at : ℕ

-- What `handle` does: calls the route's handler with or without a claimed key, answers what is stored,
-- or throws.
pub data Answer (B : Type 0) : Type 0 where
  run_claimed : Answer B
  run_unclaimed : Answer B
  replayed : ℕ → Option B → Answer B
  validation_error : Answer B
  database_unavailable : Answer B
  idempotency_conflict : Answer B
  idempotency_in_progress : Answer B
  rethrown : Answer B

-- /^[A-Za-z0-9._~:-]{8,200}$/
unfoldable pub is_valid_key : String → Bool
is_valid_key s =
    between 8 200 (length (codes s))
    && all_codes
        (λ c.
          between b'A' b'Z' c
          || between b'a' b'z' c
          || between b'0' b'9' c
          || c == b'.'
          || c == b'_'
          || c == b'~'
          || c == b':'
          || c == b'-')
        (codes s)

unfoldable pub durable_safety_gate : Bool → Bool
durable_safety_gate database_connected = not database_connected

-- A response that a client is meant to retry.
abbrev pub should_release : ℕ → Bool
should_release status = leb 500 status || (status == 429)

abbrev pub is_in_progress : KeyStatus → Bool
is_in_progress in_progress = true
is_in_progress completed = false

-- `existing.responseStatus ?? 200`
abbrev status_or : Option ℕ → ℕ
status_or none = 200
status_or (some n) = n

module _ {B : Type 0} where
  abbrev pub has_key : String → String → IdempotencyKey B → Bool
  has_key key operation d = (d.key === key) && (d.operation === operation)

  -- The unique index on `key` and `operation`.
  abbrev pub clash : IdempotencyKey B → IdempotencyKey B → Bool
  clash new old = has_key new.key new.operation old

  -- `hours` is the configured retention.
  abbrev pub new_key :
      String → String → String → Option String → Option String → ℕ → ℕ → IdempotencyKey B
  new_key key operation request_hash request_id actor now hours = record {
    key = key;
    operation = operation;
    request_hash = request_hash;
    status = in_progress;
    response_status = none;
    response_body = none;
    request_id = request_id;
    actor = actor;
    created_at = now;
    completed_at = none;
    expires_at = now + hours * 3600000;
  }

  -- What the record of another request with the key means for this one.
  unfoldable pub existing_answer : String → Option (IdempotencyKey B) → Answer B
  existing_answer request_hash none = run_unclaimed
  existing_answer request_hash (some d) =
      if not (d.request_hash === request_hash) then idempotency_conflict else elim d.status [
        | in_progress ↦ idempotency_in_progress
        | completed ↦ replayed (status_or d.response_status) d.response_body
      ]

  abbrev pub completed_update : ℕ → ℕ → Option B → IdempotencyKey B → IdempotencyKey B
  completed_update now status body d = record d {
    status = completed;
    response_status = some status;
    response_body = body;
    completed_at = some now;
  }

  module _ (db : Collection (IdempotencyKey B)) (hours : ℕ) where
    -- What the insertion of the key came to.
    unfoldable pub claim_result :
        String
        → String
        → String
        → List (IdempotencyKey B)
        → Created (IdempotencyKey B)
        → List (IdempotencyKey B) × Answer B
    unfolding existing_answer
    claim_result key operation request_hash rows (stored after) = (after, run_claimed)
    claim_result key operation request_hash rows errored = (rows, rethrown)
    claim_result key operation request_hash rows duplicate_key =
        (rows, existing_answer request_hash (db.find_one (has_key key operation) rows))

    -- `handle` with a valid key.
    unfoldable pub claim_key :
        ℕ
        → String
        → String
        → String
        → Option String
        → Option String
        → List (IdempotencyKey B)
        → List (IdempotencyKey B) × Answer B
    unfolding claim_result
    claim_key now key operation request_hash request_id actor rows =
        claim_result key operation request_hash rows
          (db.create clash (new_key key operation request_hash request_id actor now hours) rows)

    -- `supplied` is the header, if there is one.
    unfoldable pub handle :
        Bool
        → ℕ
        → Option String
        → String
        → String
        → Option String
        → Option String
        → List (IdempotencyKey B)
        → List (IdempotencyKey B) × Answer B
    unfolding claim_key is_valid_key durable_safety_gate
    handle database_connected now supplied operation request_hash request_id actor rows =
        if durable_safety_gate database_connected
        then (rows, database_unavailable)
        else elim supplied [
          | none ↦ (rows, run_unclaimed)
          | some header ↦
              if is_blank header
              then (rows, run_unclaimed)
              else (if not (is_valid_key (trim header))
                  then (rows, validation_error)
                  else claim_key now (trim header) operation request_hash request_id actor rows)
        ]

    unfoldable pub release_key : String → String → List (IdempotencyKey B) → List (IdempotencyKey B)
    release_key key operation rows =
        db.delete_one (λ d. has_key key operation d && is_in_progress d.status) rows

    unfoldable pub complete_key :
        ℕ → String → String → ℕ → Option B → List (IdempotencyKey B) → List (IdempotencyKey B)
    complete_key now key operation status body rows =
        (db.find_one_and_update (has_key key operation) (λ _. 0) (completed_update now status body)
          rows).0

    -- `finalise`, once the claimed handler's response has been sent.
    unfoldable pub finalise :
        ℕ → String → String → ℕ → Option B → List (IdempotencyKey B) → List (IdempotencyKey B)
    unfolding release_key complete_key
    finalise now key operation status body rows =
        if should_release status
        then release_key key operation rows
        else complete_key now key operation status body rows
