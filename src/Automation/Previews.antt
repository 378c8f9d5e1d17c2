-- ===== src/Automation/Previews.antt =====
-- src/automation/preview.store.ts: the previews in memory, in the order of the Map. `now` is what
-- `Date.now()` answers, `id` what `randomUUID()` answers, and `O` the type of the rule overrides,
-- which the store only keeps.
pub mod Kept
pub mod Single
pub mod Views
pub mod Replay
use trademart_b.Prelude.{
  ℕ, ◌+◌, ◌*◌, Bool, true, false, not, ◌||◌, ◌&&◌, Option, none, some, List, [], ◌∷◌, String, leb,
  ◌===◌, if◌then◌else◌, is_blank,
}

abbrev pub preview_ttl_ms : ℕ
preview_ttl_ms = 10 * 60000

pub record PreviewRecord (O : Type 0) : Type 0 where
  pub preview_id : String
  pub rules_hash : String
  pub plan_hash : String
  pub store_domain : String
  pub query : Option String
  pub max_products : Option ℕ
  pub overrides : Option O
  pub generated_at : ℕ
  pub expires_at : ℕ
  pub applied : Bool

pub record PreviewToken : Type 0 where
  pub preview_id : String
  pub rules_hash : String
  pub plan_hash : String
  pub store_domain : String
  pub generated_at : ℕ
  pub expires_at : ℕ

-- The argument of `recordPreview`.
pub record PreviewInput (O : Type 0) : Type 0 where
  pub rules_hash : String
  pub plan_hash : String
  pub store_domain : String
  pub query : Option String
  pub max_products : Option ℕ
  pub overrides : Option O

pub data PreviewError : Type 0 where
  preview_required preview_not_found preview_already_applied preview_expired preview_stale :
      PreviewError

pub data Answer (A : Type 0) : Type 0 where
  returned : A → Answer A
  thrown : PreviewError → Answer A

module _ {O : Type 0} where
  -- `previews.get(id)`
  unfoldable pub get : String → List (PreviewRecord O) → Option (PreviewRecord O)
  get id [] = none
  get id (r ∷ rs) = let rest = get id rs in if r.preview_id === id then some r else rest

  -- `previews.set(record.previewId, record)`: a key that is there keeps its place.
  unfoldable pub set : PreviewRecord O → List (PreviewRecord O) → List (PreviewRecord O)
  set new [] = new ∷ []
  set new (r ∷ rs) =
      let rest = set new rs in if r.preview_id === new.preview_id then new ∷ rs else r ∷ rest

  -- `previews.delete(id)`
  unfoldable pub delete : String → List (PreviewRecord O) → List (PreviewRecord O)
  delete id [] = []
  delete id (r ∷ rs) = let rest = delete id rs in if r.preview_id === id then rest else r ∷ rest

  unfoldable pub prune : ℕ → List (PreviewRecord O) → List (PreviewRecord O)
  prune now [] = []
  prune now (r ∷ rs) =
      let rest = prune now rs in if leb r.expires_at now || r.applied then rest else r ∷ rest

  unfoldable pub new_record : String → ℕ → PreviewInput O → PreviewRecord O
  new_record id now input = record {
    preview_id = id;
    rules_hash = input.rules_hash;
    plan_hash = input.plan_hash;
    store_domain = input.store_domain;
    query = input.query;
    max_products = input.max_products;
    overrides = input.overrides;
    generated_at = now;
    expires_at = now + preview_ttl_ms;
    applied = false;
  }

  unfoldable pub record_preview :
      String → ℕ → PreviewInput O → List (PreviewRecord O) → List (PreviewRecord O) × PreviewToken
  unfolding new_record
  record_preview id now input previews =
      let r = new_record id now input in
      (
        set r (prune now previews),
        record {
          preview_id = r.preview_id;
          rules_hash = r.rules_hash;
          plan_hash = r.plan_hash;
          store_domain = r.store_domain;
          generated_at = r.generated_at;
          expires_at = r.expires_at;
        },
      )

  -- `findApplicablePreview` over what the Map has for the id.
  unfoldable pub find_given :
      ℕ
      → String
      → String
      → List (PreviewRecord O)
      → Option (PreviewRecord O)
      → List (PreviewRecord O) × Answer (PreviewRecord O)
  find_given now id domain previews none = (previews, thrown preview_not_found)
  find_given now id domain previews (some r) =
      if r.applied
      then (previews, thrown preview_already_applied)
      else (if leb r.expires_at now
          then (delete id previews, thrown preview_expired)
          else (if not (r.store_domain === domain)
              then (previews, thrown preview_stale)
              else (previews, returned r)))

  unfoldable pub find_applicable_preview :
      ℕ
      → Option String
      → String
      → List (PreviewRecord O)
      → List (PreviewRecord O) × Answer (PreviewRecord O)
  unfolding find_given
  find_applicable_preview now none domain previews = (previews, thrown preview_required)
  find_applicable_preview now (some id) domain previews =
      if is_blank id
      then (previews, thrown preview_required)
      else find_given now id domain previews (get id previews)

  -- `consumePreview` over what the Map has for the id.
  unfoldable pub consume_found :
      String
      → String
      → List (PreviewRecord O)
      → Option (PreviewRecord O)
      → List (PreviewRecord O) × Answer (PreviewRecord O)
  consume_found rules_hash plan_hash previews none = (previews, thrown preview_not_found)
  consume_found rules_hash plan_hash previews (some r) =
      if r.applied
      then (previews, thrown preview_not_found)
      else (if not (r.rules_hash === rules_hash)
          then (previews, thrown preview_stale)
          else (if not (r.plan_hash === plan_hash)
              then (previews, thrown preview_stale)
              else (let used = record r { applied = true } in (set used previews, returned used))))

  unfoldable pub consume_preview :
      String
      → String
      → String
      → List (PreviewRecord O)
      → List (PreviewRecord O) × Answer (PreviewRecord O)
  unfolding consume_found
  consume_preview id rules_hash plan_hash previews =
      consume_found rules_hash plan_hash previews (get id previews)
