-- ===== src/Common/DataQuality.antt =====
-- src/common/dataQuality.ts: the freshness of an observation. `date` is `new Date(text).getTime()`, and
-- answers none where that is not finite. The age and the note that come with the freshness are left
-- out.
use trademart_b.Prelude.{ℕ, ◌-◌, ◌*◌, Option, none, some, String, ltb, leb, if◌then◌else◌}

pub data Freshness : Type 0 where
  fresh aging stale unknown_freshness : Freshness

pub record FreshnessPolicy : Type 0 where
  pub fresh_within_hours : ℕ
  pub aging_within_hours : ℕ

abbrev pub hour_ms : ℕ
hour_ms = 3600000

-- The branches on the age, which the source divides by `HOUR_MS`.
unfoldable pub freshness_at : Option ℕ → ℕ → FreshnessPolicy → Freshness
freshness_at none now policy = unknown_freshness
freshness_at (some time) now policy =
    if ltb now time
    then fresh
    else (if leb (now - time) (policy.fresh_within_hours * hour_ms)
        then fresh
        else (if leb (now - time) (policy.aging_within_hours * hour_ms) then aging else stale))

unfoldable pub resolve_freshness :
    (String → Option ℕ) → Option String → ℕ → FreshnessPolicy → Freshness
unfolding freshness_at
resolve_freshness date none now policy = unknown_freshness
resolve_freshness date (some observed_at) now policy = freshness_at (date observed_at) now policy
