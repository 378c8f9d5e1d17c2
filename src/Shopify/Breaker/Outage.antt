-- ===== src/Shopify/Breaker/Outage.antt =====
-- When the breaker opens, how long it stays open, and what a failed trial does.
use trademart_b.Prelude.{
  ℕ, ◌+◌, ◌-◌, ◌/◌, ◌≤◌, ◌<◌, ◌≡◌, ◌↔◌, ◌⊎◌, inl, inr, refl, true, false, Option, none, some,
  String, arith, leb, Bool-cases,
}
use trademart_b.Shopify.Breaker.{
  BreakerData, ShopifyOutcome, Degraded, record_shopify_outcome, count_failure, decayed,
  get_breaker_state, assert_shopify_healthy_for_bulk_writes, is_breaker_code, wait_ms, open_ms,
}

-- A qualifying failure with the given code.
abbrev pub failure : String → ShopifyOutcome
failure code = record { ok = false; code = some code }

-- The breaker after a qualifying failure at the given time.
abbrev pub fail : String → ℕ → BreakerData → BreakerData
fail code t b = record_shopify_outcome t (failure code) b

-- `k` failures counted, the last at `t`, and not open.
abbrev IsCounting : ℕ → ℕ → BreakerData → Type 0
IsCounting k t b =
    (b.consecutive_failures ≡ k) × (b.last_failure_at ≡ some t) × (b.opened_at ≡ none)

module _ (code : String) (qualifies : is_breaker_code code ≡ true) where
  first-IsCounting :
      (now : ℕ) (b : BreakerData)
      → b.consecutive_failures ≡ 0
      → b.opened_at ≡ none
      → IsCounting 1 now (fail code now b)
  unfolding record_shopify_outcome count_failure decayed
  first-IsCounting now b c o = ground arith

  next-IsCounting :
      (k t now : ℕ) (b : BreakerData)
      → IsCounting k t b
      → now ≤ t + 120000
      → k < 4
      → IsCounting (k + 1) now (fail code now b)
  unfolding record_shopify_outcome count_failure decayed
  next-IsCounting k t now b h near few = ground arith

  fifth-opened_at :
      (t now : ℕ) (b : BreakerData)
      → IsCounting 4 t b
      → now ≤ t + 120000
      → (fail code now b).opened_at ≡ some now
  unfolding record_shopify_outcome count_failure decayed
  fifth-opened_at t now b h near = ground arith

-- From a closed breaker that counts no failure, five qualifying failures in a row, with the same code
-- or with different ones, each at most two minutes after the one before, open it: the fourth leaves it
-- closed, and the fifth opens it at its own time.
pub record_shopify_outcome-opens :
    (c₁ c₂ c₃ c₄ c₅ : String) (t₁ t₂ t₃ t₄ t₅ : ℕ) (b : BreakerData)
    → (is_breaker_code c₁ ≡ true)
      × (is_breaker_code c₂ ≡ true)
      × (is_breaker_code c₃ ≡ true)
      × (is_breaker_code c₄ ≡ true)
      × (is_breaker_code c₅ ≡ true)
    → b.consecutive_failures ≡ 0
    → b.opened_at ≡ none
    → (t₂ ≤ t₁ + 120000) × (t₃ ≤ t₂ + 120000) × (t₄ ≤ t₃ + 120000) × (t₅ ≤ t₄ + 120000)
    → ((fail c₄ t₄ (fail c₃ t₃ (fail c₂ t₂ (fail c₁ t₁ b)))).opened_at ≡ none)
      × ((fail c₅ t₅ (fail c₄ t₄ (fail c₃ t₃ (fail c₂ t₂ (fail c₁ t₁ b))))).opened_at ≡ some t₅)
record_shopify_outcome-opens c₁ c₂ c₃ c₄ c₅ t₁ t₂ t₃ t₄ t₅ b (q₁, q₂, q₃, q₄, q₅) c o
      (n₂, n₃, n₄, n₅) =
    let b₁ = fail c₁ t₁ b in
    let b₂ = fail c₂ t₂ b₁ in
    let b₃ = fail c₃ t₃ b₂ in
    let b₄ = fail c₄ t₄ b₃ in
    let one = first-IsCounting c₁ q₁ t₁ b c o in
    let two = next-IsCounting c₂ q₂ 1 t₁ t₂ b₁ one n₂ (omega arith) in
    let three = next-IsCounting c₃ q₃ 2 t₂ t₃ b₂ two n₃ (omega arith) in
    let four = next-IsCounting c₄ q₄ 3 t₃ t₄ b₃ three n₄ (omega arith) in
    (four.2, fifth-opened_at c₅ q₅ t₄ t₅ b₄ four n₅)

-- In a breaker that is closed with five or more failures counted, as its cooldown leaves it, a
-- qualifying failure opens it again exactly if the last failure is at most two minutes old.
pub record_shopify_outcome-reopens_iff :
    (code : String) (now t : ℕ) (b : BreakerData)
    → is_breaker_code code ≡ true
    → b.last_failure_at ≡ some t
    → b.opened_at ≡ none
    → 5 ≤ b.consecutive_failures
    → ((record_shopify_outcome now (failure code) b).opened_at ≡ some now) ↔ (now ≤ t + 120000)
unfolding record_shopify_outcome count_failure decayed
record_shopify_outcome-reopens_iff code now t b q l o many =
    ((λ e. ground arith), (λ h. ground arith))

-- The breaker that was opened at `o`.
abbrev opened_breaker : ℕ → Option ℕ → Option String → Option ℕ → BreakerData
opened_breaker count last code o = record {
  consecutive_failures = count;
  last_failure_at = last;
  opened_at = o;
  last_failure_code = code;
}

abbrev pub IsRefused : ℕ → BreakerData → Type 0
IsRefused now b =
    (t : ℕ) × (d : Degraded) × (b.opened_at ≡ some t)
    × (now < t + 60000)
    × (assert_shopify_healthy_for_bulk_writes now b ≡ (b, some d))
    × (1 ≤ d.retry_after_seconds)
    × (d.retry_after_seconds ≤ 60)

IsRefused-cases :
    (now t count : ℕ) (last : Option ℕ) (code : Option String)
    → t ≤ now
    → IsRefused now (opened_breaker count last code (some t))
      ⊎ (((assert_shopify_healthy_for_bulk_writes now (opened_breaker count last code (some t))).1
            ≡ none)
          × ((assert_shopify_healthy_for_bulk_writes now
                (opened_breaker count last code (some t))).0.opened_at
              ≡ none))
unfolding assert_shopify_healthy_for_bulk_writes get_breaker_state
IsRefused-cases now t count last code past = elim (Bool-cases (leb open_ms (now - t))) [
  | inl over ↦ inr (ground arith)
  | inr within ↦ inl (
    t,
    record {
      consecutive_failures = count;
      last_failure_code = code;
      retry_after_seconds = (wait_ms now (some t) + 999) / 1000;
    },
    refl,
    ground arith,
    ground arith,
    ground arith,
    ground arith,
  )
]

-- A bulk write is refused, with the breaker as it was, if the breaker was opened less than sixty
-- seconds ago, and is told to wait for between one second and sixty; else it is let through and the
-- breaker is closed. The clock is taken to be at or past the opening.
assert_shopify_healthy-cases :
    (now : ℕ) (b : BreakerData)
    → ((t : ℕ) → b.opened_at ≡ some t → t ≤ now)
    → IsRefused now b
      ⊎ (((assert_shopify_healthy_for_bulk_writes now b).1 ≡ none)
          × ((assert_shopify_healthy_for_bulk_writes now b).0.opened_at ≡ none))
unfolding assert_shopify_healthy_for_bulk_writes get_breaker_state
assert_shopify_healthy-cases now b past =
    go b.opened_at b.consecutive_failures b.last_failure_at b.last_failure_code past
  where
    go :
        (o : Option ℕ) (count : ℕ) (last : Option ℕ) (code : Option String)
        → ((t : ℕ) → o ≡ some t → t ≤ now)
        → IsRefused now (opened_breaker count last code o)
          ⊎ (((assert_shopify_healthy_for_bulk_writes now (opened_breaker count last code o)).1
                ≡ none)
              × ((assert_shopify_healthy_for_bulk_writes now
                    (opened_breaker count last code o)).0.opened_at
                  ≡ none))
    go none count last code p = inr (refl, refl)
    go (some t) count last code p = IsRefused-cases now t count last code (p t refl)
