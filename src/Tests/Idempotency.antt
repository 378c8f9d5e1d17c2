-- ===== src/Tests/Idempotency.antt =====
-- A request under a key, and its repetition.
use trademart_b.Prelude.{
  ◌≡◌, ◌≢◌, ◌⊎◌, refl, true, none, some, List, [], ◌∷◌, String, ◌===◌, if◌then◌else◌,
}
use trademart_b.Mongo.Listed.{listed}
use trademart_b.Common.Idempotency.{
  IdempotencyKey, run_claimed, run_unclaimed, replayed, idempotency_conflict, rethrown, claim_key,
  claim_result, finalise,
}
use trademart_b.Common.Idempotency.Owned.{Op, handled, apply_all}
use trademart_b.Common.Idempotency.Replay.{claim_key-exclusive, finalise-replays}

abbrev again : List (Op String "key-0001" "POST /products")
again = handled true 2000 (some "key-0001") "POST /products" "h1" none none ∷ []

claim_key-exclusive_example :
    let first =
      claim_key
        (listed (IdempotencyKey String))
        48
        1000
        "key-0001"
        "POST /products"
        "h1"
        none
        none
        [] in
    let rows =
      apply_all "key-0001" "POST /products" (listed (IdempotencyKey String)) 48 again first.0 in
    let second =
      claim_key
        (listed (IdempotencyKey String))
        48
        3000
        "key-0001"
        "POST /products"
        "h2"
        none
        none
        rows in
    (second.1 ≢ run_claimed) × (second.1 ≢ run_unclaimed)
unfolding claim_key claim_result listed ◌===◌
claim_key-exclusive_example =
    claim_key-exclusive "key-0001" "POST /products" (listed (IdempotencyKey String)) 48 1000 "h1"
      none none [] refl again 3000 "h2" none none

finalise-replays_example :
    let first =
      claim_key
        (listed (IdempotencyKey String))
        48
        1000
        "key-0001"
        "POST /products"
        "h1"
        none
        none
        [] in
    let rows =
      apply_all "key-0001" "POST /products" (listed (IdempotencyKey String)) 48 again first.0 in
    let kept =
      finalise
        (listed (IdempotencyKey String))
        48
        4000
        "key-0001"
        "POST /products"
        201
        (some "made")
        rows in
    let later = apply_all "key-0001" "POST /products" (listed (IdempotencyKey String)) 48 [] kept in
    let second =
      claim_key
        (listed (IdempotencyKey String))
        48
        5000
        "key-0001"
        "POST /products"
        "h1"
        none
        none
        later in
    (second.1 ≡ (if "h1" === "h1" then replayed 201 (some "made") else idempotency_conflict))
    ⊎ (second.1 ≡ rethrown)
unfolding claim_key claim_result listed ◌===◌
finalise-replays_example =
    finalise-replays "key-0001" "POST /products" (listed (IdempotencyKey String)) 48 1000 "h1" none
      none [] refl again [] 4000 5000 201 (some "made") refl "h1" none none
