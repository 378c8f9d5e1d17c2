-- ===== src/Lib.antt =====
-- Trademart backend: the parts of the program that guard money, orders and repeated work.
--
-- The program is an Express server over MongoDB, Shopify and Razorpay. A storefront checkout is frozen
-- as a snapshot of amounts (src/storefront/checkout), paid through Razorpay (src/storefront/payments)
-- and turned into a Shopify order by a queue of leased work (src/storefront/orders). Deliveries from
-- Shopify go through a durable queue of their own (src/webhooks). Dangerous routes are guarded by
-- idempotency keys (src/common), bulk price runs by reviewed previews (src/automation) and a circuit
-- breaker (src/shopify). Research candidates move by decisions and are pushed to the shop as drafts
-- (src/intelligence), supplier catalogues come in as CSV files (src/suppliers), and the progress of an
-- order is derived from its parcels (src/dropshipping).
--
-- Which file models which code:
--   Intelligence/Transitions      src/intelligence/candidate.transitions.ts
--   Intelligence/Push             src/intelligence/push.orchestrator.ts, push.ports.ts, push.draft.ts
--   Intelligence/Sourceability, Intelligence/FinalRecommendation
--                                 src/intelligence/sourceability.ts, and finalRecommendationOf of
--                                 src/intelligence/candidate.analysis.ts
--   Common/DataQuality            resolveFreshness of src/common/dataQuality.ts
--   Suppliers/Csv                 src/suppliers/deodap/deodap.csv.ts
--   Webhooks/Queue                src/webhooks/webhook.queue.ts, src/database/models/WebhookEvent.ts
--   Storefront/Checkout/Types     src/storefront/checkout/checkout.types.ts
--   Storefront/Checkout/Snapshot  src/storefront/checkout/checkout.snapshot.ts
--   Storefront/Checkout/Schema    src/database/models/CheckoutSession.ts
--   Storefront/Checkout/Repository
--                                 src/storefront/checkout/checkout.repository.ts
--   Storefront/Checkout/Service   src/storefront/checkout/checkout.service.ts and
--                                 src/storefront/catalog/moq.ts
--   Storefront/Amount             normalizeInrAmount and inrAmountToPaise of
--                                 src/storefront/catalog/sellability.ts
--   Storefront/Orders             src/storefront/orders/order.orchestrator.ts
--   Storefront/Payments/Attempts  src/storefront/payments/payment.repository.ts
--   Storefront/Payments/Service   src/storefront/payments/payment.service.ts
--   Shopify/Breaker               src/shopify/shopify.breaker.ts
--   Automation/Previews           src/automation/preview.store.ts
--   Common/Idempotency            src/common/idempotency.ts, src/common/durableSafety.ts,
--                                 src/database/models/IdempotencyKey.ts
--   Dropshipping/Status           src/dropshipping/dropshipping.status.ts
-- A function has the name of the code's, in snake case: `claimNextEvent` is `claim_next_event`. A query
-- of the database is split into its filter and its update, named after the method, so that the lemmas
-- can speak of them. The modules below each of these hold the lemmas and theorems; Tests runs each
-- theorem on definite data; Prelude has the shared tests, lists and texts.
--
-- A push runs against ports, the fields of a record whose functions answer from a state of the outside
-- world, and it keeps the list of the calls it has made; Push/Protocol says, without the code, which
-- call each phase allows. The checkout service runs on the sessions of Checkout/Repository, with the
-- writes of other requests between its own. The CSV reader works on lists of character codes;
-- Csv/Write is the writer it is compared with, which the program does not have. Previews/Views is the
-- function from ids to previews that the store of Automation/Previews is compared with.
--
-- The database is the interface of Mongo: a collection is the list of its documents, and the driver's
-- operations are a record of functions with the laws that their documentation gives; Mongo/Listed is an
-- instance over plain lists. Each operation of the driver is one atomic step. What the other workers,
-- requests and notices write in between is an argument: of a pass over the webhook queue, before each
-- claim and while a processor is awaited; of an attempt to order, while Shopify is awaited and before a
-- release; of the observation of a payment; of the payment service (the record Around) and of the
-- checkout service (the record Surroundings). The theorems that depend on it take an explicit list of
-- operations. A unique index is a test for a clash that the insertion is given.
--
-- State is passed explicitly. Times are milliseconds as natural numbers, and every reading of the clock
-- is an argument, so that two readings need not agree. Errors are values: a code and an HTTP status.
-- The loops over queues are bounded by the `limit` that the code gives them, and the model runs them on
-- that number. Amounts are natural numbers with JavaScript's bound on safe integers written out.
--
-- Arguments of the model, since their code is not in the repository or is outside what is modelled:
-- Razorpay's answers, the test of a signature, the derivation and the hash of tokens, Shopify's answer
-- to an order, the processor of webhook topics, the SHA-256 of a request, fresh ids and the clock;
-- the ports of a push, JavaScript's floating-point numbers there, and `toLowerCase` and the
-- parsing of a date.
-- Not modelled: lost connections in the middle of an operation, the TTL indexes, the timers that start
-- the workers, logs and counters, the texts of error messages, and the parts that only read or report.
pub mod Prelude
pub mod Mongo
pub mod Intelligence
pub mod Webhooks
pub mod Storefront
pub mod Automation
pub mod Shopify
pub mod Dropshipping
pub mod Common
pub mod Suppliers
pub mod Tests
