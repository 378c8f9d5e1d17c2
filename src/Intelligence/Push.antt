-- ===== src/Intelligence/Push.antt =====
-- Pushing a research candidate to Shopify as a draft: src/intelligence/push.orchestrator.ts over the
-- ports of src/intelligence/push.ports.ts. The warnings for the operator and the wording of messages
-- are left out.
pub mod Types
pub mod Ports
pub mod Draft
pub mod Gates
pub mod Finish
pub mod Sequence
pub mod Protocol
pub mod Follows
pub mod Finished
pub mod Created
pub mod Decided
pub mod Outcome
pub mod Once
