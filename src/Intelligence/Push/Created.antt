-- ===== src/Intelligence/Push/Created.antt =====
-- Adopting a product and creating one, src/intelligence/push.orchestrator.ts, through the phases of
-- Protocol.
use trademart_b.Prelude.{ℕ, Bool, true, Option, none, some, List, String, ◌≡◌, refl}
use trademart_b.Intelligence.Push.Types.{
  PreparedAnalysis, PushAsDraftInput, PushAsDraftResult, PushIntent, ExistingResearchProduct,
  CreatedProduct, ResolvedListingPrice, ProductCreateRequest, PlannedVariantSource, Failure,
}
use trademart_b.Intelligence.Push.Ports.{
  returned, PushPorts, Collaborators, Run, M, next, call, lookup_failed, looked_up, released,
  asked_for, written, visible, lookup_event, create_event,
}
use trademart_b.Intelligence.Push.Finish.{
  record_cost, record_cost_from_intent, restore, reconcile_existing,
}
use trademart_b.Intelligence.Push.Finished.{
  enforce_hidden-Ends, save_if_known-Ends, complete-Ends, report-Follows, Never,
}
use trademart_b.Intelligence.Push.Sequence.{adopt_or, create_draft, finish_created}
use trademart_b.Intelligence.Push.Protocol.{
  Phase, unsure, cleared, known, from_released, advance, is_hidden_draft,
}
use trademart_b.Intelligence.Push.Follows.{
  Ends, returns, next-Ends, At, At-eq, call-next, clock-next, answer-next, known_id, Stopped,
  with_product, without_product, Finished, Follows,
}

module _ {N W P C : Type 0} (ports : PushPorts N W P C) (uses : Collaborators N P C)
    (input : PushAsDraftInput N) where
  restore-Ends :
      {seen : Bool} {product : Option String} (id : String) (found : ExistingResearchProduct)
      (now : ℕ) (intent : Option (PushIntent N)) (s : Run N W)
      → At input (known found.shopify_product_id seen) product s
      → Ends
          (λ s' r. At input (known found.shopify_product_id seen) product s')
          Never
          (restore ports uses id found now intent s)
  unfolding restore record_cost_from_intent
  restore-Ends id found now none s h = returns s _ h
  restore-Ends id found now (some intent) s h =
      next-Ends _ _ Never Never _
        (save_if_known-Ends ports input found.shopify_product_id _ _ _ _ _ s h) (λ t e k. k)
        (λ t saved k. returns t _ k)

  reconcile_existing-Follows :
      (id : String) (found : ExistingResearchProduct) (now : ℕ) (s : Run N W)
      → At input
          (known found.shopify_product_id (visible found.state))
          (some found.shopify_product_id)
          s
      → Follows input (reconcile_existing ports uses id input found now s)
  unfolding reconcile_existing advance
  reconcile_existing-Follows id found now s h =
      let product = found.shopify_product_id in
      let E = λ (t : Run N W) (e : Failure). Stopped input t in
      let Q = λ (t : Run N W) (r : PushAsDraftResult N). Finished input t r in
      call-next input asked_for Q E (ports.load_intent id) _ s h
        (λ t e k. with_product k (known_id _))
        (λ t intent k.
          next-Ends _ Q Never E _ (enforce_hidden-Ends ports input product found.state t k)
            (λ u e never. absurd never)
            (λ u r l. rw (l.1) (
              next-Ends _ Q Never E _ (restore-Ends id found now intent u l.0)
                (λ v e never. absurd never)
                (λ v kept m.
                  next-Ends _ Q E E _
                    (complete-Ends ports input product id input.operation_id kept.1 now
                      (visible r.0) v m)
                    (λ x e stop. stop)
                    (λ x done n. report-Follows ports input product id _ _ r.0 _ kept.0 x n)))))

  -- A product that a lookup has found is adopted.
  adopt-Follows :
      (id : String) (now : ℕ) (rest : M (Run N W) (PushAsDraftResult N))
      (found : ExistingResearchProduct) (s : Run N W)
      → At input (known found.shopify_product_id (visible found.state)) none s
      → Follows input (adopt_or ports uses id input now rest (some found) s)
  unfolding adopt_or next
  adopt-Follows id now rest found s h =
      reconcile_existing-Follows id found now _
        (record { phase_eq = h.phase_eq; product_eq = refl })

  -- A lookup, and what follows it if there is no product yet.
  pub lookup-Follows :
      (id : String) (now : ℕ) (rest : M (Run N W) (PushAsDraftResult N)) {p : Phase N} (s : Run N W)
      → At input p none s
      → ((answered : Bool) → advance input p (released answered) ≡ from_released answered)
      → advance input p (lookup_failed id) ≡ p
      → ((product : String) (seen : Bool)
          → advance input p (looked_up id (some (product, seen))) ≡ known product seen)
      → ((t : Run N W)
          → At input (advance input p (looked_up id none)) none t
          → Follows input (rest t))
      → Follows input (
          next
            (adopt_or ports uses id input now rest)
            (call (lookup_event id) (ports.find_by_research_tag id) s))
  unfolding adopt_or
  lookup-Follows id now rest {p} s h free same finds go =
      call-next input (lookup_event id) _ _ (ports.find_by_research_tag id) _ s h
        (λ t e k. without_product (At-eq input same k) free) looked
    where
      looked :
          (t : Run N W) (found : Option ExistingResearchProduct)
          → At input (advance input p (lookup_event id (returned found))) none t
          → Follows input (adopt_or ports uses id input now rest found t)
      looked t none k = go t k
      looked t (some found) k = adopt-Follows id now rest found t (At-eq input (finds _ _) k)

  named :
      {p : Phase N} {s : Run N W} (id : String)
      → At input p none s
      → At input p (some id) (record s { product_id = some id })
  named id h = record { phase_eq = h.phase_eq; product_eq = refl }

  -- From the creation on.
  created-Follows :
      (id : String) (p : PreparedAnalysis N) (price : ResolvedListingPrice N)
      (sources : List PlannedVariantSource) (s : Run N W) (product : CreatedProduct)
      → At input (known product.shopify_product_id (visible product.state)) none s
      → Follows input (finish_created ports uses id input p price sources product s)
  unfolding finish_created advance record_cost
  created-Follows id p price sources s product h =
      let pid = product.shopify_product_id in
      let E = λ (t : Run N W) (e : Failure). Stopped input t in
      let Q = λ (t : Run N W) (r : PushAsDraftResult N). Finished input t r in
      answer-next input Q E _ _ _ (λ e x. absurd (cc))
        (λ _ x.
          clock-next input Q E ports.now _ (record s { product_id = some pid }) (named pid h)
            (λ t now k.
              answer-next input Q E _ _ t (λ e y. with_product k (known_id _))
                (λ mappings y.
                  next-Ends _ Q Never E _ (enforce_hidden-Ends ports input pid product.state t k)
                    (λ u e never. absurd never)
                    (λ u r l. rw (l.1) (
                      next-Ends _ Q Never E _ (save_if_known-Ends ports input pid _ _ _ _ _ u l.0)
                        (λ v e never. absurd never)
                        (λ v saved m.
                          call-next input written Q E (ports.persist p) _ v m
                            (λ w e n. with_product n (known_id _))
                            (λ w _ n. clock-next input Q E ports.now _ w n (λ x later o.
                              next-Ends _ Q E E _
                                (complete-Ends ports input pid id input.operation_id mappings later
                                  (visible r.0) x o)
                                (λ z e stop. stop)
                                (λ z _ q.
                                  report-Follows ports input pid id _ _ r.0 _ saved z q)))))))))

  pub create_draft-Follows :
      (id : String) (p : PreparedAnalysis N) (price : ResolvedListingPrice N)
      (request : ProductCreateRequest N) (sources : List PlannedVariantSource) (s : Run N W)
      → is_hidden_draft p request ≡ true
      → At input (cleared p) none s
      → Follows input (create_draft ports uses id input p price request sources s)
  unfolding create_draft advance record_cost
  create_draft-Follows id p price request sources s draft h =
      let E = λ (t : Run N W) (e : Failure). Stopped input t in
      let Q = λ (t : Run N W) (r : PushAsDraftResult N). Finished input t r in
      answer-next input Q E _ _ s (λ e x. without_product h (λ _. refl))
        (λ _ x.
          call-next input (create_event request) Q E (ports.create_product request) _ s h
            (λ t e k. without_product {p = unsure} (At-eq input (rw draft refl) k) (λ _. refl))
            (λ t product k.
              created-Follows id p price sources t product (At-eq input (rw draft refl) k)))
