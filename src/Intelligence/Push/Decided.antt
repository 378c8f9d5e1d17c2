-- ===== src/Intelligence/Push/Decided.antt =====
-- The refusals of src/intelligence/push.orchestrator.ts that come before the creation, through the
-- phases of Protocol.
use trademart_b.Prelude.{
  ℕ, Bool, true, false, not, ◌||◌, Option, none, some, String, ◌≡◌, refl, arith, ◌===◌, ===_iff,
  if◌then◌else◌,
}
use trademart_b.Intelligence.Push.Types.{
  ProductCandidate, PreparedAnalysis, PushAsDraftInput, PushAsDraftResult, ResolvedListingPrice,
  SupplierVariantPlan, Failure, ErrorCode,
}
use trademart_b.Intelligence.Push.Ports.{
  PushPorts, Collaborators, Run, M, next, asked_for, prepare_event, intent_event,
}
use trademart_b.Intelligence.Push.Draft.{
  build_draft_request, research_identity_tag, research_push_tag,
}
use trademart_b.Intelligence.Push.Gates.{refused_decision}
use trademart_b.Intelligence.Push.Sequence.{
  create_planned, freeze_and_create, decide_and_create, push_with_claim, check_duplicates,
  build_push_intent, raise_code,
}
use trademart_b.Intelligence.Push.Finished.{self}
use trademart_b.Intelligence.Push.Created.{create_draft-Follows, lookup-Follows}
use trademart_b.Intelligence.Push.Protocol.{
  holding, unsure, judged, frozen, cleared, advance, may_freeze, is_hidden_draft,
}
use trademart_b.Intelligence.Push.Follows.{
  Ends, returns, throws, next-Ends, At, At-eq, call-next, tried-next, clock-next, answer-next,
  raise_if-next, Stopped, without_product, Finished, Follows,
}

if_not : {A : Type 0} (b : Bool) (x y : A) → not b ≡ true → (if b then x else y) ≡ y
if_not true x y h = absurd (cc)
if_not false x y h = refl

if_kept : {A : Type 0} (b : Bool) (x y : A) → not b ≡ false → (if b then x else y) ≡ x
if_kept true x y h = refl
if_kept false x y h = absurd (cc)

or_true : (b : Bool) → (b || true) ≡ true
or_true true = refl
or_true false = refl

module _ {N : Type 0} (input : PushAsDraftInput N) (p : PreparedAnalysis N) where
  -- What the draft's builder makes is a hidden draft with the candidate's tag.
  pub build_draft_request-is_hidden_draft :
      (description : String) (plan : SupplierVariantPlan N)
      → is_hidden_draft p (build_draft_request p.fresh_candidate description plan) ≡ true
  unfolding is_hidden_draft build_draft_request
  build_draft_request-is_hidden_draft description plan =
      let tag = research_identity_tag p.fresh_candidate.id in
      rw ((===_iff tag tag).1 refl) (or_true (research_push_tag === tag))

  -- A decision that is not refused may be frozen.
  pub refused_decision-may_freeze :
      (price : ResolvedListingPrice N) (now : ℕ)
      → refused_decision input p ≡ none
      → may_freeze input p (build_push_intent input price p now) ≡ true
  unfolding refused_decision may_freeze build_push_intent
  refused_decision-may_freeze price now open_gate =
      ground (arith, ===_iff p.decision_hash p.decision_hash)

module _ {N W P C : Type 0} (ports : PushPorts N W P C) (uses : Collaborators N P C)
    (input : PushAsDraftInput N) where
  create_planned-Follows :
      (id : String) (p : PreparedAnalysis N) (price : ResolvedListingPrice N) (s : Run N W)
      → At input (cleared p) none s
      → Follows input (create_planned ports uses id input p price s)
  unfolding create_planned advance
  create_planned-Follows id p price s h =
      answer-next input _ _ _ _ s (λ e x. without_product {p = cleared p} h (λ _. refl))
        (λ plan x.
          create_draft-Follows ports uses input id p price _ plan.sources s
            (build_draft_request-is_hidden_draft input p _ plan) h)

  freeze_and_create-Follows :
      (id : String) (now : ℕ) (p : PreparedAnalysis N) (price : ResolvedListingPrice N)
      (s : Run N W)
      → refused_decision input p ≡ none
      → At input (judged id p) none s
      → Follows input (freeze_and_create ports uses id input now p price s)
  unfolding freeze_and_create advance
  freeze_and_create-Follows id now p price s gate h =
      let E = λ (t : Run N W) (e : Failure). Stopped input t in
      let Q = λ (t : Run N W) (r : PushAsDraftResult N). Finished input t r in
      clock-next input Q E ports.now _ s h (λ t renewal k.
        let may = refused_decision-may_freeze input p price renewal gate in
        let intent = build_push_intent input price p renewal in
        call-next input (intent_event intent) Q E
          (ports.record_intent id input.operation_id renewal intent) _ t k
          (λ u e l. without_product {p = unsure} (At-eq input (rw may refl) l) (λ _. refl))
          (λ u owned l.
            raise_if-next input Q E (not owned) _ _ u
              (λ lost.
                without_product {p = unsure}
                  (At-eq input (rw may (if_not owned (frozen id p) unsure lost)) l) (λ _. refl))
              (λ kept.
                lookup-Follows ports uses input id now _ {p = frozen id p} u
                  (At-eq input (rw may (if_kept owned (frozen id p) unsure kept)) l) (λ _. refl)
                  (rw (self id) refl) (λ product seen. rw (self id) refl)
                  (λ v m.
                    create_planned-Follows id p price v (At-eq input (rw (self id) refl) m)))))

  raise_code-next :
      {B : Type 0} (Q : Run N W → B → Type 0) (E : Run N W → Failure → Type 0)
      (code : Option ErrorCode) (f : Unit {0} → M (Run N W) B) (s : Run N W)
      → ((e : Failure) → E s e)
      → (code ≡ none → Ends Q E (f tt s))
      → Ends Q E (next f (raise_code code s))
  unfolding next raise_code
  raise_code-next Q E none f s stop go = go refl
  raise_code-next Q E (some code) f s stop go = throws s _ (stop _)

  check_duplicates-Ends :
      (id : String) (p : PreparedAnalysis N) (c : ProductCandidate N) (s : Run N W)
      → At input (judged id p) none s
      → Ends
          (λ t n. At input (judged id p) none t)
          (λ t e. Stopped input t)
          (check_duplicates ports uses c s)
  unfolding check_duplicates advance
  check_duplicates-Ends id p c s h =
      let E = λ (t : Run N W) (e : Failure). Stopped input t in
      let Q = λ (t : Run N W) (n : ℕ). At input (judged id p) none t in
      tried-next input asked_for Q E ports.list_catalogue _ s h
        (λ t e k.
          call-next input asked_for Q E ports.list_for_duplicates _ t k
            (λ u e l. without_product {p = judged id p} l (λ _. refl)) (λ u found l. returns u _ l))
        (λ t products k.
          call-next input asked_for Q E ports.list_for_duplicates _ t k
            (λ u e l. without_product {p = judged id p} l (λ _. refl)) (λ u found l. returns u _ l))

  decide_and_create-Follows :
      (id : String) (now : ℕ) (s : Run N W)
      → At input (holding id) none s
      → Follows input (decide_and_create ports uses id input now s)
  unfolding decide_and_create advance
  decide_and_create-Follows id now s h =
      let E = λ (t : Run N W) (e : Failure). Stopped input t in
      let Q = λ (t : Run N W) (r : PushAsDraftResult N). Finished input t r in
      call-next input prepare_event Q E (ports.prepare id input.scenario now) _ s h
        (λ t e k. without_product {p = holding id} k (λ _. refl))
        (λ t p k.
          raise_code-next Q E (refused_decision input p) _ t
            (λ e. without_product {p = judged id p} k (λ _. refl))
            (λ gate.
              next-Ends _ Q E E _ (check_duplicates-Ends id p p.fresh_candidate t k)
                (λ u e stop. stop)
                (λ u blocking l.
                  raise_if-next input Q E _ _ _ u
                    (λ x. without_product {p = judged id p} l (λ _. refl))
                    (λ x.
                      answer-next input Q E _ _ u
                        (λ e y. without_product {p = judged id p} l (λ _. refl))
                        (λ price y.
                          raise_if-next input Q E _ _ _ u
                            (λ z. without_product {p = judged id p} l (λ _. refl))
                            (λ z. freeze_and_create-Follows id now p price u gate l))))))

  -- Inside the claim every call is one that the phases allow. A push that returns has recorded a
  -- hidden product; one that throws either can give its claim back or remembers its product.
  pub push_with_claim-Follows :
      (id : String) (now : ℕ) (s : Run N W)
      → At input (holding id) none s
      → Follows input (push_with_claim ports uses id input now s)
  unfolding push_with_claim advance
  push_with_claim-Follows id now s h =
      lookup-Follows ports uses input id now _ s h (λ _. refl) (rw (self id) refl)
        (λ product seen. rw (self id) refl)
        (λ t k. decide_and_create-Follows id now t (At-eq input (rw (self id) refl) k))
