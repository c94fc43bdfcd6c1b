-- ===== src/Content/Publishing/Cycle.antt =====
-- Properties of the publication cycle, for every accepted command of publication-commands.ts.
use jawstack.Base.{true, ◌≡◌, ◌≤◌}
use jawstack.Content.Publishing.Preserve.{
  IsValid, publication_ok-IsValid, IsValid-publication_ok, claim-IsValid, complete-IsValid,
  fail-IsValid, stall-IsValid, retry-IsValid,
}
use jawstack.Content.Publishing.Transitions.{
  Kind, Transition, claims, completes, fails, stalls, retries,
}
use jawstack.Content.Schema.{publication_ok}
use jawstack.Content.Types.{Publication, ContentState}
use jawstack.Core.Types.{Context}

module _ {context : Context ContentState} where
  Transition-IsValid :
      {p q : Publication} {kind : Kind}
      → Transition context p kind q
      → p.intent.content_id ≡ context.resource_id
      → p.intent.requested_at ≤ context.now
      → IsValid p
      → IsValid q
  Transition-IsValid {p} (claims attempt_id token phase free budget differs) owned later v =
      claim-IsValid context p attempt_id token v phase budget differs later
  Transition-IsValid {p} (completes fence last input held latest key size) owned later v =
      complete-IsValid p last fence context.now v held latest input (rw owned key) size
  Transition-IsValid {p} (fails fence last code held latest) owned later v =
      fail-IsValid p last fence context.now v held latest code
  Transition-IsValid {p} (stalls closed failure phase free same) owned later v =
      stall-IsValid p closed context.now v free same failure phase
  Transition-IsValid {p} (retries closed work free budget same) owned later v =
      retry-IsValid p closed context.now v free same work budget

-- Every transition of the cycle takes a publication that satisfies `publicationStateSchema` to one
-- that does, by the guards of its command and not by the check in `finish`, as long as the
-- publication is of the item of the context and the clock has not gone back behind the request.
pub Transition-publication_ok :
    {context : Context ContentState} {p q : Publication} {kind : Kind}
    → Transition context p kind q
    → p.intent.content_id ≡ context.resource_id
    → p.intent.requested_at ≤ context.now
    → publication_ok p ≡ true
    → publication_ok q ≡ true
Transition-publication_ok {p} {q} t owned later valid =
    IsValid-publication_ok q (Transition-IsValid t owned later (publication_ok-IsValid p valid))
