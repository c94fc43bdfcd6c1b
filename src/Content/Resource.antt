-- ===== src/Content/Resource.antt =====
-- apps/content-operations/src/domain/resources.ts: what every content command goes through. The
-- byte budgets of states and facts are the parameter `fits`, since they measure JSON texts.
pub mod Laws
use jawstack.Base.{
  when_some, ℕ, ◌+◌, Bool, true, false, not, ◌&&◌, ◌||◌, Option, none, some, List, [], ◌∷◌, ◌++◌,
  Text, leb, ◌==◌, if◌then◌else◌, any, all, includes, Result, ok, err, ◌>>=◌, ◌>>◌, require,
  command_validation, auth_forbidden, resource_conflict, resource_invalid_state, runtime_internal,
}
use jawstack.Content.Facts.{
  state_size, within_budget, Sized, EventType, review_requested, review_decided, review_superseded,
  publication_claimed, Payload, lifecycle, review_state, asset_state, Fact, fact,
}
use jawstack.Content.Projections.{Row, content_projection_plan}
use jawstack.Content.ReviewSchema.{is_pending_review, review_ok}
use jawstack.Content.Schema.{author_1, author_2, editor_1, editor_2, version_ok}
use jawstack.Content.StateSchema.{content_ok}
use jawstack.Content.Types.{ContentStatus, ReviewStatus, AssetSlot, Review, Claim, ContentState}
use jawstack.Core.Types.{AuthMode, AuthContext, ResourceState, Context}

-- The resource types and roles that the application names.
abbrev pub content_item : Text
content_item = 1

abbrev pub review_task : Text
review_task = 2

abbrev pub asset_resource : Text
asset_resource = 3

abbrev pub author_role : Text
author_role = 1

abbrev pub editor_role : Text
editor_role = 2

pub record ServiceIdentity : Type 0 where
  pub subject : Text
  pub role : Text

abbrev pub upload_verifier_identity : ServiceIdentity
upload_verifier_identity = record { subject = 11; role = 11 }

abbrev pub asset_janitor_identity : ServiceIdentity
asset_janitor_identity = record { subject = 12; role = 12 }

abbrev pub publisher_identity : ServiceIdentity
publisher_identity = record { subject = 13; role = 13 }

abbrev pub due_worker_identity : ServiceIdentity
due_worker_identity = record { subject = 14; role = 14 }

abbrev pub failure_collector_identity : ServiceIdentity
failure_collector_identity = record { subject = 15; role = 15 }

abbrev pub is_local : AuthMode → Bool
is_local AuthMode.external = false
is_local _ = true

-- serviceActor
unfoldable pub service_actor : AuthContext → ServiceIdentity → Result (Unit {0})
service_actor auth identity =
    require
      (auth.subject == identity.subject && includes identity.role auth.roles && is_local auth.mode)
      auth_forbidden

pub record Identity : Type 0 where
  pub subject : Text
  pub editor : Bool

-- `fixtureIdentities.find`, and the one role of the fixture
abbrev fixture_role : Text → Option Text
fixture_role subject =
    if subject == author_1 || subject == author_2
    then some author_role
    else if subject == editor_1 || subject == editor_2
    then some editor_role
    else none

-- actor
unfoldable pub actor : AuthContext → Result Identity
actor auth = elim (fixture_role auth.subject) [
  | none ↦ err auth_forbidden
  | some role ↦
      if is_local auth.mode && includes role auth.roles
      then ok (record {
        subject = auth.subject;
        editor = role == editor_role && includes editor_role auth.roles;
      })
      else err auth_forbidden
]

pub data Policy : Type 0 where
  owner_or_editor editor upload_verifier asset_janitor publisher due_worker collector : Policy

abbrev pub is_editor_policy : Policy → Bool
is_editor_policy editor = true
is_editor_policy _ = false

abbrev some_identity : Identity → Result (Option Identity)
some_identity i = ok (some i)

-- The identity that `storedContent` resolves; `none` is `undefined`.
unfoldable pub identity_for : Policy → AuthContext → Result (Option Identity)
unfolding service_actor actor
identity_for owner_or_editor auth = actor auth >>= some_identity
identity_for editor auth = actor auth >>= some_identity
identity_for upload_verifier auth = service_actor auth upload_verifier_identity >> ok none
identity_for asset_janitor auth = service_actor auth asset_janitor_identity >> ok none
identity_for publisher auth = service_actor auth publisher_identity >> ok none
identity_for due_worker auth = service_actor auth due_worker_identity >> ok none
identity_for collector auth = service_actor auth failure_collector_identity >> ok none

unfoldable pub stored_ok : Context ContentState → ResourceState ContentState → Bool
stored_ok context p =
    content_ok p.state
    && p.resource_type == content_item
    && p.resource_id == context.resource_id
    && p.state.content_id == context.resource_id
    && version_ok p.version
    && when_some p.state.review (λ r. leb r.source_version p.version)
    && all (λ slot. leb slot.source_version p.version) p.state.attachments

abbrev may_change : Option Identity → Policy → ContentState → Bool
may_change none policy s = true
may_change (some i) policy s = i.editor || not (is_editor_policy policy) && i.subject == s.author_id

-- `(... ).safeParse(previous?.state)` and the other checks of the stored row
previous_of :
    Context ContentState → Option (ResourceState ContentState) → Result (ResourceState ContentState)
previous_of context none = err resource_invalid_state
previous_of context (some p) = if stored_ok context p then ok p else err resource_invalid_state

module _ (fits : Sized → Bool) where
  -- storedContent; `fits` is part of `contentStateSchema`
  unfoldable pub stored_content :
      Context ContentState → ℕ → Policy → Result (ResourceState ContentState)
  unfolding identity_for previous_of
  stored_content context expected_version policy = do
    identity ← identity_for policy context.auth
    previous ← previous_of context context.previous
    require (fits (state_size previous.state)) resource_invalid_state
    require (may_change identity policy previous.state) auth_forbidden
    require (previous.version == expected_version) resource_conflict
    ok previous

pub record Response : Type 0 where
  pub resource_id : Text
  pub version : ℕ
  pub revision_id : Text
  pub status : ContentStatus
  pub review_id : Option Text
  pub asset_id : Option Text
  pub publication_id : Option Text
  pub generation : Option ℕ
  pub claim : Option Claim

-- CommandDecision. The display titles of the activity are left out.
pub record Decision : Type 0 where
  pub next_state : ContentState
  pub activity_type : EventType
  pub events : List Fact
  pub projections : List Row
  pub response : Response

abbrev next_version : Option (ResourceState ContentState) → ℕ
next_version none = 1
next_version (some p) = p.version + 1

abbrev lifecycle_payload : ContentState → ℕ → Payload
lifecycle_payload next version = lifecycle (record {
  content_id = next.content_id;
  author_id = next.author_id;
  title = next.title;
  revision_id = next.revision_id;
  status = next.status;
  source_version = version;
})

abbrev reports_review : EventType → Bool
reports_review review_requested = true
reports_review review_decided = true
reports_review _ = false

-- `payloadOverride ?? asset ?? (… ? next.review : { … })`. A missing review fails its schema.
abbrev default_payload : EventType → Option AssetSlot → ContentState → ℕ → Option Payload
default_payload event (some asset) next version = some (asset_state asset)
default_payload event none next version =
    if reports_review event
    then elim next.review [ none ↦ none | some r ↦ some (review_state r) ]
    else some (lifecycle_payload next version)

abbrev payload_for : Option Payload → Option Payload → Result Payload
payload_for (some p) other = ok p
payload_for none (some p) = ok p
payload_for none none = err command_validation

abbrev response_claim : EventType → ContentState → Option Claim
response_claim publication_claimed next = elim next.publication [ none ↦ none | some p ↦ p.claim ]
response_claim _ next = none

abbrev response_of : ContentState → ℕ → EventType → Option AssetSlot → Response
response_of next version event asset = record {
  resource_id = next.content_id;
  version = version;
  revision_id = next.revision_id;
  status = next.status;
  review_id = elim next.review [ none ↦ none | some r ↦ some r.review_id ];
  asset_id = elim asset [ none ↦ none | some a ↦ some a.asset_id ];
  publication_id = elim next.publication [ none ↦ none | some p ↦ some p.intent.publication_id ];
  generation = elim next.publication [ none ↦ none | some p ↦ some p.generation ];
  claim = response_claim event next;
}

module _ (fits : Sized → Bool) where
  unfoldable pub finish :
      Context ContentState
      → Option (ResourceState ContentState)
      → ContentState
      → EventType
      → List Fact
      → Option AssetSlot
      → Option Payload
      → Result Decision
  finish context previous next event reviews asset override = do
    require (content_ok next && fits (state_size next)) command_validation
    let version = next_version previous
    require (version_ok version) resource_invalid_state
    payload ← payload_for override (default_payload event asset next version)
    require (within_budget fits payload) command_validation
    main ← fact event payload
    ok (record {
      next_state = next;
      activity_type = event;
      events = reviews ++ (main ∷ []);
      projections = content_projection_plan previous next context.now;
      response = response_of next version event asset;
    })

-- The identifiers that a fresh one must differ from.
abbrev opt_list : Option Text → List Text
opt_list none = []
opt_list (some t) = t ∷ []

abbrev claim_ids : Option Claim → List Text
claim_ids none = []
claim_ids (some c) = c.attempt_id ∷ c.fencing_token ∷ []

abbrev publication_ids : ContentState → List Text
publication_ids s = elim s.publication [
  | none ↦ []
  | some p ↦
      p.intent.publication_id
      ∷ (claim_ids p.claim ++ elim p.last_attempt [ none ↦ [] | some a ↦ claim_ids (some a.claim) ])
]

abbrev pub state_ids : Option ContentState → List Text
state_ids none = []
state_ids (some s) =
    s.revision_id
    ∷ (elim s.review [ none ↦ [] | some r ↦ r.review_id ∷ [] ]
        ++ (elim s.schedule [ none ↦ [] | some c ↦ c.generation ∷ [] ] ++ publication_ids s))

abbrev owns_asset : Text → Option ContentState → Bool
owns_asset value none = false
owns_asset value (some s) = any (λ slot. slot.asset_id == value) s.attachments

-- newId, for the `i`-th identifier that the command draws
unfoldable pub new_id : Context ContentState → ℕ → Option ContentState → Result Text
new_id context i previous =
    if includes (context.ids i) (context.resource_id ∷ state_ids previous)
      || owns_asset (context.ids i) previous
    then err runtime_internal
    else ok (context.ids i)

abbrev pub superseded_by :
    Text → Context ContentState → ResourceState ContentState → Review → Review
superseded_by subject context previous r = record r {
  status = ReviewStatus.superseded;
  source_version = previous.version + 1;
  decision = some (record { actor_id = subject; at = context.now; note = none });
}

pub record Superseded : Type 0 where
  pub review : Option Review
  pub facts : List Fact

unfoldable pub close_review :
    Context ContentState → ResourceState ContentState → Review → Result Superseded
unfolding actor
close_review context previous r =
    if is_pending_review r.status
    then (do
      identity ← actor context.auth
      let closed = superseded_by identity.subject context previous r
      require (review_ok closed) runtime_internal
      event ← fact review_superseded (review_state closed)
      ok (record { review = some closed; facts = event ∷ [] }))
    else ok (record { review = some r; facts = [] })

-- supersede
unfoldable pub supersede : Context ContentState → ResourceState ContentState → Result Superseded
unfolding close_review
supersede context previous = elim previous.state.review [
  | none ↦ ok (record { review = none; facts = [] })
  | some r ↦ close_review context previous r
]
