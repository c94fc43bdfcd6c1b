-- ===== src/Content/Resource/Laws.antt =====
-- What an accepted load and an accepted finish of apps/content-operations/src/domain/resources.ts
-- say.
use jawstack.Base.{
  ℕ, ◌+◌, Bool, true, ◌&&◌, Option, none, some, List, [], ◌∷◌, ◌++◌, ◌==◌, ◌≡◌, arith, ok,
  >>=-eq-ok, require->>-eq-ok, subst,
}
use jawstack.Content.Facts.{state_size, within_budget, Sized, EventType, Payload, Fact, fact}
use jawstack.Content.Projections.{content_projection_plan}
use jawstack.Content.Resource.{
  Policy, identity_for, previous_of, stored_content, stored_ok, version_ok, may_change, finish,
  Decision, next_version, payload_for, response_of,
}
use jawstack.Content.StateSchema.{content_ok, publication_check}
use jawstack.Content.StateSchema.Parts.{content_ok-IsContent}
use jawstack.Content.Types.{AssetSlot, ContentState}
use jawstack.Core.Types.{ResourceState, Context}

module _ (fits : Sized → Bool) (context : Context ContentState) where
  -- What a load that succeeded has read.
  pub record Loaded (version : ℕ) (previous : ResourceState ContentState) : Type 0 where
    pub found : context.previous ≡ some previous
    pub valid : stored_ok context previous ≡ true
    pub content : content_ok previous.state ≡ true
    pub published : publication_check previous.state ≡ true
    pub resource_id : previous.resource_id ≡ context.resource_id
    pub content_id : previous.state.content_id ≡ context.resource_id
    pub version_fits : version_ok previous.version ≡ true
    pub fitting : fits (state_size previous.state) ≡ true
    pub expected : previous.version ≡ version

  previous_of-eq-ok :
      (o : Option (ResourceState ContentState)) (previous : ResourceState ContentState)
      → previous_of context o ≡ ok previous
      → (o ≡ some previous) × (stored_ok context previous ≡ true)
  unfolding previous_of
  previous_of-eq-ok none previous h = cc
  previous_of-eq-ok (some p) previous h = ground arith

  read_row :
      (version : ℕ) (previous : ResourceState ContentState)
      → context.previous ≡ some previous
      → stored_ok context previous ≡ true
      → fits (state_size previous.state) ≡ true
      → previous.version ≡ version
      → Loaded version previous
  unfolding stored_ok
  read_row version previous found valid fitting expected =
      let content : content_ok previous.state ≡ true = ground arith in
      record {
        found = found;
        valid = valid;
        content = content;
        published = (content_ok-IsContent previous.state content).published;
        resource_id = ground arith;
        content_id = ground arith;
        version_fits = ground arith;
        fitting = fitting;
        expected = expected;
      }

  pub stored_content-Loaded :
      (version : ℕ) (policy : Policy) (previous : ResourceState ContentState)
      → stored_content fits context version policy ≡ ok previous
      → Loaded version previous
  unfolding stored_content
  stored_content-Loaded version policy previous h =
      let (identity, _, rest) = >>=-eq-ok (identity_for policy context.auth) _ h in
      let (p, read, checks) = >>=-eq-ok (previous_of context context.previous) _ rest in
      let (fitting, checks') = require->>-eq-ok (fits (state_size p.state)) _ _ checks in
      let (_, checks'') = require->>-eq-ok (may_change identity policy p.state) _ _ checks' in
      let (expected, done) = require->>-eq-ok (p.version == version) _ _ checks'' in
      let (found, valid) = previous_of-eq-ok context.previous p read in
      let same : p ≡ previous = cc in
      subst (Loaded version) same (read_row version p found valid fitting (ground arith))

  -- `finish` with a payload succeeds exactly when the state, its version and the fact are valid.
  pub finish_lem :
      (previous : ResourceState ContentState) (next : ContentState) (event : EventType)
      (events : List Fact) (payload : Payload) (main : Fact)
      → content_ok next ≡ true
      → fits (state_size next) ≡ true
      → within_budget fits payload ≡ true
      → version_ok (previous.version + 1) ≡ true
      → fact event payload ≡ ok main
      → finish fits context (some previous) next event events none (some payload)
        ≡ ok (record {
          next_state = next;
          activity_type = event;
          events = events ++ (main ∷ []);
          projections = content_projection_plan (some previous) next context.now;
          response = response_of next (previous.version + 1) event none;
        })
  unfolding finish
  finish_lem previous next event events payload main valid fitting small version made =
      rw (valid, fitting, small, version, made)

  pub finish-next_state :
      (previous : Option (ResourceState ContentState)) (next : ContentState) (event : EventType)
      (events : List Fact) (asset : Option AssetSlot) (payload : Option Payload) {d : Decision}
      → finish fits context previous next event events asset payload ≡ ok d
      → (d.next_state ≡ next) × (content_ok next ≡ true)
  unfolding finish
  finish-next_state previous next event events asset payload h =
      let (valid, rest) = require->>-eq-ok (content_ok next && fits (state_size next)) _ _ h in
      let (_, rest') = require->>-eq-ok (version_ok (next_version previous)) _ _ rest in
      let (p, _, rest'') = >>=-eq-ok (payload_for payload _) _ rest' in
      let (_, rest3) = require->>-eq-ok (within_budget fits p) _ _ rest'' in
      let (main, _, made) = >>=-eq-ok (fact event p) _ rest3 in (ground arith, ground arith)
