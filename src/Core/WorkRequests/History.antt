-- ===== src/Core/WorkRequests/History.antt =====
-- packages/core/src/index.ts: the history of a work request from its creation on, told by its calls.
use mathlib.Core.List.{append-nil, append_assoc}
use jawstack.Base.{
  ◌>>=◌, ℕ, Option, none, some, List, [], ◌∷◌, ◌++◌, Text, Instant, ◌-◌, Result, ok, err, ◌≡◌, ap,
  sym, ◌∙◌,
}
use jawstack.Core.Types.{ResourceState, Context, Actor}
use jawstack.Core.WorkRequests.{
  WorkRequestState, WorkRequestStatus, opened, closed, WorkRequestComment, WorkRequestDecision,
  WorkRequestCommand, creates, assigns, changes_status, comments_on, closes, decide_work_request,
  WorkRequestRow, WorkRequestEvent, created, assigned, status_changed, comment_added, was_closed,
}

-- A call of a command: its context, and the stored row but for the state.
pub record Call : Type 0 where
  pub context : Context WorkRequestState
  pub row : ResourceState WorkRequestState
  pub command : WorkRequestCommand

-- What the accepted calls have written: the state, the row of the list and the events.
pub record Kept : Type 0 where
  pub state : WorkRequestState
  pub listed : List WorkRequestRow
  pub events : List WorkRequestEvent

-- The creation of a work request.
pub record Creation : Type 0 where
  pub context : Context WorkRequestState
  pub title : Text
  pub description : Option Text

module _ (sort_text : ℕ → Text → Text) (comment_text : Text → Text) where
  abbrev written : List WorkRequestEvent → WorkRequestDecision → Kept
  written events d = record {
    state = d.next_state;
    listed = d.projections;
    events = events ++ d.events;
  }

  abbrev after : Kept → Result WorkRequestDecision → Kept
  after kept (err code) = kept
  after kept (ok d) = written kept.events d

  abbrev reads : Text → Kept → Call → Context WorkRequestState
  reads id kept call = record (call.context) {
    resource_id = id;
    previous = some (record (call.row) { state = kept.state });
  }

  -- A call on a work request that is there; the executor refuses to create it again.
  unfoldable pub call_on : Text → Kept → Call → Kept
  unfolding decide_work_request
  call_on id kept call = elim call.command [
    | creates title description ↦ kept
    | assigns a ↦
        after kept (decide_work_request sort_text comment_text (reads id kept call) (assigns a))
    | changes_status s ↦
        after kept
          (decide_work_request sort_text comment_text (reads id kept call) (changes_status s))
    | comments_on b ↦
        after kept (decide_work_request sort_text comment_text (reads id kept call) (comments_on b))
    | closes r ↦
        after kept (decide_work_request sort_text comment_text (reads id kept call) (closes r))
  ]

  unfoldable pub calls_on : Text → Kept → List Call → Kept
  unfolding call_on
  calls_on id kept [] = kept
  calls_on id kept (call ∷ calls) = calls_on id (call_on id kept call) calls

  -- The work request as it is created, and as the calls then leave it.
  unfoldable pub history : Creation → List Call → Result Kept
  unfolding decide_work_request calls_on
  history c calls = do
    d ← decide_work_request sort_text comment_text c.context (creates c.title c.description)
    ok (calls_on c.context.resource_id (written [] d) calls)

  -- The same, told without any command.
  abbrev sets_status : WorkRequestStatus → WorkRequestCommand → WorkRequestStatus
  sets_status s (changes_status t) = t
  sets_status s (closes r) = closed
  sets_status s _ = s

  abbrev sets_assignee : Option Text → WorkRequestCommand → Option Text
  sets_assignee a (assigns b) = some b
  sets_assignee a _ = a

  abbrev sets_time : Instant → Call → Instant
  sets_time t call = elim call.command [
    | creates title description ↦ t
    | assigns a ↦ call.context.now
    | changes_status s ↦ call.context.now
    | comments_on b ↦ call.context.now
    | closes r ↦ call.context.now
  ]

  abbrev last_status : WorkRequestStatus → List Call → WorkRequestStatus
  last_status s [] = s
  last_status s (call ∷ calls) = last_status (sets_status s call.command) calls

  abbrev last_assignee : Option Text → List Call → Option Text
  last_assignee a [] = a
  last_assignee a (call ∷ calls) = last_assignee (sets_assignee a call.command) calls

  abbrev last_time : Instant → List Call → Instant
  last_time t [] = t
  last_time t (call ∷ calls) = last_time (sets_time t call) calls

  abbrev caller : Context WorkRequestState → Actor
  caller context = record {
    subject = context.auth.subject;
    display_name = context.auth.display_name;
  }

  -- A comment has an id made of the request's, the text of the call, and its caller and time.
  abbrev comments_of : Call → List WorkRequestComment
  comments_of call = elim call.command [
    | creates title description ↦ []
    | assigns a ↦ []
    | changes_status s ↦ []
    | comments_on b ↦
        record {
          comment_id = comment_text call.context.request_id;
          body = b;
          author = caller call.context;
          created_at = call.context.now;
        }
        ∷ []
    | closes r ↦ []
  ]

  abbrev all_comments : List Call → List WorkRequestComment
  all_comments [] = []
  all_comments (call ∷ calls) = comments_of call ++ all_comments calls

  abbrev events_of : WorkRequestStatus → Call → List WorkRequestEvent
  events_of status call = elim call.command [
    | creates title description ↦ []
    | assigns a ↦ assigned a ∷ []
    | changes_status s ↦ status_changed status s ∷ []
    | comments_on b ↦ comment_added (comment_text call.context.request_id) b ∷ []
    | closes r ↦ was_closed r ∷ []
  ]

  abbrev all_events : WorkRequestStatus → List Call → List WorkRequestEvent
  all_events status [] = []
  all_events status (call ∷ calls) =
      events_of status call ++ all_events (sets_status status call.command) calls

  -- The state and the events that come of a state and later calls.
  abbrev state_told : WorkRequestState → List Call → WorkRequestState
  state_told s calls = record s {
    status = last_status s.status calls;
    assignee_id = last_assignee s.assignee_id calls;
    updated_at = last_time s.updated_at calls;
    comments = s.comments ++ all_comments calls;
  }

  -- The row of the list shows a state.
  abbrev row_shown : Text → WorkRequestState → WorkRequestRow
  row_shown id s = record {
    item_id = id;
    sort = sort_text (9007199254740991 - s.updated_at) id;
    title = s.title;
    status = s.status;
    updated_at = s.updated_at;
    assignee_id = s.assignee_id;
  }

  abbrev kept_told : Text → WorkRequestState → List WorkRequestEvent → Kept
  kept_told id s events = record { state = s; listed = row_shown id s ∷ []; events = events }

  abbrev first_state : Creation → WorkRequestState
  first_state c = record {
    title = c.title;
    description = c.description;
    status = opened;
    assignee_id = none;
    updated_at = c.context.now;
    comments = [];
  }

  abbrev pub told : Creation → List Call → Kept
  told c calls =
      kept_told c.context.resource_id (state_told (first_state c) calls)
        (created c.title c.description (caller c.context) ∷ all_events opened calls)

  -- Calls on a state that its list shows.
  abbrev later : Text → WorkRequestState → List WorkRequestEvent → List Call → Kept
  later id s events calls = kept_told id (state_told s calls) (events ++ all_events s.status calls)

  abbrev with_comments :
      Text → WorkRequestState → List WorkRequestComment → List WorkRequestEvent → Kept
  with_comments id s comments events = kept_told id (record s { comments = comments }) events

  nothing-later :
      (id : Text) (s : WorkRequestState) (events : List WorkRequestEvent)
      → kept_told id s events ≡ later id s events []
  nothing-later id s events =
      ap (λ cs. with_comments id s cs events) (sym (append-nil s.comments))
      ∙ ap (with_comments id s (s.comments ++ [])) (sym (append-nil events))

  -- One call more, by its command.
  call-later :
      (id : Text) (s : WorkRequestState) (events : List WorkRequestEvent)
      (context : Context WorkRequestState) (row : ResourceState WorkRequestState)
      (command : WorkRequestCommand) (calls : List Call)
      → ((t : WorkRequestState) (es : List WorkRequestEvent)
          → calls_on id (kept_told id t es) calls ≡ later id t es calls)
      → calls_on id
          (call_on id
            (kept_told id s events)
            (record { context = context; row = row; command = command }))
          calls
        ≡ later id s events ((record { context = context; row = row; command = command }) ∷ calls)
  unfolding call_on
  call-later id s events context row (creates title description) calls rest = rest s events
  call-later id s events context row (assigns a) calls rest =
      rest (record s { assignee_id = some a; updated_at = context.now })
        (events ++ (assigned a ∷ []))
      ∙ ap (kept_told id _) (append_assoc events (assigned a ∷ []) (all_events s.status calls))
  call-later id s events context row (changes_status t) calls rest =
      rest (record s { status = t; updated_at = context.now })
        (events ++ (status_changed s.status t ∷ []))
      ∙ ap (kept_told id _)
          (append_assoc events (status_changed s.status t ∷ []) (all_events t calls))
  call-later id s events context row (comments_on b) calls rest =
      let comment : WorkRequestComment = record {
        comment_id = comment_text context.request_id;
        body = b;
        author = caller context;
        created_at = context.now;
      } in
      let event = comment_added (comment_text context.request_id) b in
      rest (record s { updated_at = context.now; comments = s.comments ++ (comment ∷ []) })
        (events ++ (event ∷ []))
      ∙ (ap
            (λ cs.
              with_comments id
                (record s {
                  status = last_status s.status calls;
                  assignee_id = last_assignee s.assignee_id calls;
                  updated_at = last_time context.now calls;
                })
                cs ((events ++ (event ∷ [])) ++ all_events s.status calls))
            (append_assoc s.comments (comment ∷ []) (all_comments calls))
          ∙ ap (kept_told id _) (append_assoc events (event ∷ []) (all_events s.status calls)))
  call-later id s events context row (closes r) calls rest =
      rest (record s { status = closed; updated_at = context.now }) (events ++ (was_closed r ∷ []))
      ∙ ap (kept_told id _) (append_assoc events (was_closed r ∷ []) (all_events closed calls))

  calls_on-later :
      (id : Text) (calls : List Call) (s : WorkRequestState) (events : List WorkRequestEvent)
      → calls_on id (kept_told id s events) calls ≡ later id s events calls
  unfolding calls_on
  calls_on-later id [] s events = nothing-later id s events
  calls_on-later id (call ∷ calls) s events =
      call-later id s events call.context call.row call.command calls (calls_on-later id calls)

  -- From its creation on, whatever commands are called on a work request, by whom and in whatever
  -- contexts: its title and description are those of the creation; its status, assignee and time those
  -- of the last call that sets them; its comments one of each call of `comment`, in order, with the
  -- call's text, caller and time and the id made of its request; its events that of the creation and
  -- one of each later call with what that call says; and its one row in the list shows its state.
  pub history-told : (c : Creation) (calls : List Call) → history c calls ≡ ok (told c calls)
  unfolding history
  history-told c calls = ap ok (
      calls_on-later c.context.resource_id calls (first_state c)
        (created c.title c.description (caller c.context) ∷ []))
