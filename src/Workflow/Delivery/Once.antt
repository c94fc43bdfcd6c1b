-- ===== src/Workflow/Delivery/Once.antt =====
-- A fact delivered again while the marker of packages/core/src/workflow/delivery.ts for it lasts.
use jawstack.Base.{
  err-ne-ok, get-set, set, ◌+◌, ◌||◌, is_some, length, runtime_unavailable, err, Bool, Result, all,
  ap, List, ℕ, true, false, Text, Instant, ltb, ◌≡◌, refl, ◌∙◌, ◌<◌, arith, subst, ok, >>=-elim,
  require-elim, ok-inj, pair_key,
}
use jawstack.Workflow.Delivery.{
  duplicate, marker_lifetime_ms, full, processed, available, after_check, Presence, after_ready,
  finish_work, finish_write, DeliveryStatus, deliver, Call, MarkerMap, Fact, expire, find_marker,
  check_marker, write_marker,
}
use jawstack.Workflow.Delivery.Kept.{
  new_marker, Remembers, check_marker-Remembers, deliver_all, is_before, deliver_all-Remembers,
}

-- A call that got to its work and answered has left a marker for the marker's lifetime.
write_marker-new :
    (maximum : ℕ) (map : MarkerMap) (consumer : Text) (fact : Fact) (time : Instant)
    {after : MarkerMap}
    → write_marker maximum map consumer fact time ≡ ok after
    → Remembers after consumer fact (time + marker_lifetime_ms)
unfolding write_marker
write_marker-new maximum map consumer fact time h =
    >>=-elim (find_marker (expire map time) consumer fact) _ h λ old _ h1.
      require-elim (is_some old || ltb (length (expire map time)) maximum) runtime_unavailable
        (ok (set pair_key (expire map time) (consumer, fact.event_id) (new_marker fact time))) h1
        λ _ h2.
          subst (λ m. Remembers m consumer fact (time + marker_lifetime_ms)) (ok-inj h2)
            (record {
              marker = new_marker fact time;
              held =
                  get-set pair_key (expire map time) (consumer, fact.event_id)
                    (new_marker fact time);
              same = refl;
              lasting = omega arith;
            })

false-ne-true : false ≡ true → ⊥
false-ne-true h = cc

-- A call that did its work to an answer has written the marker.
finish-new :
    (maximum : ℕ) (c : Call) (map : MarkerMap) (status : DeliveryStatus) (r : Result MarkerMap)
    (answer : DeliveryStatus)
    → write_marker maximum map c.consumer c.fact c.written_at ≡ r
    → (finish_write maximum c map status r).answer ≡ ok answer
    → Remembers
        (finish_write maximum c map status r).markers
        c.consumer
        c.fact
        (c.written_at + marker_lifetime_ms)
finish-new maximum c map status (err e) answer h done = absurd (err-ne-ok done)
finish-new maximum c map status (ok after) answer h done =
    write_marker-new maximum map c.consumer c.fact c.written_at h

work-new :
    (maximum : ℕ) (c : Call) (map : MarkerMap) (work : Result DeliveryStatus)
    (answer : DeliveryStatus)
    → (finish_work maximum c map work).answer ≡ ok answer
    → Remembers
        (finish_work maximum c map work).markers
        c.consumer
        c.fact
        (c.written_at + marker_lifetime_ms)
work-new maximum c map (err e) answer done = absurd (err-ne-ok done)
work-new maximum c map (ok status) answer done =
    finish-new maximum c map status (write_marker maximum map c.consumer c.fact c.written_at) answer
      refl done

check-new :
    (maximum : ℕ) (c : Call) (map : MarkerMap) (r : Result Presence) (answer : DeliveryStatus)
    → (after_check maximum c map r).worked ≡ true
    → (after_check maximum c map r).answer ≡ ok answer
    → Remembers
        (after_check maximum c map r).markers
        c.consumer
        c.fact
        (c.written_at + marker_lifetime_ms)
check-new maximum c map (err e) answer worked done = absurd (false-ne-true worked)
check-new maximum c map (ok processed) answer worked done = absurd (false-ne-true worked)
check-new maximum c map (ok full) answer worked done = absurd (false-ne-true worked)
check-new maximum c map (ok available) answer worked done =
    work-new maximum c map c.work answer done

ready-new :
    (maximum : ℕ) (c : Call) (map : MarkerMap) (ready : Result Bool) (answer : DeliveryStatus)
    → (after_ready maximum c map ready).worked ≡ true
    → (after_ready maximum c map ready).answer ≡ ok answer
    → Remembers
        (after_ready maximum c map ready).markers
        c.consumer
        c.fact
        (c.written_at + marker_lifetime_ms)
ready-new maximum c map (err e) answer worked done = absurd (false-ne-true worked)
ready-new maximum c map (ok false) answer worked done = absurd (false-ne-true worked)
ready-new maximum c map (ok true) answer worked done =
    check-new maximum c (expire map c.checked_at)
      (check_marker maximum map c.consumer c.fact c.checked_at) answer worked done

check_marker-here :
    (maximum : ℕ) (map : MarkerMap) (c again : Call)
    → again.consumer ≡ c.consumer
    → again.fact ≡ c.fact
    → check_marker maximum map c.consumer c.fact again.checked_at ≡ ok processed
    → check_marker maximum map again.consumer again.fact again.checked_at ≡ ok processed
check_marker-here maximum map c again consumer fact present =
    ap (λ n. check_marker maximum map n again.fact again.checked_at) consumer
    ∙ (ap (λ e. check_marker maximum map c.consumer e again.checked_at) fact ∙ present)

check-duplicate :
    (maximum : ℕ) (c : Call) (map : MarkerMap) (r : Result Presence)
    → r ≡ ok processed
    → ((after_check maximum c map r).answer ≡ ok duplicate)
      × ((after_check maximum c map r).worked ≡ false)
check-duplicate maximum c map r h = (
  ap (λ x. (after_check maximum c map x).answer) h,
  ap (λ x. (after_check maximum c map x).worked) h,
)

ready-duplicate :
    (maximum : ℕ) (c : Call) (map : MarkerMap) (ready : Result Bool)
    → ready ≡ ok true
    → check_marker maximum map c.consumer c.fact c.checked_at ≡ ok processed
    → ((after_ready maximum c map ready).answer ≡ ok duplicate)
      × ((after_ready maximum c map ready).worked ≡ false)
ready-duplicate maximum c map (err e) h present = absurd (err-ne-ok h)
ready-duplicate maximum c map (ok false) h present = absurd (false-ne-true (ok-inj h))
ready-duplicate maximum c map (ok true) h present =
    check-duplicate maximum c (expire map c.checked_at)
      (check_marker maximum map c.consumer c.fact c.checked_at) present

-- Once a call has done its work to an answer, whatever calls follow with clocks before the end of its
-- marker, a call for the same consumer and fact in that time that is let through to the markers
-- answers "duplicate" and does not work.
pub delivered_once :
    (maximum : ℕ) (map : MarkerMap) (c again : Call) (answer : DeliveryStatus) (calls : List Call)
    → (deliver maximum c map).worked ≡ true
    → (deliver maximum c map).answer ≡ ok answer
    → all (is_before (c.written_at + marker_lifetime_ms)) calls ≡ true
    → again.consumer ≡ c.consumer
    → again.fact ≡ c.fact
    → again.ready ≡ ok true
    → again.checked_at < c.written_at + marker_lifetime_ms
    → let later =
        deliver maximum again (deliver_all maximum (deliver maximum c map).markers calls) in
      (later.answer ≡ ok duplicate) × (later.worked ≡ false)
unfolding deliver
delivered_once maximum map c again answer calls worked done early consumer fact ready soon =
    let until = c.written_at + marker_lifetime_ms in
    let kept =
      deliver_all-Remembers maximum (deliver maximum c map).markers calls c.consumer c.fact until
        early (ready-new maximum c map c.ready answer worked done) in
    let present =
      check_marker-Remembers maximum (deliver_all maximum (deliver maximum c map).markers calls)
        c.consumer c.fact until again.checked_at kept soon in
    ready-duplicate maximum again (deliver_all maximum (deliver maximum c map).markers calls)
      again.ready ready
      (check_marker-here maximum (deliver_all maximum (deliver maximum c map).markers calls) c again
        consumer fact present)
