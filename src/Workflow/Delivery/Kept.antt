-- ===== src/Workflow/Delivery/Kept.antt =====
-- How long the markers of packages/core/src/workflow/delivery.ts stay, whatever else is delivered.
use jawstack.Base.{
  set, ◌+◌, ◌||◌, ◌&&◌, is_some, length, runtime_unavailable, inl, inr, err, same_pair-eq, Bool,
  Result, all, ap, List, same_pair, ℕ, true, false, some, [], ◌∷◌, Text, Instant, ltb, ◌≡◌, refl,
  sym, ◌∙◌, ◌≤◌, ◌<◌, arith, subst, some-inj, ok, >>=-elim, require-elim, ok-inj, get,
  get-set_other, pair_key, Bool-cases,
}
use jawstack.Workflow.Delivery.{
  marker_lifetime_ms, full, processed, available, after_check, Presence, after_ready, finish_work,
  finish_write, DeliveryStatus, deliver, Call, Marker, MarkerMap, Fact, expire, find_marker,
  check_marker, write_marker,
}

abbrev pub new_marker : Fact → Instant → Marker
new_marker event time = record {
  fingerprint = event.fingerprint;
  expires_at = time + marker_lifetime_ms;
}

-- A marker for the fact that lasts until a time.
pub record Remembers (map : MarkerMap) (consumer : Text) (fact : Fact) (until : Instant)
    : Type 0 where
  pub marker : Marker
  pub held : get pair_key map (consumer, fact.event_id) ≡ some marker
  pub same : marker.fingerprint ≡ fact.fingerprint
  pub lasting : until ≤ marker.expires_at

get-expire :
    (map : MarkerMap) (key : Text × Text) (time : Instant) (m : Marker)
    → get pair_key map key ≡ some m
    → time < m.expires_at
    → get pair_key (expire map time) key ≡ some m
unfolding get
get-expire [] key time m held live = cc
get-expire (((a, b), row) ∷ rest) (p, q) time m held live =
    elim (Bool-cases (same_pair (a, b) (p, q))) [
      | inl here ↦
          let row_is : row ≡ m = some-inj (ground (arith, here, held)) in
          let fresh : ltb time row.expires_at ≡ true =
            subst (λ (x : Marker). ltb time x.expires_at ≡ true) (sym row_is) (ground arith) in
          ground (arith, here, held, fresh)
      | inr there ↦
          ground (arith, there, get-expire rest (p, q) time m (ground (arith, there, held)) live)
    ]

Remembers-expire :
    (map : MarkerMap) (consumer : Text) (fact : Fact) (until time : Instant)
    → Remembers map consumer fact until
    → time < until
    → Remembers (expire map time) consumer fact until
Remembers-expire map consumer fact until time r early = record {
  marker = r.marker;
  held = get-expire map (consumer, fact.event_id) time r.marker r.held (omega (arith, r.lasting));
  same = r.same;
  lasting = r.lasting;
}

-- A remembered fact is found, and no marker is free for it.
find_marker-Remembers :
    (map : MarkerMap) (consumer : Text) (fact : Fact) (until : Instant)
    (r : Remembers map consumer fact until)
    → find_marker map consumer fact ≡ ok (some r.marker)
find_marker-Remembers map consumer fact until r = ground (arith, r.held, r.same)

pub check_marker-Remembers :
    (maximum : ℕ) (map : MarkerMap) (consumer : Text) (fact : Fact) (until time : Instant)
    → Remembers map consumer fact until
    → time < until
    → check_marker maximum map consumer fact time ≡ ok processed
unfolding check_marker
check_marker-Remembers maximum map consumer fact until time r early =
    let after = Remembers-expire map consumer fact until time r early in
    rw (find_marker-Remembers (expire map time) consumer fact until after) refl

-- A call for another key leaves the marker, and so does one for the same key, which ends at its check.
write_marker-Remembers :
    (maximum : ℕ) (map : MarkerMap) (consumer other : Text) (fact event : Fact)
    (until time : Instant) {after : MarkerMap}
    → Remembers map consumer fact until
    → time < until
    → same_pair (other, event.event_id) (consumer, fact.event_id) ≡ false
    → write_marker maximum map other event time ≡ ok after
    → Remembers after consumer fact until
unfolding write_marker
write_marker-Remembers maximum map consumer other fact event until time r early apart h =
    >>=-elim (find_marker (expire map time) other event) _ h λ old _ h1.
      require-elim (is_some old || ltb (length (expire map time)) maximum) runtime_unavailable
        (ok (set pair_key (expire map time) (other, event.event_id) (new_marker event time))) h1
        λ _ h2.
          let kept = Remembers-expire map consumer fact until time r early in
          subst (λ m. Remembers m consumer fact until) (ok-inj h2)
            (record {
              marker = kept.marker;
              held =
                  get-set_other pair_key (expire map time) (other, event.event_id)
                    (consumer, fact.event_id) (new_marker event time) apart
                  ∙ kept.held;
              same = kept.same;
              lasting = kept.lasting;
            })

check_marker-taken :
    (maximum : ℕ) (map : MarkerMap) (consumer other : Text) (fact event : Fact)
    (until time : Instant)
    → Remembers map consumer fact until
    → time < until
    → same_pair (other, event.event_id) (consumer, fact.event_id) ≡ true
    → check_marker maximum map other event time ≡ ok available
    → ⊥
unfolding check_marker
check_marker-taken maximum map consumer other fact event until time r early same h =
    let kept = Remembers-expire map consumer fact until time r early in
    let held : get pair_key (expire map time) (other, event.event_id) ≡ some kept.marker =
      ap (get pair_key (expire map time))
        (same_pair-eq (other, event.event_id) (consumer, fact.event_id) same)
      ∙ kept.held in
    >>=-elim (find_marker (expire map time) other event) _ h
      λ old found h1. ground (arith, held, found, h1)

module _ (maximum : ℕ) (c : Call) (consumer : Text) (fact : Fact) (until : Instant)
    (checked : c.checked_at < until) (written : c.written_at < until) where
  finish-Remembers :
      (map : MarkerMap) (status : DeliveryStatus) (r : Result MarkerMap)
      → Remembers map consumer fact until
      → ((after : MarkerMap) → r ≡ ok after → Remembers after consumer fact until)
      → Remembers (finish_write maximum c map status r).markers consumer fact until
  finish-Remembers map status (err e) kept after =
      Remembers-expire map consumer fact until c.written_at kept written
  finish-Remembers map status (ok m) kept after = after m refl

  work-Remembers :
      (map : MarkerMap) (work : Result DeliveryStatus)
      → same_pair (c.consumer, c.fact.event_id) (consumer, fact.event_id) ≡ false
      → Remembers map consumer fact until
      → Remembers (finish_work maximum c map work).markers consumer fact until
  work-Remembers map (err e) apart kept = kept
  work-Remembers map (ok status) apart kept =
      finish-Remembers map status (write_marker maximum map c.consumer c.fact c.written_at) kept
        (λ after h.
          write_marker-Remembers maximum map consumer c.consumer fact c.fact until c.written_at kept
            written apart h)

  check-Remembers :
      (map : MarkerMap) (r : Result Presence)
      → Remembers map consumer fact until
      → (r ≡ ok available
          → same_pair (c.consumer, c.fact.event_id) (consumer, fact.event_id) ≡ false)
      → Remembers (after_check maximum c map r).markers consumer fact until
  check-Remembers map (err e) kept apart = kept
  check-Remembers map (ok processed) kept apart = kept
  check-Remembers map (ok full) kept apart = kept
  check-Remembers map (ok available) kept apart = work-Remembers map c.work (apart refl) kept

  apart_if_available :
      (map : MarkerMap)
      → Remembers map consumer fact until
      → check_marker maximum map c.consumer c.fact c.checked_at ≡ ok available
      → same_pair (c.consumer, c.fact.event_id) (consumer, fact.event_id) ≡ false
  apart_if_available map kept h =
      elim (Bool-cases (same_pair (c.consumer, c.fact.event_id) (consumer, fact.event_id))) [
        | inl same ↦ absurd (
            check_marker-taken maximum map consumer c.consumer fact c.fact until c.checked_at kept
              checked same h)
        | inr apart ↦ apart
      ]

  ready-Remembers :
      (map : MarkerMap) (ready : Result Bool)
      → Remembers map consumer fact until
      → Remembers (after_ready maximum c map ready).markers consumer fact until
  ready-Remembers map (err e) kept = kept
  ready-Remembers map (ok false) kept = kept
  ready-Remembers map (ok true) kept =
      check-Remembers (expire map c.checked_at)
        (check_marker maximum map c.consumer c.fact c.checked_at)
        (Remembers-expire map consumer fact until c.checked_at kept checked)
        (apart_if_available map kept)

  deliver-Remembers :
      (map : MarkerMap)
      → Remembers map consumer fact until
      → Remembers (deliver maximum c map).markers consumer fact until
  unfolding deliver
  deliver-Remembers map kept = ready-Remembers map c.ready kept

unfoldable pub deliver_all : ℕ → MarkerMap → List Call → MarkerMap
deliver_all maximum map [] = map
deliver_all maximum map (c ∷ rest) = deliver_all maximum (deliver maximum c map).markers rest

-- Whether both clock readings of a call are before a time.
abbrev pub is_before : Instant → Call → Bool
is_before until c = ltb c.checked_at until && ltb c.written_at until

pub deliver_all-Remembers :
    (maximum : ℕ) (map : MarkerMap) (calls : List Call) (consumer : Text) (fact : Fact)
    (until : Instant)
    → all (is_before until) calls ≡ true
    → Remembers map consumer fact until
    → Remembers (deliver_all maximum map calls) consumer fact until
unfolding deliver_all
deliver_all-Remembers maximum map [] consumer fact until early kept = kept
deliver_all-Remembers maximum map (c ∷ rest) consumer fact until early kept =
    deliver_all-Remembers maximum (deliver maximum c map).markers rest consumer fact until
      (ground (arith, early))
      (deliver-Remembers maximum c consumer fact until (ground (arith, early))
        (ground (arith, early)) map kept)
