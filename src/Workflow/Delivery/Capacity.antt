-- ===== src/Workflow/Delivery/Capacity.antt =====
-- The size of the maps of createMemoryWorkflowMarkers in packages/core/src/workflow/delivery.ts.
use jawstack.Base.{
  ◌<◌, suc, ℕ, Bool, true, false, Option, some, none, List, [], ◌∷◌, Text, Instant, length, keep,
  is_some, ltb, ◌||◌, ◌≡◌, refl, subst, ◌≤◌, arith, Result, ok, err, ok-inj, >>=-elim, require-elim,
  get, set, pair_key, same_pair, Bool-cases, inl, inr, runtime_unavailable,
}
use jawstack.Workflow.Delivery.{
  Marker, MarkerMap, Fact, Call, DeliveryStatus, Presence, processed, available, full, expire,
  find_marker, write_marker, check_marker, deliver, after_ready, after_check, finish_work,
  finish_write,
}
use jawstack.Workflow.Delivery.Kept.{new_marker, deliver_all}

length-keep {ℓ} : {A : Type ℓ} (p : A → Bool) (xs : List A) → length (keep p xs) ≤ length xs
length-keep p [] = omega arith
length-keep p (x ∷ xs) = elim (Bool-cases (p x)) [
  | inl h ↦ ground (arith, h, length-keep p xs)
  | inr h ↦ ground (arith, h, length-keep p xs)
]

length-set :
    (map : MarkerMap) (k : Text × Text) (m : Marker)
    → length (set pair_key map k m) ≤ suc (length map)
unfolding set
length-set [] k m = omega arith
length-set ((j, old) ∷ rest) k m = elim (Bool-cases (same_pair j k)) [
  | inl h ↦ ground (arith, h)
  | inr h ↦ ground (arith, h, length-set rest k m)
]

-- A key that is there is set in place.
length-set_old :
    (map : MarkerMap) (k : Text × Text) (m old : Marker)
    → get pair_key map k ≡ some old
    → length (set pair_key map k m) ≡ length map
unfolding get set
length-set_old [] k m old h = absurd cc
length-set_old ((j, row) ∷ rest) k m old h = elim (Bool-cases (same_pair j k)) [
  | inl here ↦ ground (arith, here)
  | inr there ↦ ground (arith, there, length-set_old rest k m old (ground (arith, there, h)))
]

find_marker-get :
    (map : MarkerMap) (consumer : Text) (fact : Fact) (old : Marker)
    → find_marker map consumer fact ≡ ok (some old)
    → get pair_key map (consumer, fact.event_id) ≡ some old
find_marker-get map consumer fact old h = by_found (get pair_key map (consumer, fact.event_id)) refl
  where
    by_found :
        (found : Option Marker)
        → get pair_key map (consumer, fact.event_id) ≡ found
        → get pair_key map (consumer, fact.event_id) ≡ some old
    by_found found at = ground (arith, at, h)

-- A written row takes the place of one with its key, or a free one.
set-fits :
    (maximum : ℕ) (map : MarkerMap) (consumer : Text) (fact : Fact) (m : Marker)
    (old : Option Marker)
    → length map ≤ maximum
    → find_marker map consumer fact ≡ ok old
    → (is_some old || ltb (length map) maximum) ≡ true
    → length (set pair_key map (consumer, fact.event_id) m) ≤ maximum
set-fits maximum map consumer fact m none fits found free =
    let room : length map < maximum = ground (arith, free) in
    omega (arith, length-set map (consumer, fact.event_id) m)
set-fits maximum map consumer fact m (some old) fits found free = omega (
  arith,
  length-set_old map (consumer, fact.event_id) m old (find_marker-get map consumer fact old found),
)

write_marker-fits :
    (maximum : ℕ) (map : MarkerMap) (consumer : Text) (fact : Fact) (time : Instant)
    {after : MarkerMap}
    → length map ≤ maximum
    → write_marker maximum map consumer fact time ≡ ok after
    → length after ≤ maximum
unfolding write_marker
write_marker-fits maximum map consumer fact time fits h =
    >>=-elim (find_marker (expire map time) consumer fact) _ h λ old found h1.
      require-elim (is_some old || ltb (length (expire map time)) maximum) runtime_unavailable
        (ok (set pair_key (expire map time) (consumer, fact.event_id) (new_marker fact time))) h1
        λ free h2.
          subst (λ m. length m ≤ maximum) (ok-inj h2)
            (set-fits maximum (expire map time) consumer fact (new_marker fact time) old
              (omega (arith, length-keep (λ row. ltb time row.1.expires_at) map)) found free)

finish_write-fits :
    (maximum : ℕ) (c : Call) (map : MarkerMap) (status : DeliveryStatus) (r : Result MarkerMap)
    → length map ≤ maximum
    → ((after : MarkerMap) → r ≡ ok after → length after ≤ maximum)
    → length (finish_write maximum c map status r).markers ≤ maximum
finish_write-fits maximum c map status (err e) fits written =
    omega (arith, length-keep (λ row. ltb c.written_at row.1.expires_at) map)
finish_write-fits maximum c map status (ok after) fits written = written after refl

finish_work-fits :
    (maximum : ℕ) (c : Call) (map : MarkerMap) (work : Result DeliveryStatus)
    → length map ≤ maximum
    → length (finish_work maximum c map work).markers ≤ maximum
finish_work-fits maximum c map (err e) fits = fits
finish_work-fits maximum c map (ok status) fits =
    finish_write-fits maximum c map status (write_marker maximum map c.consumer c.fact c.written_at)
      fits (λ after h. write_marker-fits maximum map c.consumer c.fact c.written_at fits h)

after_check-fits :
    (maximum : ℕ) (c : Call) (map : MarkerMap) (r : Result Presence)
    → length map ≤ maximum
    → length (after_check maximum c map r).markers ≤ maximum
after_check-fits maximum c map (err e) fits = fits
after_check-fits maximum c map (ok processed) fits = fits
after_check-fits maximum c map (ok full) fits = fits
after_check-fits maximum c map (ok available) fits = finish_work-fits maximum c map c.work fits

after_ready-fits :
    (maximum : ℕ) (c : Call) (map : MarkerMap) (ready : Result Bool)
    → length map ≤ maximum
    → length (after_ready maximum c map ready).markers ≤ maximum
after_ready-fits maximum c map (err e) fits = fits
after_ready-fits maximum c map (ok false) fits = fits
after_ready-fits maximum c map (ok true) fits =
    after_check-fits maximum c (expire map c.checked_at)
      (check_marker maximum map c.consumer c.fact c.checked_at)
      (omega (arith, length-keep (λ row. ltb c.checked_at row.1.expires_at) map))

deliver-fits :
    (maximum : ℕ) (c : Call) (map : MarkerMap)
    → length map ≤ maximum
    → length (deliver maximum c map).markers ≤ maximum
unfolding deliver
deliver-fits maximum c map fits = after_ready-fits maximum c map c.ready fits

-- Whatever calls follow one another, whatever their clocks say and their ports answer, a map that has
-- at most as many markers as its maximum has so after them.
pub markers_bounded :
    (maximum : ℕ) (map : MarkerMap) (calls : List Call)
    → length map ≤ maximum
    → length (deliver_all maximum map calls) ≤ maximum
unfolding deliver_all
markers_bounded maximum map [] fits = fits
markers_bounded maximum map (c ∷ rest) fits =
    markers_bounded maximum (deliver maximum c map).markers rest (deliver-fits maximum c map fits)
