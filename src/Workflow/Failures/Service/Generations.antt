-- ===== src/Workflow/Failures/Service/Generations.antt =====
-- Which generations of a record of packages/core/src/workflow/failure-records.ts have their collections.
use jawstack.Base.{
  ℕ, ◌+◌, zero, suc, Bool, true, false, not, ◌&&◌, ◌||◌, List, [], ◌∷◌, Instant, and_some, any,
  length, ◌≡◌, ◌<◌, ◌≤◌, refl, arith, leb, ltb, ◌==◌, inl, inr, Bool-cases, get_elem?,
}
use jawstack.Workflow.Failures.{Collection, Recovery, FailureRecord}
use jawstack.Workflow.Failures.Protocol.{Protocol, is_pending, is_settled, record_ok, requests_ok}
use jawstack.Workflow.Failures.Service.Histories.{consecutive, record_ok-consecutive}

get_elem-within :
    (xs : List Collection) (n : ℕ) (f : Collection → Bool)
    → and_some (get_elem? xs n) f ≡ true
    → n < length xs
get_elem-within [] n f h = ground arith
get_elem-within (x ∷ xs) zero f h = omega arith
get_elem-within (x ∷ xs) (suc n) f h = let below = get_elem-within xs n f h in omega arith

-- Every generation before the current one has its collection.
requests_ok-covered :
    (row : FailureRecord) (i : ℕ) (earlier : Instant) (rs : List Recovery) (g : ℕ)
    → requests_ok row i earlier rs ≡ true
    → i ≤ g
    → g < i + length rs
    → g < length row.collections
requests_ok-covered row i earlier [] g h low high = ground arith
requests_ok-covered row i earlier (r ∷ rs) g h low high = elim (Bool-cases (i == g)) [
  | inl same ↦
      let here =
        get_elem-within row.collections i
          (λ c.
            not (is_pending c.resolution || is_settled c.resolution)
            && and_some c.reconciled_at (λ t. leb t r.requested_at))
          (ground (arith, h)) in
      ground (arith, same, here)
  | inr other ↦
      requests_ok-covered row (i + 1) r.requested_at rs g (ground (arith, h))
        (ground (arith, other)) (omega arith)
]

consecutive-any :
    (i : ℕ) (cs : List Collection) (g : ℕ)
    → consecutive i cs ≡ true
    → i ≤ g
    → g < i + length cs
    → any (λ c. c.generation == g) cs ≡ true
consecutive-any i [] g h low high = ground arith
consecutive-any i (c ∷ cs) g h low high = elim (Bool-cases (c.generation == g)) [
  | inl same ↦ rw same refl
  | inr other ↦
      rw other
        (consecutive-any (i + 1) cs g (ground (arith, h)) (ground (arith, h, other)) (omega arith))
]

module _ (protocol : Protocol) where
  -- A generation without its collection is the current one.
  pub uncollected-current :
      (old : FailureRecord) (g : ℕ)
      → record_ok protocol old ≡ true
      → leb g (length old.recoveries) ≡ true
      → any (λ c. c.generation == g) old.collections ≡ false
      → g ≡ length old.recoveries
  unfolding record_ok
  uncollected-current old g valid reached free = elim (Bool-cases (ltb g (length old.recoveries))) [
    | inl earlier ↦
        let within =
          requests_ok-covered old 0 old.first_collected_at old.recoveries g (ground (arith, valid))
            (omega arith) (ground (arith, earlier)) in
        let there =
          consecutive-any 0 old.collections g (record_ok-consecutive protocol old valid)
            (omega arith) (omega arith) in
        ground (arith, there, free)
    | inr at_end ↦ ground (arith, at_end, reached)
  ]
