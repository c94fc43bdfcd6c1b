-- ===== src/Jobs/Fencing.antt =====
-- Which lease of apps/content-operations/src/application/job-store.ts may still save.
use jawstack.Base.{
  some-inj, is_some, ℕ, ◌+◌, Bool, true, false, Option, none, some, List, [], ◌∷◌, Text, Instant,
  ◌==◌, ◌≡◌, refl, ap, sym, ◌∙◌, ◌≤◌, arith, subst, Result, ok, err, >>=-elim, require-elim, ok-inj,
  get, set, get-set, get-set_other, text_key, Bool-cases, inl, inr, ==_iff,
}
use jawstack.Jobs.{
  acquire_unless, JobName, JobProgress, JobRecord, Records, Acquired, job_number, record_at,
  revision_of, acquire, save, new_job_lease, saved_job_record, stored_ok, is_leased, owns,
}

abbrev revision_at : Records → JobName → ℕ
revision_at records name = revision_of (record_at records name)

-- A call of the store, by whichever worker.
pub data Call : Type 0 where
  acquiring : JobName → Instant → Text → Call
  saving : JobRecord → JobProgress → Instant → Bool → Call

abbrev after_acquire : Records → Result Acquired → Records
after_acquire records (ok a) = a.records
after_acquire records (err e) = records

abbrev after_save : Records → Result Records → Records
after_save records (ok next) = next
after_save records (err e) = records

abbrev step : Records → Call → Records
step records (acquiring name now token) = after_acquire records (acquire records name now token)
step records (saving lease progress now release) =
    after_save records (save records lease progress now release)

unfoldable pub run : Records → List Call → Records
run records [] = records
run records (c ∷ rest) = run (step records c) rest

-- Setting a record of a job whose revision does not go back keeps every revision from going back.
set-revision :
    (records : Records) (job name : JobName) (r : JobRecord)
    → revision_at records job ≤ r.revision
    → revision_at records name
      ≤ revision_of (get text_key (set text_key records (job_number job) r) (job_number name))
set-revision records job name r low = elim (Bool-cases (job_number job == job_number name)) [
  | inl same ↦
      subst
        (λ n.
          revision_of (get text_key records n)
          ≤ revision_of (get text_key (set text_key records (job_number job) r) n))
        ((==_iff (job_number job) (job_number name)).0 same)
        (omega (arith, low, ap revision_of (get-set text_key records (job_number job) r)))
  | inr apart ↦ omega (
    arith,
    ap revision_of (get-set_other text_key records (job_number job) (job_number name) r apart),
  )
]

new_job_lease-revision :
    (name : JobName) (previous : Option JobRecord) (now : Instant) (token : Text)
    {lease : JobRecord}
    → new_job_lease name previous now token ≡ ok lease
    → lease.revision ≡ revision_of previous + 1
new_job_lease-revision name previous now token h = ground (arith, h)

-- What a granted lease is: the job's next revision, written to its row.
record Granted (before after : Records) (name : JobName) (lease : JobRecord) : Type 0 where
  revision : lease.revision ≡ revision_at before name + 1
  token : is_some lease.token ≡ true
  job : job_number lease.name ≡ job_number name
  held : record_at after name ≡ some lease

acquire_unless-revision :
    (leased : Bool) (records : Records) (job name : JobName) (now : Instant) (token : Text)
    {a : Acquired}
    → acquire_unless leased records job now token ≡ ok a
    → revision_at records name ≤ revision_at a.records name
acquire_unless-revision true records job name now token h =
    omega (arith, ap (λ (a : Acquired). revision_at a.records name) (ok-inj h))
acquire_unless-revision false records job name now token h =
    >>=-elim (new_job_lease job (record_at records job) now token) _ h λ lease made h1.
      let next = new_job_lease-revision job (record_at records job) now token made in
      subst (λ (a : Acquired). revision_at records name ≤ revision_at a.records name) (ok-inj h1)
        (set-revision records job name lease (omega (arith, next)))

acquire-revision :
    (records : Records) (job name : JobName) (now : Instant) (token : Text) {a : Acquired}
    → acquire records job now token ≡ ok a
    → revision_at records name ≤ revision_at a.records name
unfolding acquire
acquire-revision records job name now token h =
    >>=-elim (stored_ok (record_at records job)) _ h λ u _ h1.
      acquire_unless-revision (is_leased (record_at records job) now) records job name now token h1

new_job_lease-job :
    (name : JobName) (previous : Option JobRecord) (now : Instant) (token : Text)
    {lease : JobRecord}
    → new_job_lease name previous now token ≡ ok lease
    → (is_some lease.token ≡ true) × (job_number lease.name ≡ job_number name)
new_job_lease-job name previous now token h = (ground (arith, h), ground (arith, h))

acquire_unless-Granted :
    (leased : Bool) (records : Records) (name : JobName) (now : Instant) (token : Text)
    (lease : JobRecord) (after : Records)
    → acquire_unless leased records name now token
      ≡ ok (record { lease = some lease; records = after })
    → Granted records after name lease
acquire_unless-Granted true records name now token lease after h =
    absurd (none-ne-some (ap (λ (a : Acquired). a.lease) (ok-inj h)))
  where
    none-ne-some : ◌≡◌ {A = Option JobRecord} none (some lease) → ⊥
    none-ne-some q = cc
acquire_unless-Granted false records name now token lease after h =
    >>=-elim (new_job_lease name (record_at records name) now token) _ h λ made drawn h1.
      let same = some-inj (ap (λ (a : Acquired). a.lease) (ok-inj h1)) in
      let rows = ap (λ (a : Acquired). a.records) (ok-inj h1) in
      let (has_token, job) = new_job_lease-job name (record_at records name) now token drawn in
      subst (λ l. Granted records after name l) same
        (record {
          revision = new_job_lease-revision name (record_at records name) now token drawn;
          token = has_token;
          job = job;
          held =
              ap (λ m. record_at m name) (sym rows)
              ∙ get-set text_key records (job_number name) made;
        })

acquire-Granted :
    (records : Records) (name : JobName) (now : Instant) (token : Text) (lease : JobRecord)
    (after : Records)
    → acquire records name now token ≡ ok (record { lease = some lease; records = after })
    → Granted records after name lease
unfolding acquire
acquire-Granted records name now token lease after h =
    >>=-elim (stored_ok (record_at records name)) _ h λ u _ h1.
      acquire_unless-Granted (is_leased (record_at records name) now) records name now token lease
        after h1

saved-revision :
    (lease : JobRecord) (progress : JobProgress) (now : Instant) (release : Bool) {r : JobRecord}
    → saved_job_record lease progress now release ≡ ok r
    → r.revision ≡ lease.revision
saved-revision lease progress now release h = ground (arith, h)

owns-revision :
    (old : Option JobRecord) (lease : JobRecord)
    → owns old lease ≡ true
    → revision_of old ≡ lease.revision
owns-revision old lease h = ground (arith, h)

save-revision :
    (records : Records) (lease : JobRecord) (progress : JobProgress) (now : Instant)
    (release : Bool) (name : JobName) {next : Records}
    → save records lease progress now release ≡ ok next
    → (revision_at records name ≤ revision_at next name)
      × (revision_at records lease.name ≡ lease.revision)
unfolding save
save-revision records lease progress now release name h =
    >>=-elim (saved_job_record lease progress now release) _ h λ r saved h1.
      require-elim (owns (record_at records lease.name) lease) _ _ h1 λ owned h2.
        let held = owns-revision (record_at records lease.name) lease owned in
        let next_revision = saved-revision lease progress now release saved in
        (
          subst (λ x. revision_at records name ≤ revision_at x name) (ok-inj h2)
              (set-revision records lease.name name r (omega (arith, held, next_revision))),
          held,
        )

step-revision :
    (records : Records) (c : Call) (name : JobName)
    → revision_at records name ≤ revision_at (step records c) name
step-revision records (acquiring job now token) name = kept (acquire records job now token) refl
  where
    kept :
        (r : Result Acquired)
        → acquire records job now token ≡ r
        → revision_at records name ≤ revision_at (after_acquire records r) name
    kept (ok a) h = acquire-revision records job name now token h
    kept (err e) h = omega arith
step-revision records (saving lease progress now release) name =
    kept (save records lease progress now release) refl
  where
    kept :
        (r : Result Records)
        → save records lease progress now release ≡ r
        → revision_at records name ≤ revision_at (after_save records r) name
    kept (ok a) h = (save-revision records lease progress now release name h).0
    kept (err e) h = omega arith

run-revision :
    (records : Records) (calls : List Call) (name : JobName)
    → revision_at records name ≤ revision_at (run records calls) name
unfolding run
run-revision records [] name = omega arith
run-revision records (c ∷ rest) name =
    omega (arith, step-revision records c name, run-revision (step records c) rest name)

-- Once a job has been leased again, the earlier lease can save no more, whatever calls came between
-- and after the two: its revision is behind, whatever the clocks say.
pub superseded_lease :
    (records r1 r2 : Records) (name : JobName) (t1 t2 t3 : Instant) (k1 k2 : Text)
    (lease again : JobRecord) (between after : List Call) (progress : JobProgress) (release : Bool)
    (final : Records)
    → acquire records name t1 k1 ≡ ok (record { lease = some lease; records = r1 })
    → acquire (run r1 between) name t2 k2 ≡ ok (record { lease = some again; records = r2 })
    → ¬ (save (run r2 after) lease progress t3 release ≡ ok final)
superseded_lease records r1 r2 name t1 t2 t3 k1 k2 lease again between after progress release final
      h1 h2 h3 =
    let g1 = acquire-Granted records name t1 k1 lease r1 h1 in
    let g2 = acquire-Granted (run r1 between) name t2 k2 again r2 h2 in
    let owned = (save-revision (run r2 after) lease progress t3 release name h3).1 in
    let same : revision_at (run r2 after) name ≡ lease.revision =
      ap (λ n. revision_of (get text_key (run r2 after) n)) (sym g1.job) ∙ owned in
    omega (
      arith,
      ap revision_of g1.held,
      ap revision_of g2.held,
      g1.revision,
      g2.revision,
      run-revision r1 between name,
      run-revision r2 after name,
      same,
    )
