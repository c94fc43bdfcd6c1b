-- ===== src/Jobs.antt =====
-- apps/content-operations/src/application/job-store.ts: the leases of background jobs. A `ZodError`
-- is the code "runtime.internal". Tokens are drawn by the caller here, and a blank cursor is 0.
pub mod Fencing
mod Tests
use jawstack.Base.{
  ℕ, ◌+◌, Bool, true, false, not, ◌&&◌, Option, none, some, List, Text, Instant, leb, ltb, ◌==◌,
  is_some, and_some, when_some, same_flag, Result, ok, err, ◌>>=◌, ◌>>◌, require, resource_conflict,
  runtime_internal, get, set, text_key, if◌then◌else◌,
}
use jawstack.Content.Schema.{version_ok}

-- jobNames
pub data JobName : Type 0 where
  due_publication due_review expire_uploads cleanup_orphans : JobName

abbrev pub job_number : JobName → ℕ
job_number due_publication = 0
job_number due_review = 1
job_number expire_uploads = 2
job_number cleanup_orphans = 3

abbrev pub job_lease_ms : ℕ
job_lease_ms = 30_000

pub record JobProgress : Type 0 where
  pub pass_cutoff : Option Instant
  pub cursor : Option Text

-- JobRecord; a JobLease is a record whose token and times are there.
pub record JobRecord : Type 0 where
  pub name : JobName
  pub revision : ℕ
  pub progress : JobProgress
  pub token : Option Text
  pub started_at : Option Instant
  pub lease_until : Option Instant

-- progressSchema
abbrev pub progress_ok : JobProgress → Bool
progress_ok p =
    not (is_some p.cursor && not (is_some p.pass_cutoff)) && when_some p.cursor (λ c. not (c == 0))

-- jobRecordSchema
unfoldable pub job_record_ok : JobRecord → Bool
job_record_ok r =
    version_ok r.revision
    && progress_ok r.progress
    && (if is_some r.token
        then and_some r.started_at (λ s. and_some r.lease_until (λ u. u == s + job_lease_ms))
        else not (is_some r.started_at) && not (is_some r.lease_until))

abbrev parse_record : JobRecord → Result JobRecord
parse_record r = if job_record_ok r then ok r else err runtime_internal

-- assertJobLease
abbrev pub assert_job_lease : JobRecord → Instant → Result (Unit {0})
assert_job_lease lease now =
    require
      (job_record_ok lease
        && is_some lease.token
        && and_some lease.started_at (λ s. leb s now)
        && and_some lease.lease_until (λ u. ltb now u))
      resource_conflict

abbrev pub revision_of : Option JobRecord → ℕ
revision_of none = 0
revision_of (some r) = r.revision

abbrev progress_of : Option JobRecord → JobProgress
progress_of none = record { pass_cutoff = none; cursor = none }
progress_of (some r) = r.progress

-- newJobLease
abbrev pub new_job_lease : JobName → Option JobRecord → Instant → Text → Result JobRecord
new_job_lease name previous now token = parse_record (record {
  name = name;
  revision = revision_of previous + 1;
  progress = progress_of previous;
  token = some token;
  started_at = some now;
  lease_until = some (now + job_lease_ms);
})

abbrev pub checkpoint : JobRecord → JobProgress → Bool → JobRecord
checkpoint lease progress false = record lease { progress = progress }
checkpoint lease progress true = record lease {
  progress = progress;
  token = none;
  started_at = none;
  lease_until = none;
}

-- savedJobRecord
abbrev pub saved_job_record : JobRecord → JobProgress → Instant → Bool → Result JobRecord
saved_job_record lease progress now release = do
  assert_job_lease lease now
  require (progress_ok progress) runtime_internal
  parse_record (checkpoint lease progress release)

-- The map of the memory store.
abbrev pub Records : Type 0
Records = List (ℕ × JobRecord)

abbrev pub record_at : Records → JobName → Option JobRecord
record_at records name = get text_key records (job_number name)

abbrev pub stored_ok : Option JobRecord → Result (Unit {0})
stored_ok none = ok tt
stored_ok (some old) = require (job_record_ok old) runtime_internal

abbrev pub is_leased : Option JobRecord → Instant → Bool
is_leased old now = and_some old (λ r. and_some r.lease_until (λ u. ltb now u))

pub record Acquired : Type 0 where
  pub lease : Option JobRecord
  pub records : Records

abbrev pub acquire_unless : Bool → Records → JobName → Instant → Text → Result Acquired
acquire_unless true records name now token = ok (record { lease = none; records = records })
acquire_unless false records name now token = do
  lease ← new_job_lease name (record_at records name) now token
  ok (record { lease = some lease; records = set text_key records (job_number name) lease })

-- `acquire` of the memory store
unfoldable pub acquire : Records → JobName → Instant → Text → Result Acquired
acquire records name now token = do
  stored_ok (record_at records name)
  acquire_unless (is_leased (record_at records name) now) records name now token

abbrev pub owns : Option JobRecord → JobRecord → Bool
owns old lease =
    and_some old λ r.
      and_some r.token (λ t. and_some lease.token (λ u. t == u)) && r.revision == lease.revision

-- `save` of the memory store
unfoldable pub save : Records → JobRecord → JobProgress → Instant → Bool → Result Records
save records lease progress now release = do
  next ← saved_job_record lease progress now release
  require (owns (record_at records lease.name) lease) resource_conflict
  ok (set text_key records (job_number lease.name) next)
