-- ===== src/Jobs/Tests.antt =====
-- Two workers, and the theorem on the leases of job-store.ts applied to them.
use jawstack.Base.{◌+◌, ℕ, false, none, some, [], ◌∷◌, Text, Instant, ◌≡◌, refl, ok, get, set}
use jawstack.Jobs.{due_publication, JobProgress, JobRecord, Records, acquire, save, job_record_ok}
use jawstack.Jobs.Fencing.{superseded_lease, run}

abbrev start : JobProgress
start = record { pass_cutoff = none; cursor = none }

abbrev lease_of : ℕ → Instant → Text → JobRecord
lease_of revision now token = record {
  name = due_publication;
  revision = revision;
  progress = start;
  token = some token;
  started_at = some now;
  lease_until = some (now + 30_000);
}

abbrev rows : ℕ → Instant → Text → Records
rows revision now token = (0, lease_of revision now token) ∷ []

first :
    acquire [] due_publication 1000 7
    ≡ ok (record { lease = some (lease_of 1 1000 7); records = rows 1 1000 7 })
unfolding acquire job_record_ok get set
first = refl

second :
    acquire (run (rows 1 1000 7) []) due_publication 31000 8
    ≡ ok (record { lease = some (lease_of 2 31000 8); records = rows 2 31000 8 })
unfolding acquire job_record_ok get set run
second = refl

superseded_lease_example :
    ¬ (save (run (rows 2 31000 8) []) (lease_of 1 1000 7) start 30000 false ≡ ok [])
superseded_lease_example =
    superseded_lease [] (rows 1 1000 7) (rows 2 31000 8) due_publication 1000 31000 30000 7 8
      (lease_of 1 1000 7) (lease_of 2 31000 8) [] [] start false [] first second
