-- ===== src/Examples/Table.antt =====
-- A small jobs table and requests on it (persistence/src/postgres.rs).
use streaming_video_app.Prelude.{
  ◌≤◌, ◌≡◌, refl, inr, Text, codes, text_eq, true, false, none, some, List, [], ◌∷◌, All, ok, err,
  arith,
}
use streaming_video_app.Persistence.Port.{cli, distributed, invalid_manifest_key}
use streaming_video_app.Persistence.Table.{Job, up, processing, queued, is_live, is_owned}
use streaming_video_app.Persistence.Requests.{
  Request, acquires, renews, completes, Pointwise, Event, perform, replay,
}
use streaming_video_app.Persistence.Fencing.{held_rows_fenced, stale_rows_unchanged, IsHeldBy}
use streaming_video_app.Persistence.Schema.{
  replay-IsChecked, IsChecked, terminal_rows_unchanged, is_terminal, failure_details_check,
  lease_ownership_check, terminal_lease_check, publication_check,
}
use streaming_video_app.Persistence.Attempts.{attempts_bounded, modes_immutable}
use streaming_video_app.Persistence.Acquisition.{acquire_outcome, promised}
use streaming_video_app.Persistence.Ownership.{
  owner_outcomes, complete_distributed_outcome, HasUniqueIds, when_row, may_release, may_complete,
  may_fail,
}
use streaming_video_app.Persistence.Postgres.{
  acquire_lease_with_mode, target, manifest_key, renew_lease, release_for_retry, complete, fail,
  complete_distributed,
}

abbrev pub job_a : Text
job_a = codes "a"

abbrev pub video : Text
video = codes "v"

abbrev pub worker : Text
worker = codes "w"

-- Processed by `w` under a lease until 100.
abbrev pub held : Job
held = record {
  id = job_a;
  video_id = video;
  status = processing;
  mode = some distributed;
  worker_id = some worker;
  lease_expires_at = some 100;
  attempt = 1;
  failure_code = none;
  failure_message = none;
  published_manifest_key = none;
  updated_at = 10;
}

abbrev pub waiting : Job
waiting = record {
  id = codes "b";
  video_id = video;
  status = queued;
  mode = none;
  worker_id = none;
  lease_expires_at = none;
  attempt = 0;
  failure_code = none;
  failure_message = none;
  published_manifest_key = none;
  updated_at = 10;
}

abbrev pub jobs : List Job
jobs = held ∷ waiting ∷ []

pub jobs-IsChecked : All IsChecked jobs
unfolding failure_details_check lease_ownership_check terminal_lease_check publication_check
jobs-IsChecked = (
  record {
    failure_details = refl;
    lease_ownership = refl;
    terminal_lease = refl;
    publication = refl;
  },
  (
    record {
      failure_details = refl;
      lease_ownership = refl;
      terminal_lease = refl;
      publication = refl;
    },
    tt,
  ),
)

jobs-HasUniqueIds : HasUniqueIds jobs
unfolding text_eq
jobs-HasUniqueIds = ((refl, tt), (tt, tt))

abbrev take : Request
take = acquires job_a video (codes "x") 30 3 cli

abbrev history : List Event
history =
    record { connection = up; now = 20; request = renews job_a video worker 30 }
    ∷ record {
      connection = up;
      now = 200;
      request = acquires job_a video (codes "x") 30 3 distributed;
    }
    ∷ []

held_rows_fenced_example :
    Pointwise (λ row row'. IsHeldBy worker 50 row → row' ≡ row) jobs (perform up 50 take jobs)
held_rows_fenced_example = held_rows_fenced up 50 take worker jobs (inr refl)

stale_rows_unchanged_example :
    Pointwise
      (λ row row'. is_live 150 row ≡ false → row' ≡ row)
      jobs
      (perform up 150 (completes job_a video worker) jobs)
stale_rows_unchanged_example = stale_rows_unchanged up 150 (completes job_a video worker) jobs refl

replay-IsChecked_example : All IsChecked (replay history jobs)
replay-IsChecked_example = replay-IsChecked history jobs jobs-IsChecked

terminal_rows_unchanged_example :
    Pointwise
      (λ row row'. is_terminal row.status ≡ true → row' ≡ row)
      jobs
      (perform up 50 take jobs)
terminal_rows_unchanged_example = terminal_rows_unchanged up 50 take jobs

attempts_bounded_example : All (λ row. row.attempt ≤ 3) (replay history jobs)
attempts_bounded_example =
    attempts_bounded 3 history jobs (tt, (omega arith, tt)) (omega arith, (omega arith, tt))

modes_immutable_example :
    Pointwise
      (λ row row'. row.mode ≡ some distributed → row'.mode ≡ some distributed)
      jobs
      (perform up 200 take jobs)
modes_immutable_example = modes_immutable up 200 take distributed jobs

acquire_outcome_example :
    (acquire_lease_with_mode up 200 job_a video (codes "x") 30 3 distributed jobs).0
    ≡ ok (promised 200 30 3 distributed (target job_a video jobs))
acquire_outcome_example =
    acquire_outcome 200 job_a video (codes "x") 30 3 distributed jobs jobs-HasUniqueIds

owner_outcomes_example :
    let row = target job_a video jobs in
    ((renew_lease up 50 job_a video worker 30 jobs).0
      ≡ ok (when_row (is_owned 50 job_a video worker) row))
    × ((release_for_retry up 50 job_a video worker 3 jobs).0
        ≡ ok (when_row (may_release 50 job_a video worker 3) row))
    × ((complete up 50 job_a video worker jobs).0
        ≡ ok (when_row (may_complete 50 job_a video worker) row))
    × ((fail up 50 job_a video worker (codes "e") 3 jobs).0
        ≡ ok (when_row (may_fail 50 job_a video worker (codes "e") 3) row))
owner_outcomes_example =
    owner_outcomes 50 job_a video worker (codes "e") 30 3 jobs jobs-HasUniqueIds

complete_distributed_outcome_example :
    (complete_distributed up 50 job_a video worker 1 (codes "k") jobs).0 ≡ err invalid_manifest_key
unfolding text_eq manifest_key
complete_distributed_outcome_example =
    complete_distributed_outcome 50 job_a video worker (codes "k") 1 jobs jobs-HasUniqueIds
