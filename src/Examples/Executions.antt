-- ===== src/Examples/Executions.antt =====
-- A distributed execution that succeeds at once (worker/src/orchestration.rs).
use streaming_video_app.Prelude.{
  suc, codes, text_eq, decimal, ◌≡◌, refl, true, false, none, some, [], ◌∷◌, ◌++◌, ok, arith,
}
use streaming_video_app.Naming.{execution_name, canonical_source_key, canonical_output_prefix}
use streaming_video_app.Persistence.Postgres.{manifest_key}
use streaming_video_app.Orchestration.Input.{
  child_bound_holds, has_failed, Formats, ExecutionInput, for_job, validate, validate_renditions,
  are_unique_renditions, input_of, succeeded, running, found,
}
use streaming_video_app.Orchestration.Effects.{lost, until_deadline, World, State}
use streaming_video_app.Orchestration.Prior.{
  establish_previous_bound, bound_loop, bound_turn, observe_attempts, observe_prior_execution,
  observe_from, observe_turn, observe_found_prior_execution,
}
use streaming_video_app.Orchestration.Bounding.{IsBoundedAt, establish_previous_bound-IsBoundedAt}
use streaming_video_app.Orchestration.Run.{run}
use streaming_video_app.Orchestration.Termination.{is_returned, run-IsTotal}
use streaming_video_app.Orchestration.Order.{IsFinalizedAfterSuccess}
use streaming_video_app.Orchestration.Finalizing.{run-IsFinalizedAfterSuccess}
use streaming_video_app.Orchestration.Identity.{for_job-manifest_key}
use streaming_video_app.Acquisition.Types.{AcquiredJob}
use streaming_video_app.Examples.Attempts.{job}

abbrev pub formats : Formats
formats = record {
  Value = Unit {0};
  from_str = λ body. some tt;
  to_value = λ input. some tt;
  same_value = λ a b. true;
  is_rfc3339 = λ value. true;
}

abbrev pub world : World
world = record {
  gone = λ n. false;
  took = λ n. 1;
  cut_off = λ n. false;
  woken = λ n. none;
  start = λ n. ok tt;
  inspect = λ n. ok (found running []);
  status = λ n. ok succeeded;
  residual_running_children = λ n. ok 0;
  finalize = λ n. ok tt;
}

abbrev input : ExecutionInput
input = input_of formats job (codes "360p" ∷ []) (codes "2026-01-01T00:00:00Z")

abbrev start : State
start = record { clock = 0; asked = 0; log = [] }

run-IsTotal_example : is_returned (run formats world (suc 1000) job input 10 1000 start).0 ≡ true
run-IsTotal_example = run-IsTotal world (λ n. omega arith) formats job input 10 1000 start

run-IsFinalizedAfterSuccess_example :
    IsFinalizedAfterSuccess
      (execution_name (codes "a") 1)
      (run formats world 50 job input 10 1000 start).1.log
run-IsFinalizedAfterSuccess_example =
    run-IsFinalizedAfterSuccess formats world job 50 input 10 1000 start tt

for_job-manifest_key_example :
    (codes "videos/v/jobs/a/source.mp4" ≡ canonical_source_key (codes "v") (codes "a"))
    × ((validate formats input ≡ ok tt)
        × (input.output_prefix ++ codes "/index.m3u8" ≡ manifest_key (codes "a") (codes "v") 1))
unfolding for_job validate validate_renditions are_unique_renditions text_eq execution_name
    canonical_source_key canonical_output_prefix decimal
for_job-manifest_key_example =
    for_job-manifest_key formats job (codes "360p" ∷ []) (codes "2026-01-01T00:00:00Z") input refl

-- The second attempt, after a first whose execution failed and left no children.
abbrev retried : AcquiredJob
retried = record job { attempt = 2 }

abbrev quiet : World
quiet = record world { inspect = λ n. ok (found has_failed []) }

establish_previous_bound-IsBoundedAt_example :
    IsBoundedAt quiet retried 10 1 1000 (establish_previous_bound quiet 5 retried 10 1 1000 start).1
unfolding establish_previous_bound bound_loop bound_turn observe_attempts observe_prior_execution
    observe_from observe_turn observe_found_prior_execution lost until_deadline child_bound_holds
establish_previous_bound-IsBoundedAt_example =
    establish_previous_bound-IsBoundedAt quiet retried 10 1 1000 5 start (omega arith) refl
