-- ===== src/Orchestration/Identity.antt =====
-- The identity of an execution's input (worker/src/orchestration.rs) and the key that the database
-- accepts for its job (persistence/src/postgres.rs).
use streaming_video_app.Prelude.{
  ℕ, Text, codes, text_eq_sound, ◌≡◌, refl, ap, ◌∙◌, List, [], ◌∷◌, ◌++◌, ok, arith,
}
use streaming_video_app.Naming.{execution_name, canonical_source_key, canonical_output_prefix}
use streaming_video_app.Persistence.Postgres.{manifest_key}
use streaming_video_app.Acquisition.Types.{AcquiredJob}
use streaming_video_app.Orchestration.Input.{ExecutionInput, Formats, for_job, validate, input_of}

append_assoc : (a b c : Text) → (a ++ b) ++ c ≡ a ++ (b ++ c)
append_assoc [] b c = refl
append_assoc (x ∷ a) b c = ap (λ (s : Text). x ∷ s) (append_assoc a b c)

prefix-manifest_key :
    (j v : Text) (attempt : ℕ)
    → canonical_output_prefix v j attempt (execution_name j attempt) ++ codes "/index.m3u8"
      ≡ manifest_key j v attempt
unfolding canonical_output_prefix execution_name manifest_key
prefix-manifest_key j v attempt = simp (append_assoc)

module _ (formats : Formats) where
  for_job-input :
      (job : AcquiredJob) (renditions : List Text) (deadline_at : Text) (input : ExecutionInput)
      → for_job formats job renditions deadline_at ≡ ok input
      → (job.item.key ≡ canonical_source_key job.item.video_id job.item.job_id)
        × ((input ≡ input_of formats job renditions deadline_at) × (validate formats input ≡ ok tt))
  unfolding for_job
  for_job-input job renditions deadline_at input h =
      ground
        (arith, text_eq_sound job.item.key (canonical_source_key job.item.video_id job.item.job_id))

  -- If an input is made for a job, the job's object has the canonical source key of its identifiers,
  -- the input passes its own validation, and the master playlist under the input's output prefix has
  -- just the key that the database accepts for a distributed completion of this job and attempt.
  pub for_job-manifest_key :
      (job : AcquiredJob) (renditions : List Text) (deadline_at : Text) (input : ExecutionInput)
      → for_job formats job renditions deadline_at ≡ ok input
      → (job.item.key ≡ canonical_source_key job.item.video_id job.item.job_id)
        × ((validate formats input ≡ ok tt)
            × (input.output_prefix ++ codes "/index.m3u8"
                ≡ manifest_key job.item.job_id job.item.video_id job.attempt))
  for_job-manifest_key job renditions deadline_at input h =
      let facts = for_job-input job renditions deadline_at input h in
      (
        facts.0,
        (
          facts.1.1,
          ap (λ (i : ExecutionInput). i.output_prefix ++ codes "/index.m3u8") facts.1.0
              ∙ prefix-manifest_key job.item.job_id job.item.video_id job.attempt,
        ),
      )
