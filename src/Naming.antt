-- ===== src/Naming.antt =====
-- The names that tie a job to its objects and executions (worker/src/orchestration.rs, paths from
-- app/backend/worker/crates).
use streaming_video_app.Prelude.{ℕ, Text, codes, decimal, ◌++◌}

unfoldable pub execution_name : Text → ℕ → Text
execution_name job_id attempt = codes "job-" ++ (job_id ++ (codes "-a" ++ decimal attempt))

unfoldable pub canonical_source_key : Text → Text → Text
canonical_source_key video_id job_id =
    codes "videos/" ++ (video_id ++ (codes "/jobs/" ++ (job_id ++ codes "/source.mp4")))

unfoldable pub canonical_output_prefix : Text → Text → ℕ → Text → Text
canonical_output_prefix video_id job_id attempt execution_id =
    codes "videos/"
    ++ (video_id
        ++ (codes "/jobs/"
            ++ (job_id
                ++ (codes "/hls/attempts/" ++ (decimal attempt ++ (codes "/" ++ execution_id))))))
