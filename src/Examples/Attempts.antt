-- ===== src/Examples/Attempts.antt =====
-- One attempt in a world where every port succeeds (worker/src/retry.rs).
use streaming_video_app.Prelude.{ℕ, codes, true, false, none, [], ◌∷◌, ok}
use streaming_video_app.Persistence.Port.{applied}
use streaming_video_app.Acquisition.Types.{AcquiredJob}
use streaming_video_app.Attempt.Effects.{World, Trace, HlsOutput}
use streaming_video_app.Attempt.Process.{Processor, process}
use streaming_video_app.Attempt.Guard.{IsGuarded, process-IsGuarded}
use streaming_video_app.Attempt.Durable.{durable}
use streaming_video_app.Attempt.Outcomes.{Accounts, process-Accounts}

abbrev output : HlsOutput
output = record { playlist = codes "index.m3u8"; segments = codes "segment_00000.ts" ∷ [] }

abbrev pub world : World
world = record {
  lost = λ n. false;
  crash = λ n. none;
  elapsed = λ n. false;
  create_directory = λ n. ok (codes "/tmp/a");
  remove_directory = λ n. ok tt;
  reserve = λ n. ok tt;
  read_bounded = λ n. ok (codes "video");
  read = λ n. ok (codes "bytes");
  write_file = λ n. ok tt;
  encode = λ n. ok output;
  write = λ n. ok tt;
  persist = λ n. ok applied;
}

abbrev pub processor : Processor
processor = record {
  output_bucket = codes "out";
  temporary_directory = codes "/tmp";
  settings = record { maximum_attempts = 3; retry_delay = 1000 };
  has_activity = true;
  source_bytes = 1000;
}

abbrev pub job : AcquiredJob
job = record {
  item = record {
    bucket = codes "in";
    key = codes "videos/v/jobs/a/source.mp4";
    video_id = codes "v";
    job_id = codes "a";
  };
  worker_id = codes "w";
  attempt = 1;
  lease_expires_at = 100;
}

abbrev start : Trace
start = record { tick = 0; log = [] }

process-IsGuarded_example : IsGuarded (process world processor job start).1.log
process-IsGuarded_example = process-IsGuarded world processor job start tt

process-Accounts_example :
    (n : ℕ) × Accounts world processor job n []
      (process world processor job start).0
      (durable (process world processor job start).1.log)
process-Accounts_example = process-Accounts world processor job start
