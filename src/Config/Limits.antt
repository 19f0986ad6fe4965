-- ===== src/Config/Limits.antt =====
-- Resource limits of a job and the shared admission of its disk space (encoding/src/limits.rs).
use streaming_video_app.Prelude.{
  ℕ, ◌+◌, ◌-◌, ◌*◌, Text, codes, Option, none, some, List, [], ◌∷◌, ltb, leb, ◌==◌, ◌||◌,
  if◌then◌else◌, Result, ok, err, ◌>>=◌, min,
}
use streaming_video_app.Config.Parse.{trim, parse_unsigned, u64_max}

pub record Limits : Type 0 where
  pub source_bytes : ℕ
  pub temporary_bytes : ℕ
  pub disk_reserve_bytes : ℕ
  pub threads : ℕ
  pub duration_seconds : ℕ
  pub wall_seconds : ℕ

abbrev pub default : Limits
default = record {
  source_bytes = 64 * 1024 * 1024;
  temporary_bytes = 512 * 1024 * 1024;
  disk_reserve_bytes = 256 * 1024 * 1024;
  threads = 1;
  duration_seconds = 3600;
  wall_seconds = 7200;
}

-- Both error texts of the source are an `err tt`: its caller drops them.
abbrev pub within : ℕ → ℕ → Result (Unit {0}) ℕ
within maximum value = if value == 0 || ltb maximum value then err tt else ok value

abbrev pub given : ℕ → Option ℕ → Result (Unit {0}) ℕ
given maximum none = err tt
given maximum (some value) = within maximum value

unfoldable pub number : (Text → Option Text) → Text → ℕ → ℕ → Result (Unit {0}) ℕ
unfolding trim parse_unsigned
number lookup key default_value maximum = elim (lookup key) [
  | none ↦ within maximum default_value
  | some s ↦ given maximum (parse_unsigned u64_max (trim s))
]

abbrev pub above_source : Limits → Result (Unit {0}) Limits
above_source limits = if leb limits.temporary_bytes limits.source_bytes then err tt else ok limits

unfoldable pub limits_from_lookup : (Text → Option Text) → Result (Unit {0}) Limits
unfolding number
limits_from_lookup lookup = do
  source ← number lookup (codes "WORKER_MAX_SOURCE_BYTES") default.source_bytes (1024 * 1024 * 1024)
  temporary ←
      number lookup (codes "WORKER_MAX_TEMP_BYTES") default.temporary_bytes
        (16 * 1024 * 1024 * 1024)
  reserve ←
      number lookup (codes "WORKER_DISK_RESERVE_BYTES") default.disk_reserve_bytes
        (16 * 1024 * 1024 * 1024)
  thread_count ← number lookup (codes "WORKER_FFMPEG_THREADS") default.threads 16
  duration ← number lookup (codes "WORKER_MAX_DURATION_SECONDS") default.duration_seconds 14400
  wall ← number lookup (codes "WORKER_MAX_WALL_SECONDS") default.wall_seconds 43200
  above_source (record {
    source_bytes = source;
    temporary_bytes = temporary;
    disk_reserve_bytes = reserve;
    threads = thread_count;
    duration_seconds = duration;
    wall_seconds = wall;
  })

-- The bytes that are reserved, and those of each reservation that is alive.
pub record DiskBudget : Type 0 where
  pub reserved : ℕ
  pub reservations : List ℕ

abbrev pub saturating_add : ℕ → ℕ → ℕ
saturating_add a b = min (a + b) u64_max

unfoldable pub reserve_available : ℕ → Limits → DiskBudget → Option DiskBudget
reserve_available available limits budget =
    if ltb available (
      saturating_add (saturating_add budget.reserved limits.temporary_bytes)
        limits.disk_reserve_bytes)
    then none
    else some (record {
      reserved = budget.reserved + limits.temporary_bytes;
      reservations = limits.temporary_bytes ∷ budget.reservations;
    })

abbrev pub release : List ℕ → ℕ → List ℕ × ℕ
release [] i = ([], 0)
release (bytes ∷ rest) ℕ.zero = (rest, bytes)
release (bytes ∷ rest) (ℕ.suc i) = let r = release rest i in (bytes ∷ r.0, r.1)

-- `Drop for Reservation`, for the reservation at an index.
unfoldable pub drop_reservation : ℕ → DiskBudget → DiskBudget
drop_reservation i budget =
    let r = release budget.reservations i in
    record { reserved = budget.reserved - r.1; reservations = r.0 }
