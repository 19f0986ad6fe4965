-- ===== src/Persistence/Acquisition.antt =====
-- The outcome of one atomic lease acquisition, from the row that its identifiers name.
use streaming_video_app.Prelude.{
  ℕ, ◌+◌, Text, codes, text_eq, ◌≡◌, refl, true, false, Option, none, some, List, [], ◌∷◌, All,
  arith, leb, if◌then◌else◌, ok, Bool-cases, inl, inr, pos,
}
use streaming_video_app.Persistence.Port.{JobMode, as_str, LeaseAcquisitionOutcome}
use streaming_video_app.Persistence.Table.{Job, completed, failed, up, is_row, is_live}
use streaming_video_app.Persistence.Statements.{is_status, is_claimable, acquire_row}
use streaming_video_app.Persistence.Postgres.{
  target, acquired_row, acquisition_record, map_lease_acquisition, acquire_lease_with_mode,
  LeaseAcquisitionRecord, disposition_of, mode_text, target_mode,
}
use streaming_video_app.Persistence.Ownership.{HasUniqueIds, other_row}

-- What an acquisition promises, by the row as it was before.
unfoldable pub promised : ℕ → ℕ → ℕ → JobMode → Option Job → LeaseAcquisitionOutcome
unfolding is_status is_live
promised now secs max mode none = LeaseAcquisitionOutcome.unknown_or_mismatched
promised now secs max mode (some row) =
    if is_claimable now max mode row
    then LeaseAcquisitionOutcome.acquired_with_mode (row.attempt + 1) (now + secs) mode
    else if is_status row.status completed
    then LeaseAcquisitionOutcome.completed
    else if is_status row.status failed
    then LeaseAcquisitionOutcome.failed
    else if is_live now row
    then LeaseAcquisitionOutcome.busy
    else if leb max row.attempt
    then LeaseAcquisitionOutcome.attempt_exhausted
    else LeaseAcquisitionOutcome.busy

abbrev bind_row : (Job → Option Job) → Option Job → Option Job
bind_row statement none = none
bind_row statement (some row) = statement row

module _ (now : ℕ) (j v w : Text) (secs max : ℕ) (mode : JobMode) where
  acquired_absent :
      (row : Job) (rows : List Job)
      → is_row j v row ≡ true
      → All (λ r. text_eq r.id row.id ≡ false) rows
      → acquired_row (acquire_row now j v w secs max mode) rows ≡ none
  unfolding acquired_row acquire_row
  acquired_absent row [] h d = refl
  acquired_absent row (other ∷ rows) h d =
      ground (arith, other_row j v row other h d.0, acquired_absent row rows h d.1)

  other_not_acquired :
      (row : Job) → is_row j v row ≡ false → acquire_row now j v w secs max mode row ≡ none
  unfolding acquire_row
  other_not_acquired row h = ground arith

  acquired_row-target :
      (jobs : List Job)
      → HasUniqueIds jobs
      → acquired_row (acquire_row now j v w secs max mode) jobs
        ≡ bind_row (acquire_row now j v w secs max mode) (target j v jobs)
  unfolding acquired_row target
  acquired_row-target [] u = refl
  acquired_row-target (row ∷ rows) u = elim (Bool-cases (is_row j v row)) [
    | inl h ↦ rw h (ground (arith, acquired_absent row rows h u.0))
    | inr h ↦ rw (h, other_not_acquired row h, acquired_row) (acquired_row-target rows u.1)
  ]

  target-is_row : (jobs : List Job) (row : Job) → target j v jobs ≡ some row → is_row j v row ≡ true
  unfolding target
  target-is_row [] row e = cc
  target-is_row (other ∷ rows) row e = ground (arith, target-is_row rows row)

  -- The answer of the query, by what the update acquired and by the row before it.
  answer : Option Job → Option Job → LeaseAcquisitionRecord
  unfolding disposition_of
  answer (some row) before = record {
    disposition = codes "ACQUIRED";
    attempt = some (pos row.attempt);
    lease_expires_at = row.lease_expires_at;
    mode = mode_text row.mode;
  }
  answer none before = record {
    disposition = disposition_of now max before;
    attempt = none;
    lease_expires_at = none;
    mode = target_mode before;
  }

  answer-promised :
      (row : Job)
      → is_row j v row ≡ true
      → map_lease_acquisition (answer (acquire_row now j v w secs max mode row) (some row))
        ≡ ok (promised now secs max mode (some row))
  unfolding answer acquire_row promised map_lease_acquisition text_eq as_str
  answer-promised row h = ground arith

  answer-promised_option :
      (o : Option Job)
      → ((row : Job) → o ≡ some row → is_row j v row ≡ true)
      → map_lease_acquisition (answer (bind_row (acquire_row now j v w secs max mode) o) o)
        ≡ ok (promised now secs max mode o)
  answer-promised_option none h = unfold answer promised map_lease_acquisition text_eq in refl
  answer-promised_option (some row) h = answer-promised row (h row refl)

  acquisition_record-answer :
      (jobs : List Job)
      → acquisition_record now j v max (acquire_row now j v w secs max mode) jobs
        ≡ answer (acquired_row (acquire_row now j v w secs max mode) jobs) (target j v jobs)
  unfolding acquisition_record answer
  acquisition_record-answer jobs = ground arith

  -- Where the connection is up and `id` is the primary key, an acquisition in one mode returns what
  -- the named row promises: the next attempt and a lease from now if the row is claimable, and
  -- otherwise the reason: unknown, completed, failed, a live lease, no attempts left, or busy.
  -- It never reports a malformed answer.
  pub acquire_outcome :
      (jobs : List Job)
      → HasUniqueIds jobs
      → (acquire_lease_with_mode up now j v w secs max mode jobs).0
        ≡ ok (promised now secs max mode (target j v jobs))
  unfolding acquire_lease_with_mode
  acquire_outcome jobs u =
      rw (acquisition_record-answer jobs, acquired_row-target jobs u)
        (answer-promised_option (target j v jobs) (target-is_row jobs))
