-- ===== src/Persistence/Attempts.antt =====
-- What a history of requests may do to the attempt count and to the mode of a job.
use streaming_video_app.Prelude.{ℕ, ◌≤◌, ◌≡◌, some, List, [], ◌∷◌, All, arith}
use streaming_video_app.Persistence.Port.{JobMode}
use streaming_video_app.Persistence.Table.{Job, Connection}
use streaming_video_app.Persistence.Statements.{
  claim_row, set_status_row, acquire_row, renew_row, release_row, complete_row,
  complete_distributed_row, fail_row,
}
use streaming_video_app.Persistence.Requests.{
  Request, claims, marks_processing, acquires, renews, releases, completes, completes_distributed,
  fails, statement_of, perform, Pointwise, Pointwise-perform, All-Pointwise, Event, replay,
}

-- The largest attempt count that a request may leave.
abbrev pub IsCappedBy : ℕ → Request → Type 0
IsCappedBy m (acquires j v w secs max mode) = max ≤ m
IsCappedBy m _ = Unit

statement_attempt :
    (now m : ℕ) (r : Request) (row row' : Job)
    → statement_of now r row ≡ some row'
    → IsCappedBy m r
    → row.attempt ≤ m
    → (row.attempt ≤ row'.attempt) × (row'.attempt ≤ m)
unfolding statement_of
statement_attempt now m (claims j v) row row' e h b = unfold claim_row in ground arith
statement_attempt now m (marks_processing j) row row' e h b = unfold set_status_row in ground arith
statement_attempt now m (acquires j v w secs max mode) row row' e h b =
    unfold acquire_row in ground arith
statement_attempt now m (renews j v w secs) row row' e h b = unfold renew_row in ground arith
statement_attempt now m (releases j v w max) row row' e h b = unfold release_row in ground arith
statement_attempt now m (completes j v w) row row' e h b = unfold complete_row in ground arith
statement_attempt now m (completes_distributed j v w attempt key) row row' e h b =
    unfold complete_distributed_row in ground arith
statement_attempt now m (fails j v w reason max) row row' e h b = unfold fail_row in ground arith

-- If no job counts more than `m` attempts and every acquisition of a history is made with a maximum
-- of at most `m`, no job counts more than `m` attempts after it, whatever the connections do.
pub attempts_bounded :
    (m : ℕ) (es : List Event) (jobs : List Job)
    → All (λ e. IsCappedBy m e.request) es
    → All (λ row. row.attempt ≤ m) jobs
    → All (λ row. row.attempt ≤ m) (replay es jobs)
unfolding replay
attempts_bounded m [] jobs capped h = h
attempts_bounded m (e ∷ es) jobs capped h = attempts_bounded m es _ capped.1 (
    All-Pointwise (λ row. row.attempt ≤ m) jobs (perform e.connection e.now e.request jobs)
      (Pointwise-perform (λ row row'. row.attempt ≤ m → row'.attempt ≤ m) (λ row b. b) e.connection
        e.now e.request jobs
        (λ row row' p b. (statement_attempt e.now m e.request row row' p capped.0 b).1))
      h)

statement_mode :
    (now : ℕ) (r : Request) (mode : JobMode) (row row' : Job)
    → statement_of now r row ≡ some row'
    → row.mode ≡ some mode
    → row'.mode ≡ some mode
unfolding statement_of
statement_mode now (claims j v) mode row row' e h = unfold claim_row in ground arith
statement_mode now (marks_processing j) mode row row' e h = unfold set_status_row in ground arith
statement_mode now (acquires j v w secs max m) mode row row' e h =
    unfold acquire_row in ground arith
statement_mode now (renews j v w secs) mode row row' e h = unfold renew_row in ground arith
statement_mode now (releases j v w max) mode row row' e h = unfold release_row in ground arith
statement_mode now (completes j v w) mode row row' e h = unfold complete_row in ground arith
statement_mode now (completes_distributed j v w attempt key) mode row row' e h =
    unfold complete_distributed_row in ground arith
statement_mode now (fails j v w reason max) mode row row' e h = unfold fail_row in ground arith

-- The mode that the first acquisition selects is immutable: no request changes a mode that is set.
pub modes_immutable :
    (c : Connection) (now : ℕ) (r : Request) (mode : JobMode) (jobs : List Job)
    → Pointwise
        (λ row row'. row.mode ≡ some mode → row'.mode ≡ some mode)
        jobs
        (perform c now r jobs)
modes_immutable c now r mode jobs =
    Pointwise-perform _ (λ row h. h) c now r jobs
      λ row row' e h. statement_mode now r mode row row' e h
