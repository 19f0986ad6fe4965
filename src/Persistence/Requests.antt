-- ===== src/Persistence/Requests.antt =====
-- The requests that workers send to persistence/src/postgres.rs, as data, and histories of them:
-- any workers, in any order, over connections that may refuse a request or lose its response.
use streaming_video_app.Prelude.{
  ℕ, Text, ◌≡◌, refl, Option, some, List, [], ◌∷◌, ◌⊎◌, inl, inr, All, arith, Option-cases,
}
use streaming_video_app.Persistence.Port.{JobMode}
use streaming_video_app.Persistence.Table.{
  Job, queued, processing, Connection, up, refused, response_lost, update, execute,
}
use streaming_video_app.Persistence.Statements.{
  claim_row, set_status_row, acquire_row, renew_row, release_row, complete_row,
  complete_distributed_row, fail_row,
}
use streaming_video_app.Persistence.Postgres.{
  claim_upload, mark_processing, acquire_lease_with_mode, renew_lease, release_for_retry, complete,
  complete_distributed, fail,
}

pub data Request : Type 0 where
  claims : Text → Text → Request
  marks_processing : Text → Request
  acquires : Text → Text → Text → ℕ → ℕ → JobMode → Request
  renews : Text → Text → Text → ℕ → Request
  releases : Text → Text → Text → ℕ → Request
  completes : Text → Text → Text → Request
  completes_distributed : Text → Text → Text → ℕ → Text → Request
  fails : Text → Text → Text → Text → ℕ → Request

-- The table after a request.
unfoldable pub perform : Connection → ℕ → Request → List Job → List Job
perform c now (claims j v) jobs = (claim_upload c now j v jobs).1
perform c now (marks_processing j) jobs = (mark_processing c now j jobs).1
perform c now (acquires j v w secs max mode) jobs =
    (acquire_lease_with_mode c now j v w secs max mode jobs).1
perform c now (renews j v w secs) jobs = (renew_lease c now j v w secs jobs).1
perform c now (releases j v w max) jobs = (release_for_retry c now j v w max jobs).1
perform c now (completes j v w) jobs = (complete c now j v w jobs).1
perform c now (completes_distributed j v w attempt key) jobs =
    (complete_distributed c now j v w attempt key jobs).1
perform c now (fails j v w reason max) jobs = (fail c now j v w reason max jobs).1

-- The statement that a request runs.
unfoldable pub statement_of : ℕ → Request → Job → Option Job
statement_of now (claims j v) = claim_row now j v
statement_of now (marks_processing j) = set_status_row now j processing queued
statement_of now (acquires j v w secs max mode) = acquire_row now j v w secs max mode
statement_of now (renews j v w secs) = renew_row now j v w secs
statement_of now (releases j v w max) = release_row now j v w max
statement_of now (completes j v w) = complete_row now j v w
statement_of now (completes_distributed j v w attempt key) =
    complete_distributed_row now j v w attempt key
statement_of now (fails j v w reason max) = fail_row now j v w reason max

-- Whatever the connection does, a statement runs once or not at all.
execute_cases :
    (c : Connection) (statement : Job → Option Job) (jobs : List Job)
    → ((execute c statement jobs).1 ≡ jobs)
      ⊎ ((execute c statement jobs).1 ≡ (update statement jobs).1)
unfolding execute
execute_cases up statement jobs = inr refl
execute_cases (refused e) statement jobs = inl refl
execute_cases (response_lost e) statement jobs = inr refl

acquire_cases :
    (c : Connection) (now : ℕ) (j v w : Text) (secs max : ℕ) (mode : JobMode) (jobs : List Job)
    → ((acquire_lease_with_mode c now j v w secs max mode jobs).1 ≡ jobs)
      ⊎ ((acquire_lease_with_mode c now j v w secs max mode jobs).1
          ≡ (update (acquire_row now j v w secs max mode) jobs).1)
unfolding acquire_lease_with_mode
acquire_cases up now j v w secs max mode jobs = inr refl
acquire_cases (refused e) now j v w secs max mode jobs = inl refl
acquire_cases (response_lost e) now j v w secs max mode jobs = inr refl

-- A request leaves the table alone or runs its statement once on it.
pub perform_cases :
    (c : Connection) (now : ℕ) (r : Request) (jobs : List Job)
    → (perform c now r jobs ≡ jobs) ⊎ (perform c now r jobs ≡ (update (statement_of now r) jobs).1)
unfolding perform statement_of
perform_cases c now (claims j v) jobs = unfold claim_upload in execute_cases c _ jobs
perform_cases c now (marks_processing j) jobs = unfold mark_processing in execute_cases c _ jobs
perform_cases c now (acquires j v w secs max mode) jobs =
    acquire_cases c now j v w secs max mode jobs
perform_cases c now (renews j v w secs) jobs = unfold renew_lease in execute_cases c _ jobs
perform_cases c now (releases j v w max) jobs = unfold release_for_retry in execute_cases c _ jobs
perform_cases c now (completes j v w) jobs = unfold complete in execute_cases c _ jobs
perform_cases c now (completes_distributed j v w attempt key) jobs =
    unfold complete_distributed in
    ground (arith, execute_cases c (complete_distributed_row now j v w attempt key) jobs)
perform_cases c now (fails j v w reason max) jobs = unfold fail in execute_cases c _ jobs

-- A relation between the rows of two tables, position by position.
abbrev pub Pointwise : (Job → Job → Type 0) → List Job → List Job → Type 0
Pointwise R [] [] = Unit
Pointwise R (row ∷ rows) (row' ∷ rows') = R row row' × Pointwise R rows rows'
Pointwise R _ _ = ⊥

module _ (R : Job → Job → Type 0) (stays : (row : Job) → R row row) where
  Pointwise-refl : (jobs : List Job) → Pointwise R jobs jobs
  Pointwise-refl [] = tt
  Pointwise-refl (row ∷ rows) = (stays row, Pointwise-refl rows)

  Pointwise-update :
      (statement : Job → Option Job) (jobs : List Job)
      → ((row row' : Job) → statement row ≡ some row' → R row row')
      → Pointwise R jobs (update statement jobs).1
  unfolding update
  Pointwise-update statement [] changes = tt
  Pointwise-update statement (row ∷ rows) changes = elim (Option-cases (statement row)) [
    | inl e ↦ rw (e, update) (stays row, Pointwise-update statement rows changes)
    | inr (row', e) ↦ rw (e, update) (changes row row' e, Pointwise-update statement rows changes)
  ]

  -- What one statement does to one row, a request does to the table.
  pub Pointwise-perform :
      (c : Connection) (now : ℕ) (r : Request) (jobs : List Job)
      → ((row row' : Job) → statement_of now r row ≡ some row' → R row row')
      → Pointwise R jobs (perform c now r jobs)
  Pointwise-perform c now r jobs changes = elim (perform_cases c now r jobs) [
    | inl e ↦ rw e (Pointwise-refl jobs)
    | inr e ↦ rw e (Pointwise-update (statement_of now r) jobs changes)
  ]

-- A property of rows that a step keeps.
pub All-Pointwise :
    (P : Job → Type 0) (jobs jobs' : List Job)
    → Pointwise (λ row row'. P row → P row') jobs jobs'
    → All P jobs
    → All P jobs'
All-Pointwise P [] [] keeps h = tt
All-Pointwise P (row ∷ rows) (row' ∷ rows') keeps h =
    (keeps.0 h.0, All-Pointwise P rows rows' keeps.1 h.1)
All-Pointwise P [] (row' ∷ rows') keeps h = absurd keeps
All-Pointwise P (row ∷ rows) [] keeps h = absurd keeps

-- One request of a history: what the connection does, when it runs, and what it asks.
pub record Event : Type 0 where
  pub connection : Connection
  pub now : ℕ
  pub request : Request

unfoldable pub replay : List Event → List Job → List Job
replay [] jobs = jobs
replay (e ∷ es) jobs = replay es (perform e.connection e.now e.request jobs)

-- An invariant of the rows that every statement keeps holds after any history.
module _ (P : Job → Type 0)
    (keeps : (now : ℕ) (r : Request) (row row' : Job)
      → statement_of now r row ≡ some row'
      → P row
      → P row') where
  pub All-perform :
      (c : Connection) (now : ℕ) (r : Request) (jobs : List Job)
      → All P jobs
      → All P (perform c now r jobs)
  All-perform c now r jobs =
      All-Pointwise P jobs (perform c now r jobs)
        (Pointwise-perform (λ row row'. P row → P row') (λ row h. h) c now r jobs (keeps now r))

  pub All-replay : (es : List Event) (jobs : List Job) → All P jobs → All P (replay es jobs)
  unfolding replay
  All-replay [] jobs h = h
  All-replay (e ∷ es) jobs h = All-replay es _ (All-perform e.connection e.now e.request jobs h)
