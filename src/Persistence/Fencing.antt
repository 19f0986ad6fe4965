-- ===== src/Persistence/Fencing.antt =====
-- The lease as a fence: what a worker may do to a row that another worker holds.
use streaming_video_app.Prelude.{
  ℕ, Text, text_eq_sound, ◌≡◌, ◌≢◌, ◌⊎◌, inl, inr, refl, Bool, true, false, Option, none, some,
  List, arith,
}
use streaming_video_app.Persistence.Table.{Job, Connection, is_worker, is_live, is_processing}
use streaming_video_app.Persistence.Statements.{
  claim_row, set_status_row, acquire_row, renew_row, release_row, complete_row,
  complete_distributed_row, fail_row,
}
use streaming_video_app.Persistence.Requests.{
  Request, claims, marks_processing, acquires, renews, releases, completes, completes_distributed,
  fails, statement_of, perform, Pointwise, Pointwise-perform,
}

-- The worker that a request speaks for.
abbrev pub requester : Request → Option Text
requester (claims j v) = none
requester (marks_processing j) = none
requester (acquires j v w secs max mode) = some w
requester (renews j v w secs) = some w
requester (releases j v w max) = some w
requester (completes j v w) = some w
requester (completes_distributed j v w attempt key) = some w
requester (fails j v w reason max) = some w

abbrev pub is_acquisition : Request → Bool
is_acquisition (acquires j v w secs max mode) = true
is_acquisition _ = false

-- `owner` is processing the job of the row under a lease that has not expired.
pub record IsHeldBy (owner : Text) (now : ℕ) (row : Job) : Type 0 where
  pub processing : is_processing row.status ≡ true
  pub worker : row.worker_id ≡ some owner
  pub live : is_live now row ≡ true

held_row_fenced :
    (now : ℕ) (r : Request) (owner : Text) (row row' : Job)
    → statement_of now r row ≡ some row'
    → IsHeldBy owner now row
    → (requester r ≡ some owner) × (is_acquisition r ≡ false)
unfolding statement_of is_processing is_live is_worker
held_row_fenced now (claims j v) owner row row' e h = unfold claim_row in ground arith
held_row_fenced now (marks_processing j) owner row row' e h = unfold set_status_row in ground arith
held_row_fenced now (acquires j v w secs max mode) owner row row' e h =
    unfold acquire_row in ground arith
held_row_fenced now (renews j v w secs) owner row row' e h =
    unfold renew_row in ground (arith, text_eq_sound owner w)
held_row_fenced now (releases j v w max) owner row row' e h =
    unfold release_row in ground (arith, text_eq_sound owner w)
held_row_fenced now (completes j v w) owner row row' e h =
    unfold complete_row in ground (arith, text_eq_sound owner w)
held_row_fenced now (completes_distributed j v w attempt key) owner row row' e h =
    unfold complete_distributed_row in ground (arith, text_eq_sound owner w)
held_row_fenced now (fails j v w reason max) owner row row' e h =
    unfold fail_row in ground (arith, text_eq_sound owner w)

-- While a worker holds a row under a live lease, a request of another worker, a claim, and any
-- acquisition (its own too) leave the row as it is, whatever the connection does.
pub held_rows_fenced :
    (c : Connection) (now : ℕ) (r : Request) (owner : Text) (jobs : List Job)
    → (requester r ≢ some owner) ⊎ (is_acquisition r ≡ true)
    → Pointwise (λ row row'. IsHeldBy owner now row → row' ≡ row) jobs (perform c now r jobs)
held_rows_fenced c now r owner jobs other =
    Pointwise-perform _ (λ row h. refl) c now r jobs λ row row' e h. absurd (fenced row row' e h)
  where
    fenced : (row row' : Job) → statement_of now r row ≡ some row' → IsHeldBy owner now row → ⊥
    fenced row row' e h = elim other [
      | inl p ↦ p (held_row_fenced now r owner row row' e h).0
      | inr p ↦ ground (arith, (held_row_fenced now r owner row row' e h).1)
    ]

abbrev owner_only : Request → Bool
owner_only (claims j v) = false
owner_only (marks_processing j) = false
owner_only (acquires j v w secs max mode) = false
owner_only _ = true

stale_row_unchanged :
    (now : ℕ) (r : Request) (row row' : Job)
    → statement_of now r row ≡ some row'
    → owner_only r ≡ true
    → is_live now row ≡ false
    → ⊥
unfolding statement_of is_live
stale_row_unchanged now (claims j v) row row' e h s = cc
stale_row_unchanged now (marks_processing j) row row' e h s = cc
stale_row_unchanged now (acquires j v w secs max mode) row row' e h s = cc
stale_row_unchanged now (renews j v w secs) row row' e h s = unfold renew_row in ground arith
stale_row_unchanged now (releases j v w max) row row' e h s = unfold release_row in ground arith
stale_row_unchanged now (completes j v w) row row' e h s = unfold complete_row in ground arith
stale_row_unchanged now (completes_distributed j v w attempt key) row row' e h s =
    unfold complete_distributed_row in ground arith
stale_row_unchanged now (fails j v w reason max) row row' e h s = unfold fail_row in ground arith

-- Once a lease has expired or is null, no owner's request (renew, release, complete, fail) changes
-- the row, not even one of the worker that held it.
pub stale_rows_unchanged :
    (c : Connection) (now : ℕ) (r : Request) (jobs : List Job)
    → owner_only r ≡ true
    → Pointwise (λ row row'. is_live now row ≡ false → row' ≡ row) jobs (perform c now r jobs)
stale_rows_unchanged c now r jobs h =
    Pointwise-perform _ (λ row s. refl) c now r jobs
      λ row row' e s. absurd (stale_row_unchanged now r row row' e h s)
