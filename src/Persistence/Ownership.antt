-- ===== src/Persistence/Ownership.antt =====
-- The outcome of an owner's request, from the row that its identifiers name.
use streaming_video_app.Prelude.{
  ℕ, Text, text_eq, text_eq_sound, text_eq_refl, ◌≡◌, refl, Bool, true, false, not, ◌&&◌, Option,
  none, some, List, [], ◌∷◌, All, arith, leb, ltb, ◌==◌, if◌then◌else◌, ok, err, Bool-cases, inl,
  inr, ◌>>=◌,
}
use streaming_video_app.Persistence.Port.{
  JobOperationOutcome, applied, not_owner, cli, distributed, invalid_distributed_attempt,
  invalid_manifest_key,
}
use streaming_video_app.Persistence.Table.{Job, up, update, execute, is_row, is_owned}
use streaming_video_app.Persistence.Statements.{
  is_mode, is_null, renew_row, release_row, complete_row, complete_distributed_row, fail_row,
}
use streaming_video_app.Persistence.Postgres.{
  atomic_outcome, target, renew_lease, release_for_retry, complete, complete_distributed, fail,
  manifest_key,
}

-- `id` is the table's primary key.
abbrev pub HasUniqueIds : List Job → Type 0
HasUniqueIds [] = Unit
HasUniqueIds (row ∷ rows) = All (λ r. text_eq r.id row.id ≡ false) rows × HasUniqueIds rows

-- How many rows a statement changes, if it changes only rows that the identifiers name.
abbrev matched : (Job → Option Job) → Option Job → ℕ
matched statement none = 0
matched statement (some row) = elim (statement row) [ none ↦ 0 | some row' ↦ 1 ]

pub other_row :
    (j v : Text) (row other : Job)
    → is_row j v row ≡ true
    → text_eq other.id row.id ≡ false
    → is_row j v other ≡ false
unfolding is_row
other_row j v row other h d =
    ground (arith, text_eq_sound row.id j, text_eq_sound other.id j, text_eq_refl j)

module _ (j v : Text) (statement : Job → Option Job)
    (names : (row : Job) → is_row j v row ≡ false → statement row ≡ none) where
  count_absent :
      (row : Job) (rows : List Job)
      → is_row j v row ≡ true
      → All (λ r. text_eq r.id row.id ≡ false) rows
      → (update statement rows).0 ≡ 0
  unfolding update
  count_absent row [] h d = refl
  count_absent row (other ∷ rows) h d =
      rw (names other (other_row j v row other h d.0), update) (count_absent row rows h d.1)

  count-update :
      (jobs : List Job)
      → HasUniqueIds jobs
      → (update statement jobs).0 ≡ matched statement (target j v jobs)
  unfolding update target
  count-update [] u = refl
  count-update (row ∷ rows) u = elim (Bool-cases (is_row j v row)) [
    | inl h ↦ rw h (ground (arith, count_absent row rows h u.0))
    | inr h ↦ rw (h, names row h, update) (count-update rows u.1)
  ]

-- `applied` where the named row passes the test.
abbrev pub when_row : (Job → Bool) → Option Job → JobOperationOutcome
when_row test none = not_owner
when_row test (some row) = if test row then applied else not_owner

atomic-matched :
    (test : Job → Bool) (statement : Job → Option Job) (o : Option Job)
    → ((row : Job) → is_null (statement row) ≡ not (test row))
    → atomic_outcome (matched statement o) ≡ ok (when_row test o)
unfolding atomic_outcome is_null
atomic-matched test statement none h = refl
atomic-matched test statement (some row) h = ground (arith, h row)

module _ (j v : Text) (test : Job → Bool) (statement : Job → Option Job)
    (names : (row : Job) → is_row j v row ≡ false → statement row ≡ none)
    (decides : (row : Job) → is_null (statement row) ≡ not (test row)) where
  atomic-execute :
      (jobs : List Job)
      → HasUniqueIds jobs
      → ((execute up statement jobs).0 >>= atomic_outcome) ≡ ok (when_row test (target j v jobs))
  unfolding execute
  atomic-execute jobs u =
      rw (count-update j v statement names jobs u) (atomic-matched test statement _ decides)

-- What the row must satisfy for each request of worker `w` to apply.
module _ (now : ℕ) (j v w : Text) where
  abbrev pub may_release : ℕ → Job → Bool
  may_release max row = is_owned now j v w row && ltb row.attempt max

  abbrev pub may_complete : Job → Bool
  may_complete row =
      is_owned now j v w row && (is_mode cli row.mode && is_null row.published_manifest_key)

  abbrev pub may_fail : Text → ℕ → Job → Bool
  may_fail reason max row =
      is_owned now j v w row && (leb max row.attempt && not (text_eq reason []))

  abbrev pub may_publish : ℕ → Job → Bool
  may_publish attempt row =
      is_owned now j v w row
      && (row.attempt == attempt
          && (is_mode distributed row.mode && is_null row.published_manifest_key))

-- Where the connection is up and `id` is the primary key, renewing, releasing, completing and
-- failing are each applied exactly if the row that the identifiers name is processed by this worker
-- under a live lease and, for a release, has attempts left; for a completion, is in CLI mode and
-- unpublished; for a failure, has no attempts left and a reason is given. They are answered
-- `NotOwner` otherwise, also where there is no such row, and never report several changed jobs.
pub owner_outcomes :
    (now : ℕ) (j v w reason : Text) (secs max : ℕ) (jobs : List Job)
    → HasUniqueIds jobs
    → let row = target j v jobs in
      ((renew_lease up now j v w secs jobs).0 ≡ ok (when_row (is_owned now j v w) row))
      × ((release_for_retry up now j v w max jobs).0
          ≡ ok (when_row (may_release now j v w max) row))
      × ((complete up now j v w jobs).0 ≡ ok (when_row (may_complete now j v w) row))
      × ((fail up now j v w reason max jobs).0 ≡ ok (when_row (may_fail now j v w reason max) row))
unfolding renew_lease release_for_retry complete fail
owner_outcomes now j v w reason secs max jobs u = (
  atomic-execute j v (is_owned now j v w) (renew_row now j v w secs)
      (λ row h. unfold renew_row in ground arith) (λ row. unfold renew_row is_null in ground arith)
      jobs u,
  atomic-execute j v (may_release now j v w max) (release_row now j v w max)
      (λ row h. unfold release_row in ground arith)
      (λ row. unfold release_row is_null in ground arith) jobs u,
  atomic-execute j v (may_complete now j v w) (complete_row now j v w)
      (λ row h. unfold complete_row in ground arith)
      (λ row. unfold complete_row is_null in ground arith) jobs u,
  atomic-execute j v (may_fail now j v w reason max) (fail_row now j v w reason max)
      (λ row h. unfold fail_row in ground arith) (λ row. unfold fail_row is_null in ground arith)
      jobs u,
)

manifest_key-ne-nil : (j v : Text) (attempt : ℕ) → text_eq (manifest_key j v attempt) [] ≡ false
unfolding manifest_key text_eq
manifest_key-ne-nil j v attempt = refl

complete_distributed_atomic :
    (now : ℕ) (j v w : Text) (attempt : ℕ) (jobs : List Job)
    → HasUniqueIds jobs
    → ((execute up (complete_distributed_row now j v w attempt (manifest_key j v attempt)) jobs).0
        >>= atomic_outcome)
      ≡ ok (when_row (may_publish now j v w attempt) (target j v jobs))
complete_distributed_atomic now j v w attempt jobs u =
    atomic-execute j v (may_publish now j v w attempt)
      (complete_distributed_row now j v w attempt (manifest_key j v attempt))
      (λ row h. unfold complete_distributed_row in ground arith)
      (λ row.
        unfold complete_distributed_row is_null in ground (arith, manifest_key-ne-nil j v attempt))
      jobs u

-- A distributed completion is refused for attempt 0 and for any key but the canonical key of the
-- attempt. With that key, where the connection is up and `id` is the primary key, it is applied
-- exactly if the named row is processed by this worker under a live lease, at this attempt, in
-- distributed mode and unpublished, and is answered `NotOwner` otherwise.
pub complete_distributed_outcome :
    (now : ℕ) (j v w key : Text) (attempt : ℕ) (jobs : List Job)
    → HasUniqueIds jobs
    → (complete_distributed up now j v w attempt key jobs).0 ≡ (
        if attempt == 0
        then err invalid_distributed_attempt
        else if text_eq key (manifest_key j v attempt)
        then ok (when_row (may_publish now j v w attempt) (target j v jobs))
        else err invalid_manifest_key)
unfolding complete_distributed
complete_distributed_outcome now j v w key attempt jobs u =
    elim (Bool-cases (text_eq key (manifest_key j v attempt))) [
      | inl h ↦
          let e = text_eq_sound key (manifest_key j v attempt) h in
          rw (h, e) (ground (arith, complete_distributed_atomic now j v w attempt jobs u))
      | inr h ↦ ground arith
    ]
