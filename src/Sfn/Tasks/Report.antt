-- ===== src/Sfn/Tasks/Report.antt =====
-- What an answer of the service says of the tasks that were asked about.
use streaming_video_app.Prelude.{
  Text, ◌≡◌, refl, ap, Bool-cases, ◌⊎◌, inl, inr, Bool, true, false, ◌||◌, List, [], ◌∷◌, ◌++◌,
  OnOk, OnOk-bind, OnOk-imp, OnOk-trivial, ok, text_eq, text_eq_sound, All, All-map,
}
use mathlib.Core.List.{Memᴰ}
use mathlib.Core.List.Memᴰ
use streaming_video_app.Orchestration.Input.{is_in}
use streaming_video_app.Config.Parse.{is_empty}
use streaming_video_app.Sfn.Arns.{is_stopped_status}
use streaming_video_app.Sfn.Tasks.{
  DescribedTasks, Seen, check_named, note_task, live_tasks, check_seen, check_requested,
  classify_live_tasks,
}

-- Reported as gone or as stopped, or among the residual tasks.
abbrev pub IsReported : Text → DescribedTasks → List (Text × Text) → Text → Type 0
IsReported cluster described residual arn =
    Memᴰ arn described.missing
    ⊎ ((last_status : Text) × Memᴰ (arn, last_status) described.tasks
        × ((is_stopped_status last_status ≡ true) ⊎ Memᴰ (cluster, arn) residual))

pub is_in-Memᴰ : (x : Text) (ys : List Text) → is_in x ys ≡ true → Memᴰ x ys
is_in-Memᴰ x [] h = absurd cc
is_in-Memᴰ x (y ∷ ys) h = elim (Bool-cases (text_eq x y)) [
  | inl same ↦ Memᴰ.head (text_eq_sound x y same)
  | inr other ↦ Memᴰ.tail (is_in-Memᴰ x ys (by_other (text_eq x y) other h))
]
  where
    by_other : (b : Bool) → b ≡ false → (b || is_in x ys) ≡ true → is_in x ys ≡ true
    by_other true e h = absurd cc
    by_other false e h = h

-- The tasks of an answer that the loop over them has noted.
abbrev IsNoted : Text → List (Text × Text) → Seen → Type 0
IsNoted cluster tasks noted =
    (arn : Text)
    → Memᴰ arn noted.seen
    → (last_status : Text) × Memᴰ (arn, last_status) tasks
      × ((is_stopped_status last_status ≡ true) ⊎ Memᴰ (cluster, arn) noted.residual)

note_task-IsNoted :
    (cluster arn last_status : Text) (tasks : List (Text × Text)) (b : Bool) (noted : Seen)
    → is_stopped_status last_status ≡ b
    → IsNoted cluster tasks noted
    → OnOk (IsNoted cluster ((arn, last_status) ∷ tasks)) (note_task cluster arn b noted)
note_task-IsNoted cluster arn last_status tasks true noted e h = λ x m. elim (Memᴰ.cases_cons m) [
  | inl same ↦ (last_status, Memᴰ.head (ap (λ a. (a, last_status)) same), inl e)
  | inr m' ↦ (let w = h x m' in (w.0, Memᴰ.tail w.1, w.2))
]
note_task-IsNoted cluster arn last_status tasks false noted e h = λ x m. elim (Memᴰ.cases_cons m) [
  | inl same ↦ (
    last_status,
    Memᴰ.head (ap (λ a. (a, last_status)) same),
    inr (Memᴰ.head (ap (λ a. (cluster, a)) same)),
  )
  | inr m' ↦ later (h x m')
]
  where
    later :
        {x : Text}
        → (last_status' : Text) × Memᴰ (x, last_status') tasks
          × ((is_stopped_status last_status' ≡ true) ⊎ Memᴰ (cluster, x) noted.residual)
        → (last_status' : Text) × Memᴰ (x, last_status') ((arn, last_status) ∷ tasks)
          × ((is_stopped_status last_status' ≡ true)
              ⊎ Memᴰ (cluster, x) ((cluster, arn) ∷ noted.residual))
    later (status, m', inl s) = (status, Memᴰ.tail m', inl s)
    later (status, m', inr r) = (status, Memᴰ.tail m', inr (Memᴰ.tail r))

live_tasks-IsNoted :
    (cluster : Text) (tasks : List (Text × Text))
    → OnOk (IsNoted cluster tasks) (live_tasks cluster tasks)
unfolding live_tasks
live_tasks-IsNoted cluster [] = λ arn m. absurd (Memᴰ.not-nil m)
live_tasks-IsNoted cluster ((arn, last_status) ∷ tasks) =
    OnOk-bind (λ _. Unit {0}) (IsNoted cluster ((arn, last_status) ∷ tasks))
      (check_named (is_empty arn || is_empty last_status)) _
      (OnOk-trivial (check_named (is_empty arn || is_empty last_status)))
      (λ _ _.
        OnOk-bind (IsNoted cluster tasks) (IsNoted cluster ((arn, last_status) ∷ tasks))
          (live_tasks cluster tasks) _ (live_tasks-IsNoted cluster tasks)
          (λ noted h. note_task-IsNoted cluster arn last_status tasks _ noted refl h))

check_requested-IsSeen :
    (seen requested : List Text)
    → OnOk (λ _. All (λ arn. Memᴰ arn seen) requested) (check_requested seen requested)
unfolding check_requested
check_requested-IsSeen seen [] = tt
check_requested-IsSeen seen (arn ∷ requested) =
    OnOk-bind (λ _. is_in arn seen ≡ true) (λ _. All (λ a. Memᴰ a seen) (arn ∷ requested))
      (check_seen (is_in arn seen)) _ (by_test (is_in arn seen))
      (λ _ h.
        OnOk-imp (λ _. All (λ a. Memᴰ a seen) requested)
          (λ _. All (λ a. Memᴰ a seen) (arn ∷ requested)) (check_requested seen requested)
          (λ _ hs. (is_in-Memᴰ arn seen h, hs)) (check_requested-IsSeen seen requested))
  where
    by_test : (b : Bool) → OnOk (λ _. b ≡ true) (check_seen b)
    by_test true = refl
    by_test false = tt

-- Whatever the loop accepts, it has an account of every task that was asked about.
pub classify_live_tasks-IsReported :
    (cluster : Text) (requested : List Text) (described : DescribedTasks)
    → OnOk
        (λ residual. All (IsReported cluster described residual) requested)
        (classify_live_tasks cluster requested described)
unfolding classify_live_tasks
classify_live_tasks-IsReported cluster requested described =
    OnOk-bind (IsNoted cluster described.tasks)
      (λ residual. All (IsReported cluster described residual) requested)
      (live_tasks cluster described.tasks) _ (live_tasks-IsNoted cluster described.tasks)
      (λ noted h.
        OnOk-bind (λ _. All (λ arn. Memᴰ arn (described.missing ++ noted.seen)) requested)
          (λ residual. All (IsReported cluster described residual) requested)
          (check_requested (described.missing ++ noted.seen) requested) (λ _. ok noted.residual)
          (check_requested-IsSeen (described.missing ++ noted.seen) requested)
          (λ _ seen.
            All-map
              (λ arn m. elim (Memᴰ.append_cases described.missing m) [
                | inl gone ↦ inl gone
                | inr s ↦ inr (h arn s)
              ])
              requested seen))
