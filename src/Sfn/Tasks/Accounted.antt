-- ===== src/Sfn/Tasks/Accounted.antt =====
-- Every task of an inspection that succeeds is accounted for (worker/src/sfn.rs).
use streaming_video_app.Prelude.{
  ℕ, zero, suc, Text, ◌≡◌, refl, Bool, true, false, inl, inr, List, [], ◌∷◌, ◌++◌, length, Result,
  OnOk, OnOk-bind, OnOk-imp, OnOk-of, ok, err, text_eq, text_eq_sound, All, All-map, sym, subst,
}
use mathlib.Core.List.{Memᴰ}
use mathlib.Core.List.Memᴰ
use streaming_video_app.Sfn.Arns.{SfnApiError, cluster_from_task_arn, text_ltb}
use streaming_video_app.Sfn.Tasks.{
  DescribedTasks, Groups, place, add_to_cluster, group_by_cluster, chunks_from, chunks,
  classify_live_tasks, inspect_chunks, inspect_groups, inspect_all, conclude,
  confirm_residual_ecs_tasks,
}
use streaming_video_app.Sfn.Tasks.Report.{IsReported, classify_live_tasks-IsReported}

-- What holds of every task of a group.
abbrev AllGroups : (Text → Text → Type 0) → Groups → Type 0
AllGroups P [] = Unit
AllGroups P ((cluster, arns) ∷ groups) = All (P cluster) arns × AllGroups P groups

module _ (P : Text → Text → Type 0) where
  split_last :
      (c : Text) (arns : List Text) (arn : Text)
      → All (P c) (arns ++ (arn ∷ []))
      → All (P c) arns × P c arn
  split_last c [] arn h = (tt, h.0)
  split_last c (x ∷ arns) arn h = (let r = split_last c arns arn h.1 in ((h.0, r.0), r.1))

  place-AllGroups :
      (same earlier : Bool) (cluster arn : Text) (group : Text × List Text) (groups rest : Groups)
      → text_eq cluster group.0 ≡ same
      → (AllGroups P rest → AllGroups P groups × P cluster arn)
      → AllGroups P (place same earlier cluster arn group groups rest)
      → AllGroups P (group ∷ groups) × P cluster arn
  place-AllGroups true earlier cluster arn (key, arns) groups rest e f h =
      (let r = split_last key arns arn h.0 in
        ((r.0, h.1), subst (λ c. P c arn) (sym (text_eq_sound cluster key e)) r.1))
  place-AllGroups false true cluster arn (key, arns) groups rest e f h = (h.1, h.0.0)
  place-AllGroups false false cluster arn (key, arns) groups rest e f h =
      (let r = f h.1 in ((h.0, r.0), r.1))

  add_to_cluster-AllGroups :
      (cluster arn : Text) (groups : Groups)
      → AllGroups P (add_to_cluster cluster arn groups)
      → AllGroups P groups × P cluster arn
  unfolding add_to_cluster
  add_to_cluster-AllGroups cluster arn [] h = (tt, h.0.0)
  add_to_cluster-AllGroups cluster arn (group ∷ groups) h =
      place-AllGroups _ (text_ltb cluster group.0) cluster arn group groups _ refl
        (add_to_cluster-AllGroups cluster arn groups) h

  -- The groups hold every task, under its own cluster.
  group_by_cluster-AllGroups :
      (arns : List Text) (groups : Groups)
      → OnOk
          (λ grouped.
            AllGroups P grouped
            → All
                (λ arn. (cluster : Text) × (cluster_from_task_arn arn ≡ ok cluster) × P cluster arn)
                arns
              × AllGroups P groups)
          (group_by_cluster arns groups)
  unfolding group_by_cluster
  group_by_cluster-AllGroups [] groups = λ h. (tt, h)
  group_by_cluster-AllGroups (arn ∷ arns) groups =
      OnOk-bind (λ cluster. cluster_from_task_arn arn ≡ ok cluster) _ (cluster_from_task_arn arn) _
        (OnOk-of (cluster_from_task_arn arn))
        (λ cluster e.
          OnOk-imp _ _ (group_by_cluster arns (add_to_cluster cluster arn groups))
            (λ grouped f h.
              (let r = f h in
                let s = add_to_cluster-AllGroups cluster arn groups r.1 in
                (((cluster, e, s.1), r.0), s.0)))
            (group_by_cluster-AllGroups arns (add_to_cluster cluster arn groups)))

  chunks_from-All :
      (c : Text) (room : ℕ) (arns : List Text)
      → All (P c) (chunks_from room arns).0
      → All (All (P c)) (chunks_from room arns).1
      → All (P c) arns
  unfolding chunks_from
  chunks_from-All c room [] h hs = tt
  chunks_from-All c zero (x ∷ xs) h hs = (hs.0.0, chunks_from-All c 99 xs hs.0.1 hs.1)
  chunks_from-All c (suc room) (x ∷ xs) h hs = (h.0, chunks_from-All c room xs h.1 hs)

  chunks_from_zero-All :
      (c : Text) (arns : List Text) → All (All (P c)) (chunks arns) → All (P c) arns
  unfolding chunks chunks_from
  chunks_from_zero-All c [] h = tt
  chunks_from_zero-All c (x ∷ xs) h = chunks_from-All c 0 (x ∷ xs) tt h

-- The service reports the task as gone or as stopped, or the worker asks it to stop the task.
abbrev pub IsAccountedFor :
    (Text → List Text → Result SfnApiError DescribedTasks)
    → List (Text × Text)
    → Text
    → Text
    → Type 0
IsAccountedFor describe stops cluster arn =
    (chunk : List Text) × (described : DescribedTasks) × (describe cluster chunk ≡ ok described)
    × IsReported cluster described stops arn

module _ (describe : Text → List Text → Result SfnApiError DescribedTasks) where
  IsAccountedFor-more :
      (f : List (Text × Text) → List (Text × Text))
      → (xs : List (Text × Text)) → ((t : Text × Text) → Memᴰ t xs → Memᴰ t (f xs))
      → (cluster arn : Text) → IsAccountedFor describe xs cluster arn
      → IsAccountedFor describe (f xs) cluster arn
  IsAccountedFor-more f xs more cluster arn (chunk, described, e, inl gone) =
      (chunk, described, e, inl gone)
  IsAccountedFor-more f xs more cluster arn (chunk, described, e, inr (status, m, inl stopped)) =
      (chunk, described, e, inr (status, m, inl stopped))
  IsAccountedFor-more f xs more cluster arn (chunk, described, e, inr (status, m, inr asked)) =
      (chunk, described, e, inr (status, m, inr (more (cluster, arn) asked)))

  in_first :
      (xs ys : List (Text × Text)) (cluster arn : Text)
      → IsAccountedFor describe xs cluster arn
      → IsAccountedFor describe (xs ++ ys) cluster arn
  in_first xs ys = IsAccountedFor-more (λ zs. zs ++ ys) xs (λ t m. Memᴰ.append_left ys m)

  in_second :
      (xs ys : List (Text × Text)) (cluster arn : Text)
      → IsAccountedFor describe ys cluster arn
      → IsAccountedFor describe (xs ++ ys) cluster arn
  in_second xs ys = IsAccountedFor-more (λ zs. xs ++ zs) ys (λ t m. Memᴰ.append_right xs m)

  inspect_chunks-IsAccountedFor :
      (cluster : Text) (batches : List (List Text))
      → OnOk
          (λ residual. All (All (IsAccountedFor describe residual cluster)) batches)
          (inspect_chunks describe cluster batches)
  unfolding inspect_chunks
  inspect_chunks-IsAccountedFor cluster [] = tt
  inspect_chunks-IsAccountedFor cluster (chunk ∷ later) =
      OnOk-bind (λ described. describe cluster chunk ≡ ok described) Q (describe cluster chunk) _
        (OnOk-of (describe cluster chunk))
        (λ described e.
          OnOk-bind (λ residual. All (IsReported cluster described residual) chunk) Q
            (classify_live_tasks cluster chunk described) _
            (classify_live_tasks-IsReported cluster chunk described)
            (λ residual h.
              OnOk-bind (λ others. All (All (IsAccountedFor describe others cluster)) later) Q
                (inspect_chunks describe cluster later) _
                (inspect_chunks-IsAccountedFor cluster later)
                (λ others hs. (
                  All-map (λ arn r. in_first residual others cluster arn (chunk, described, e, r))
                      chunk h,
                  All-map (All-map (in_second residual others cluster)) later hs,
                ))))
    where
      Q : List (Text × Text) → Type 0
      Q residual = All (All (IsAccountedFor describe residual cluster)) (chunk ∷ later)

  AllGroups-map :
      (P Q : Text → Text → Type 0) (f : (c a : Text) → P c a → Q c a) (groups : Groups)
      → AllGroups P groups
      → AllGroups Q groups
  AllGroups-map P Q f [] h = tt
  AllGroups-map P Q f ((cluster, arns) ∷ groups) h =
      (All-map (f cluster) arns h.0, AllGroups-map P Q f groups h.1)

  inspect_groups-IsAccountedFor :
      (groups : Groups)
      → OnOk
          (λ residual. AllGroups (IsAccountedFor describe residual) groups)
          (inspect_groups describe groups)
  unfolding inspect_groups chunks
  inspect_groups-IsAccountedFor [] = tt
  inspect_groups-IsAccountedFor ((cluster, arns) ∷ groups) =
      OnOk-bind (λ residual. All (All (IsAccountedFor describe residual cluster)) (chunks arns)) Q
        (inspect_chunks describe cluster (chunks arns)) _
        (inspect_chunks-IsAccountedFor cluster (chunks arns))
        (λ residual h.
          OnOk-bind (λ others. AllGroups (IsAccountedFor describe others) groups) Q
            (inspect_groups describe groups) _ (inspect_groups-IsAccountedFor groups)
            (λ others hs. (
              All-map (in_first residual others cluster) arns
                  (chunks_from_zero-All (IsAccountedFor describe residual) cluster arns h),
              AllGroups-map _ _ (in_second residual others) groups hs,
            )))
    where
      Q : List (Text × Text) → Type 0
      Q residual = AllGroups (IsAccountedFor describe residual) ((cluster, arns) ∷ groups)

  abbrev pub IsPlaced : List (Text × Text) → Text → Type 0
  IsPlaced stops arn =
      (cluster : Text) × (cluster_from_task_arn arn ≡ ok cluster)
      × IsAccountedFor describe stops cluster arn

  inspect_all-IsPlaced :
      (arns : List Text)
      → OnOk (λ residual. All (IsPlaced residual) arns) (inspect_all describe arns)
  unfolding inspect_all
  inspect_all-IsPlaced arns =
      OnOk-bind (λ groups. group_by_cluster arns [] ≡ ok groups)
        (λ residual. All (IsPlaced residual) arns) (group_by_cluster arns []) _
        (OnOk-of (group_by_cluster arns []))
        (λ groups e.
          OnOk-imp (λ residual. AllGroups (IsAccountedFor describe residual) groups)
            (λ residual. All (IsPlaced residual) arns) (inspect_groups describe groups)
            (λ residual h.
              (subst (OnOk _) e
                (group_by_cluster-AllGroups (IsAccountedFor describe residual) arns []) h).0)
            (inspect_groups-IsAccountedFor groups))

  -- When the inspection of tasks succeeds, every task has a cluster in its name; the service, asked
  -- about that cluster, reported the task as missing or as stopped, or the worker asks it to stop
  -- the task; and the answer is how many tasks the worker asks it to stop.
  pub confirm_residual_ecs_tasks-IsAccountedFor :
      (arns : List Text) (count : ℕ)
      → (confirm_residual_ecs_tasks describe arns).answer ≡ ok count
      → All (IsPlaced (confirm_residual_ecs_tasks describe arns).stops) arns
        × (count ≡ length (confirm_residual_ecs_tasks describe arns).stops)
  unfolding confirm_residual_ecs_tasks
  confirm_residual_ecs_tasks-IsAccountedFor [] count h = (tt, cc)
  confirm_residual_ecs_tasks-IsAccountedFor (arn ∷ arns) count h =
      concluded (inspect_all describe (arn ∷ arns)) (inspect_all-IsPlaced (arn ∷ arns)) h
    where
      concluded :
          (r : Result SfnApiError (List (Text × Text)))
          → OnOk (λ residual. All (IsPlaced residual) (arn ∷ arns)) r
          → (conclude r).answer ≡ ok count
          → All (IsPlaced (conclude r).stops) (arn ∷ arns) × (count ≡ length (conclude r).stops)
      concluded (ok residual) placed e = (placed, cc)
      concluded (err e') placed e = absurd cc
