-- ===== src/Sfn/Named.antt =====
-- The names that the history of an execution yields (worker/src/sfn.rs).
use streaming_video_app.Prelude.{
  Text, ◌≡◌, refl, Bool, true, false, inl, inr, Option, Option-cases, none, some, List, [], ◌∷◌,
  Result, ok, err, All, subst, ok_inj, text_eq, if◌then◌else◌, ◌&&◌,
}
use streaming_video_app.Sfn.Arns.{SfnApiError, is_ecs_task_arn, text_ltb, eq_ignore_ascii_case}
use streaming_video_app.Sfn.History.{
  Value, Values, Entries, string, array, object, other, no_values, value, no_entries, entry, insert,
  insert_arn, insert_arns, split_tokens, collect_ecs_task_arns_from_text, is_task_member, text_of,
  take_member, walk_json, walk_values, walk_entries, HistoryTaskScan, HistoryEvent, Details,
  collect_ecs_task_arns_from_json, take_ecs_output, take_details, take_resource, scan_history_event,
  scan_events, finish, finish_history_task_scan, scan_pages, child_task_arns,
}

-- Every one of them is the name of a task.
abbrev pub AreTasks : List Text → Type 0
AreTasks arns = All (λ arn. is_ecs_task_arn arn ≡ true) arns

insert-AreTasks :
    (arn : Text) (arns : List Text)
    → is_ecs_task_arn arn ≡ true
    → AreTasks arns
    → AreTasks (insert arn arns)
unfolding insert
insert-AreTasks arn [] e h = (e, tt)
insert-AreTasks arn (x ∷ xs) e h =
    placed (insert-AreTasks arn xs e h.1) (text_eq arn x) (text_ltb arn x)
  where
    placed :
        AreTasks (insert arn xs)
        → (same earlier : Bool)
        → AreTasks (if same then x ∷ xs else if earlier then arn ∷ x ∷ xs else x ∷ insert arn xs)
    placed rest true earlier = h
    placed rest false true = (e, h)
    placed rest false false = (h.0, rest)

insert_arns-AreTasks :
    (tokens arns : List Text) → AreTasks arns → AreTasks (insert_arns tokens arns)
unfolding insert_arns
insert_arns-AreTasks [] arns h = h
insert_arns-AreTasks (token ∷ tokens) arns h =
    insert_arns-AreTasks tokens (insert_arn token arns) (kept (is_ecs_task_arn token) refl)
  where
    kept : (b : Bool) → is_ecs_task_arn token ≡ b → AreTasks (if b then insert token arns else arns)
    kept true e = insert-AreTasks token arns e h
    kept false e = h

collect_text-AreTasks :
    (raw : Text) (arns : List Text)
    → AreTasks arns
    → AreTasks (collect_ecs_task_arns_from_text raw arns)
unfolding collect_ecs_task_arns_from_text
collect_text-AreTasks raw arns h = insert_arns-AreTasks (split_tokens raw) arns h

take_member-AreTasks :
    (key : Text) (item : Value) (b : Bool) (arns walked : List Text)
    → is_task_member key item ≡ b
    → AreTasks arns
    → AreTasks walked
    → AreTasks (take_member b (text_of item) arns walked)
take_member-AreTasks key (string text) true arns walked e h hw =
    insert-AreTasks text arns (second (eq_ignore_ascii_case key _) e) h
  where
    second : (a : Bool) → (a && is_ecs_task_arn text) ≡ true → is_ecs_task_arn text ≡ true
    second true e' = e'
    second false e' = absurd cc
take_member-AreTasks key (array items) true arns walked e h hw = absurd cc
take_member-AreTasks key (object _) true arns walked e h hw = absurd cc
take_member-AreTasks key other true arns walked e h hw = absurd cc
take_member-AreTasks key item false arns walked e h hw = hw

mutual
  unfolding walk_json walk_values walk_entries

  walk_json-AreTasks : (v : Value) (arns : List Text) → AreTasks arns → AreTasks (walk_json v arns)
  walk_json-AreTasks (string text) arns h = collect_text-AreTasks text arns h
  walk_json-AreTasks (array items) arns h = walk_values-AreTasks items arns h
  walk_json-AreTasks (object entries) arns h = walk_entries-AreTasks entries arns h
  walk_json-AreTasks other arns h = h

  walk_values-AreTasks :
      (vs : Values) (arns : List Text) → AreTasks arns → AreTasks (walk_values vs arns)
  walk_values-AreTasks no_values arns h = h
  walk_values-AreTasks (value item items) arns h =
      walk_values-AreTasks items (walk_json item arns) (walk_json-AreTasks item arns h)

  walk_entries-AreTasks :
      (es : Entries) (arns : List Text) → AreTasks arns → AreTasks (walk_entries es arns)
  walk_entries-AreTasks no_entries arns h = h
  walk_entries-AreTasks (entry key item entries) arns h = walk_entries-AreTasks entries _ (
      take_member-AreTasks key item _ arns (walk_json item arns) refl h
        (walk_json-AreTasks item arns h))

module _ (from_str : Text → Option Value) where
  collect_json-AreTasks :
      (raw : Text) (arns : List Text)
      → AreTasks arns
      → AreTasks (collect_ecs_task_arns_from_json from_str raw arns)
  unfolding collect_ecs_task_arns_from_json
  collect_json-AreTasks raw arns h = elim (Option-cases (from_str raw)) [
    | inl e ↦ rw e (collect_text-AreTasks raw arns h)
    | inr (v, e) ↦ rw e (walk_json-AreTasks v arns h)
  ]

  take_ecs_output-AreTasks :
      (resource_type : Text) (output : Option Text) (scan : HistoryTaskScan)
      → AreTasks scan.arns
      → AreTasks (take_ecs_output from_str resource_type output scan).arns
  unfolding take_ecs_output
  take_ecs_output-AreTasks resource_type none scan h = h
  take_ecs_output-AreTasks resource_type (some output) scan h =
      collect_json-AreTasks output scan.arns h

  take_details-AreTasks :
      (details : Details) (scan : HistoryTaskScan)
      → AreTasks scan.arns
      → AreTasks (take_details from_str details scan).arns
  take_details-AreTasks none scan h = h
  take_details-AreTasks (some (resource_type, output)) scan h =
      take_ecs_output-AreTasks resource_type output scan h

  take_resource-AreTasks :
      (details : Details) (scan : HistoryTaskScan)
      → AreTasks scan.arns
      → AreTasks (take_resource from_str details scan).arns
  take_resource-AreTasks none scan h = h
  take_resource-AreTasks (some (resource_type, output)) scan h =
      take_ecs_output-AreTasks resource_type none scan h

  scan_events-AreTasks :
      (events : List HistoryEvent) (scan : HistoryTaskScan)
      → AreTasks scan.arns
      → AreTasks (scan_events from_str events scan).arns
  unfolding scan_events scan_history_event
  scan_events-AreTasks [] scan h = h
  scan_events-AreTasks (event ∷ events) scan h =
      scan_events-AreTasks events (scan_history_event from_str event scan) (
        take_details-AreTasks event.timed_out _ (
          take_details-AreTasks event.failed _ (
            take_resource-AreTasks event.started _ (
              take_resource-AreTasks event.scheduled _ (
                take_details-AreTasks event.succeeded _
                  (take_details-AreTasks event.submitted scan h))))))

  finished :
      (saw : Bool) (found arns : List Text)
      → AreTasks found
      → finish from_str saw found ≡ ok arns
      → AreTasks arns
  finished true [] arns h e = absurd cc
  finished true (x ∷ xs) arns h e = subst AreTasks (ok_inj e) h
  finished false found arns h e = subst AreTasks (ok_inj e) h

  scan_pages-AreTasks :
      (pages : List (Result SfnApiError (List HistoryEvent))) (scan : HistoryTaskScan)
      (arns : List Text)
      → AreTasks scan.arns
      → scan_pages from_str pages scan ≡ ok arns
      → AreTasks arns
  unfolding scan_pages finish_history_task_scan
  scan_pages-AreTasks [] scan arns h e = finished scan.saw_ecs_task scan.arns arns h e
  scan_pages-AreTasks (err x ∷ pages) scan arns h e = absurd cc
  scan_pages-AreTasks (ok events ∷ pages) scan arns h e =
      scan_pages-AreTasks pages (scan_events from_str events scan) arns
        (scan_events-AreTasks events scan h) e

  -- Whatever the pages of a history hold, each name that the scan of them answers is the name of a
  -- task.
  pub child_task_arns-AreTasks :
      (pages : List (Result SfnApiError (List HistoryEvent))) (arns : List Text)
      → child_task_arns from_str pages ≡ ok arns
      → AreTasks arns
  unfolding child_task_arns
  child_task_arns-AreTasks pages arns e =
      scan_pages-AreTasks pages (record { arns = []; saw_ecs_task = false }) arns tt e
