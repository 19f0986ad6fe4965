-- ===== src/Sfn/History.antt =====
-- The tasks that the history of an execution names (worker/src/sfn.rs).
use streaming_video_app.Prelude.{
  ℕ, Text, codes, text_eq, Bool, true, false, ◌&&◌, ◌||◌, Option, none, some, List, [], ◌∷◌, ltb,
  ◌==◌, length, if◌then◌else◌, Result, ok, err,
}
use streaming_video_app.Notification.Decode.{extend_head}
use streaming_video_app.Config.Parse.{is_space, is_space_pair, is_space_triple}
use streaming_video_app.Sfn.Arns.{
  SfnApiError, unavailable, eq_ignore_ascii_case, is_ecs_task_arn, text_ltb,
}

-- `serde_json::Value`, as far as the walk tells its variants apart, with an object's entries in the
-- order in which `serde_json` visits them.
mutual
  pub data Value : Type 0 where
    string : Text → Value
    array : Values → Value
    object : Entries → Value
    other : Value

  pub data Values : Type 0 where
    no_values : Values
    value : Value → Values → Values

  pub data Entries : Type 0 where
    no_entries : Entries
    entry : Text → Value → Entries → Entries

-- `BTreeSet::insert`
unfoldable pub insert : Text → List Text → List Text
unfolding text_ltb
insert arn [] = arn ∷ []
insert arn (x ∷ xs) =
    let rest = insert arn xs in
    if text_eq arn x then x ∷ xs else if text_ltb arn x then arn ∷ x ∷ xs else x ∷ rest

-- One of `"`, `'`, `,`, `\`, `[`, `]`, `{`, `}`, or white space in ASCII.
abbrev is_separator : ℕ → Bool
is_separator b =
    is_space b
    || (b == 34
        || (b == 39 || (b == 44 || (b == 92 || (b == 91 || (b == 93 || (b == 123 || b == 125)))))))

-- `str::split` on separators and on Unicode's white space.
unfoldable pub split_tokens : Text → List Text
split_tokens [] = [] ∷ []
split_tokens (b ∷ []) = if is_separator b then [] ∷ [] ∷ [] else (b ∷ []) ∷ []
split_tokens (b ∷ c ∷ []) =
    let rest = split_tokens (c ∷ []) in
    if is_separator b
    then [] ∷ rest
    else if is_space_pair b c
    then [] ∷ [] ∷ []
    else extend_head b rest
split_tokens (b ∷ c ∷ d ∷ s) =
    let rest = split_tokens (c ∷ d ∷ s) in
    let after_pair = split_tokens (d ∷ s) in
    let after_triple = split_tokens s in
    if is_separator b
    then [] ∷ rest
    else if is_space_pair b c
    then [] ∷ after_pair
    else if is_space_triple b c d
    then [] ∷ after_triple
    else extend_head b rest

abbrev pub insert_arn : Text → List Text → List Text
insert_arn token arns = if is_ecs_task_arn token then insert token arns else arns

unfoldable pub insert_arns : List Text → List Text → List Text
unfolding insert
insert_arns [] arns = arns
insert_arns (token ∷ tokens) arns = insert_arns tokens (insert_arn token arns)

unfoldable pub collect_ecs_task_arns_from_text : Text → List Text → List Text
unfolding insert_arns split_tokens
collect_ecs_task_arns_from_text raw arns = insert_arns (split_tokens raw) arns

-- The test that a member is the name of a task, which is then taken as a whole.
abbrev pub is_task_member : Text → Value → Bool
is_task_member key (string text) =
    eq_ignore_ascii_case key (codes "TaskArn") && is_ecs_task_arn text
is_task_member key _ = false

abbrev pub text_of : Value → Text
text_of (string text) = text
text_of _ = []

abbrev pub take_member : Bool → Text → List Text → List Text → List Text
take_member true text arns walked = insert text arns
take_member false text arns walked = walked

unfoldable mutual
  unfolding insert collect_ecs_task_arns_from_text

  pub walk_json : Value → List Text → List Text
  walk_json (string text) arns = collect_ecs_task_arns_from_text text arns
  walk_json (array items) arns = walk_values items arns
  walk_json (object entries) arns = walk_entries entries arns
  walk_json other arns = arns

  pub walk_values : Values → List Text → List Text
  walk_values no_values arns = arns
  walk_values (value item items) arns = walk_values items (walk_json item arns)

  pub walk_entries : Entries → List Text → List Text
  walk_entries no_entries arns = arns
  walk_entries (entry key item entries) arns =
      walk_entries entries
        (take_member (is_task_member key item) (text_of item) arns (walk_json item arns))

pub record HistoryTaskScan : Type 0 where
  pub arns : List Text
  pub saw_ecs_task : Bool

-- The details of an event: a resource type, and an output or a cause.
abbrev pub Details : Type 0
Details = Option (Text × Option Text)

pub record HistoryEvent : Type 0 where
  pub submitted : Details
  pub succeeded : Details
  pub scheduled : Details
  pub started : Details
  pub failed : Details
  pub timed_out : Details

abbrev pub collect_from : Text → List Text → Option Value → List Text
collect_from raw arns (some v) = walk_json v arns
collect_from raw arns none = collect_ecs_task_arns_from_text raw arns

module _ (from_str : Text → Option Value) where
  unfoldable pub collect_ecs_task_arns_from_json : Text → List Text → List Text
  unfolding walk_json collect_ecs_task_arns_from_text
  collect_ecs_task_arns_from_json raw arns = collect_from raw arns (from_str raw)

  abbrev pub take_output : Option Text → HistoryTaskScan → HistoryTaskScan
  take_output none scan = scan
  take_output (some output) scan =
      let arns' = collect_ecs_task_arns_from_json output scan.arns in
      record {
        arns = arns';
        saw_ecs_task = ltb (length scan.arns) (length arns') || scan.saw_ecs_task;
      }

  unfoldable pub take_ecs_output : Text → Option Text → HistoryTaskScan → HistoryTaskScan
  unfolding collect_ecs_task_arns_from_json eq_ignore_ascii_case
  take_ecs_output resource_type output scan = take_output output (record scan {
    saw_ecs_task = eq_ignore_ascii_case resource_type (codes "ecs") || scan.saw_ecs_task;
  })

  abbrev pub take_details : Details → HistoryTaskScan → HistoryTaskScan
  take_details none scan = scan
  take_details (some (resource_type, output)) scan = take_ecs_output resource_type output scan

  -- The same for an event whose output is not read.
  abbrev pub take_resource : Details → HistoryTaskScan → HistoryTaskScan
  take_resource none scan = scan
  take_resource (some (resource_type, output)) scan = take_ecs_output resource_type none scan

  unfoldable pub scan_history_event : HistoryEvent → HistoryTaskScan → HistoryTaskScan
  unfolding take_ecs_output
  scan_history_event event scan = take_details event.timed_out (
      take_details event.failed (
        take_resource event.started (
          take_resource event.scheduled
            (take_details event.succeeded (take_details event.submitted scan)))))

  unfoldable pub scan_events : List HistoryEvent → HistoryTaskScan → HistoryTaskScan
  unfolding scan_history_event
  scan_events [] scan = scan
  scan_events (event ∷ events) scan = scan_events events (scan_history_event event scan)

  abbrev pub finish : Bool → List Text → Result SfnApiError (List Text)
  finish true [] = err unavailable
  finish _ arns = ok arns

  unfoldable pub finish_history_task_scan : HistoryTaskScan → Result SfnApiError (List Text)
  finish_history_task_scan scan = finish scan.saw_ecs_task scan.arns

  -- The pages of a history, up to the one without a token for another.
  unfoldable pub scan_pages :
      List (Result SfnApiError (List HistoryEvent))
      → HistoryTaskScan
      → Result SfnApiError (List Text)
  unfolding scan_events finish_history_task_scan
  scan_pages [] scan = finish_history_task_scan scan
  scan_pages (err e ∷ pages) scan = err e
  scan_pages (ok events ∷ pages) scan = scan_pages pages (scan_events events scan)

  unfoldable pub child_task_arns :
      List (Result SfnApiError (List HistoryEvent)) → Result SfnApiError (List Text)
  unfolding scan_pages
  child_task_arns pages = scan_pages pages (record { arns = []; saw_ecs_task = false })
