-- ===== src/Examples/Messages.antt =====
-- A notification with one record (worker/src/event.rs).
use streaming_video_app.Prelude.{
  true, false, ℕ, Text, codes, text_eq, ◌≡◌, refl, Option, none, some, List, [], ◌∷◌, ok, ◌==◌, All,
  if◌then◌else◌, arith,
}
use streaming_video_app.Prelude.Utf8.{is_utf8}
use streaming_video_app.Naming.{canonical_source_key}
use streaming_video_app.Notification.{
  Json, WorkItem, parse_record, parse_notification_records, item_of_key, item_of_parts,
  is_object_created,
}
use streaming_video_app.Notification.Decode.{
  form_decode, decode_bytes, canonical_uuid, uuid_bytes, is_lower_hex, split, strip_prefix,
}
use streaming_video_app.Notification.Keys.{
  IsCanonical, parse_record-IsCanonical, item_of_key-canonical_source_key,
}
use streaming_video_app.Notification.Escapes.{
  Spelled, plain, space, escape, form_encode, form_decode-form_encode,
}
use streaming_video_app.Persistence.Port.{cli}
use streaming_video_app.Persistence.Table.{up}
use streaming_video_app.Persistence.Schema.{IsChecked}
use streaming_video_app.Acquisition.Records.{
  LeaseAcquisitionProcessor, Database, acquire_notification,
}
use streaming_video_app.Acquisition.Dispositions.{AnswersMessage, acquire_notification-Answers}
use streaming_video_app.Examples.Table.{jobs, jobs-IsChecked}

abbrev pub uuid : Text
uuid = codes "01234567-89ab-cdef-0123-456789abcdef"

abbrev source_key : Text
source_key =
    codes
      "videos/01234567-89ab-cdef-0123-456789abcdef/jobs/01234567-89ab-cdef-0123-456789abcdef/source.mp4"

-- The fields of one record; 0 is the record, 7 the message and 8 its list of records.
unfoldable pub get_field : ℕ → Text → Option ℕ
unfolding text_eq
get_field value field =
    if text_eq field (codes "eventName")
    then some 1
    else if text_eq field (codes "s3")
    then some 2
    else if text_eq field (codes "bucket")
    then some 3
    else if text_eq field (codes "object")
    then some 4
    else if text_eq field (codes "name")
    then some 5
    else if text_eq field (codes "key")
    then some 6
    else if text_eq field (codes "Records")
    then some 8
    else none

unfoldable pub text_of : ℕ → Option Text
text_of value =
    if value == 1
    then some (codes "ObjectCreated:Put")
    else if value == 5
    then some (codes "in")
    else if value == 6
    then some source_key
    else none

unfoldable pub records_of : ℕ → Option (List ℕ)
records_of value = if value == 8 then some (0 ∷ []) else none

abbrev pub json : Json
json = record {
  Value = ℕ;
  from_str = λ body. some 7;
  get = get_field;
  as_str = text_of;
  as_array = records_of;
}

abbrev item : WorkItem
item = record { bucket = codes "in"; key = source_key; video_id = uuid; job_id = uuid }

parse_record-IsCanonical_example : IsCanonical (codes "in") item
unfolding parse_record get_field text_of text_eq item_of_key item_of_parts form_decode decode_bytes
    canonical_uuid uuid_bytes is_lower_hex split strip_prefix is_object_created is_utf8
parse_record-IsCanonical_example = parse_record-IsCanonical json 0 (codes "in") item refl

item_of_key-canonical_source_key_example :
    item_of_key (codes "in") (canonical_source_key uuid uuid)
    ≡ some (record {
      bucket = codes "in";
      key = canonical_source_key uuid uuid;
      video_id = uuid;
      job_id = uuid;
    })
unfolding canonical_uuid uuid_bytes is_lower_hex
item_of_key-canonical_source_key_example =
    item_of_key-canonical_source_key (codes "in") uuid uuid refl refl

-- A key with two spaces, of which one is at its end, and escapes of both cases.
abbrev sent : List Spelled
sent =
    plain 97
    ∷ space
    ∷ plain 98
    ∷ escape 43 false false
    ∷ plain 99
    ∷ escape 45 false true
    ∷ escape 195 false false
    ∷ escape 169 true false
    ∷ space
    ∷ []

form_decode-form_encode_example :
    form_decode (form_encode sent) ≡ ok (97 ∷ 32 ∷ 98 ∷ 43 ∷ 99 ∷ 45 ∷ 195 ∷ 169 ∷ 32 ∷ [])
unfolding is_utf8
form_decode-form_encode_example = form_decode-form_encode sent (
  (λ e. omega (arith, e)),
  (
    (λ e. omega (arith, e)),
    (
      (λ e. omega (arith, e)),
      (
        (λ e. omega (arith, e)),
        (
          omega arith,
          (
            (λ e. omega (arith, e)),
            ((λ e. omega (arith, e)), (omega arith, (omega arith, (omega arith, tt)))),
          ),
        ),
      ),
    ),
  ),
)

abbrev pub processor : LeaseAcquisitionProcessor
processor = record {
  input_bucket = codes "in";
  worker_id = codes "w";
  lease_seconds = 30;
  max_attempts = 3;
  mode = cli;
}

abbrev pub database : Database
database = record {
  on_claim = λ i. up;
  on_acquire = λ i. up;
  claimed_at = λ i. 50;
  acquired_at = λ i. 51;
}

acquire_notification-Answers_example :
    AnswersMessage
      (codes "w")
      (parse_notification_records json [] (codes "in"))
      (acquire_notification processor database json [] jobs).0
    × All IsChecked (acquire_notification processor database json [] jobs).1
acquire_notification-Answers_example =
    acquire_notification-Answers processor database json [] jobs jobs-IsChecked
