-- ===== src/Notification.antt =====
-- Parsing of S3 notifications (app/backend/worker/crates/worker/src/event.rs). The JSON reader is
-- `serde_json`, a parameter.
pub mod Decode
pub mod Keys
pub mod Escapes
use streaming_video_app.Prelude.{
  ℕ, Text, codes, text_eq, Bool, true, false, not, ◌&&◌, ◌||◌, Option, none, some, List, [], ◌∷◌,
  map, if◌then◌else◌, Result, ok, err, ◌>>=◌, ok_or, length, ◌==◌,
}
use Decode.{form_decode, canonical_uuid, split, strip_prefix}

pub record WorkItem : Type 0 where
  pub bucket : Text
  pub key : Text
  pub video_id : Text
  pub job_id : Text

pub data ParsedRecord : Type 0 where
  work : WorkItem → ParsedRecord
  invalid : ParsedRecord

pub data EventParseError : Type 0 where
  invalid_json records_not_array : EventParseError

-- `serde_json`: a value type, the reader, and the accessors that the source calls.
pub record Json : Type 1 where
  pub Value : Type 0
  pub from_str : Text → Option Value
  pub get : Value → Text → Option Value
  pub as_str : Value → Option Text
  pub as_array : Value → Option (List Value)

-- `?` on an option
infixl 5 ◌>>?◌
abbrev pub ◌>>?◌ {ℓ κ} : {A : Type ℓ} {B : Type κ} → Option A → (A → Option B) → Option B
none >>? f = none
some a >>? f = f a

-- `if !test { return None }`
abbrev pub only_if {ℓ} : {A : Type ℓ} → Bool → Option A → Option A
only_if true o = o
only_if false o = none

-- `.ok()?`
abbrev pub ok_value {ℓ κ} : {E : Type ℓ} {A : Type κ} → Result E A → Option A
ok_value (ok a) = some a
ok_value (err e) = none

-- `!starts_with(…) || […].is_empty()`, negated
unfoldable pub is_object_created : Text → Bool
unfolding strip_prefix
is_object_created name = elim (strip_prefix (codes "ObjectCreated:") name) [
  | none ↦ false
  | some [] ↦ false
  | some (b ∷ rest) ↦ true
]

-- The item of a decoded key whose parts have the canonical shape.
unfoldable pub item_of_parts : Text → Text → List Text → Option WorkItem
item_of_parts bucket key (p0 ∷ p1 ∷ p2 ∷ p3 ∷ p4 ∷ []) =
    if text_eq p0 (codes "videos")
      && (text_eq p2 (codes "jobs")
          && (text_eq p4 (codes "source.mp4") && (canonical_uuid p1 && canonical_uuid p3)))
    then some (record { bucket = bucket; key = key; video_id = p1; job_id = p3 })
    else none
item_of_parts bucket key _ = none

unfoldable pub item_of_key : Text → Text → Option WorkItem
unfolding split item_of_parts
item_of_key bucket encoded_key =
    ok_value (form_decode encoded_key) >>? λ key. item_of_parts bucket key (split 47 key)

module _ (json : Json) where
  open json use {Value, from_str, get, as_str, as_array}

  -- `record.get("s3")?.get(…)?.get(…)?.as_str()?`
  abbrev pub s3_text : Value → Text → Text → Option Text
  s3_text entry object field =
      ((get entry (codes "s3") >>? λ s3. get s3 object) >>? λ o. get o field) >>? as_str

  abbrev pub item_in : Value → Text → Option WorkItem
  item_in entry bucket = s3_text entry (codes "object") (codes "key") >>? item_of_key bucket

  abbrev pub item_from : Value → Text → Text → Option WorkItem
  item_from entry configured_input_bucket bucket =
      only_if (text_eq bucket configured_input_bucket) (item_in entry bucket)

  abbrev pub item_for_event : Value → Text → Text → Option WorkItem
  item_for_event entry configured_input_bucket event_name =
      only_if (is_object_created event_name)
        (s3_text entry (codes "bucket") (codes "name") >>? item_from entry configured_input_bucket)

  unfoldable pub parse_record : Value → Text → Option WorkItem
  parse_record entry configured_input_bucket =
      (get entry (codes "eventName") >>? as_str) >>? item_for_event entry configured_input_bucket

  abbrev pub to_record : Option WorkItem → ParsedRecord
  to_record (some item) = work item
  to_record none = invalid

  unfoldable pub parse_notification_records :
      Text → Text → Result EventParseError (List ParsedRecord)
  unfolding parse_record
  parse_notification_records body configured_input_bucket = do
    event ← ok_or (from_str body) invalid_json
    entries ← ok_or (get event (codes "Records") >>? as_array) records_not_array
    ok (map (λ entry. to_record (parse_record entry configured_input_bucket)) entries)

  unfoldable pub work_items : List ParsedRecord → List WorkItem
  work_items [] = []
  work_items (work item ∷ records) = item ∷ work_items records
  work_items (invalid ∷ records) = work_items records

  unfoldable pub parse_notification : Text → Text → Result EventParseError (List WorkItem)
  unfolding parse_notification_records work_items
  parse_notification body configured_input_bucket = do
    records ← parse_notification_records body configured_input_bucket
    ok (work_items records)
