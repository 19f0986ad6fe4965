-- ===== src/Queue.antt =====
-- The message queue (app/backend/worker/crates/queue/src/lib.rs, queue/src/sqs.rs). The SDK is a
-- parameter; instants are milliseconds.
use streaming_video_app.Prelude.{
  ℕ, ◌+◌, ◌*◌, ◌≤◌, ◌<◌, ◌≡◌, refl, Text, codes, Bool, true, false, not, ◌&&◌, ◌||◌, Option, none,
  some, List, [], ◌∷◌, length, leb, ltb, ◌==◌, if◌then◌else◌, Result, ok, ◌>>=◌, ensure, ok_or,
  OnOk, OnOk-bind, OnOk-test, OnOk-at, OnOk-trivial, arith,
}
use streaming_video_app.Config.Parse.{is_empty, is_digit, is_lowercase, parse_unsigned, u32_max}

pub record Message : Type 0 where
  pub message_id : Option Text
  pub delivery_id : Text
  pub receipt_handle : Text
  pub body : Text
  pub receive_count : ℕ
  pub visibility_deadline : Option ℕ
  pub receive_started_at : Option ℕ

-- The SDK's message, with its approximate receive count.
pub record AwsMessage : Type 0 where
  pub aws_message_id : Option Text
  pub aws_receipt_handle : Option Text
  pub aws_body : Option Text
  pub approximate_receive_count : Option Text

abbrev pub max_visibility_timeout_secs : ℕ
max_visibility_timeout_secs = 43200

abbrev is_id_byte : ℕ → Bool
is_id_byte b = is_digit b || (is_lowercase b || ((leb 65 b && leb b 90) || b == 45))

abbrev are_id_bytes : Text → Bool
are_id_bytes [] = true
are_id_bytes (b ∷ s) = is_id_byte b && are_id_bytes s

-- What a delivery's span may show.
unfoldable pub is_message_id : Text → Bool
is_message_id id = not (is_empty id) && (leb (length id) 128 && are_id_bytes id)

unfoldable pub filter_id : Option Text → Option Text
unfolding is_message_id
filter_id none = none
filter_id (some id) = if is_message_id id then some id else none

abbrev pub filter_handle : Option Text → Option Text
filter_handle none = none
filter_handle (some []) = none
filter_handle (some (b ∷ s)) = some (b ∷ s)

abbrev pub or_empty : Option Text → Text
or_empty none = []
or_empty (some text) = text

unfoldable pub parse_count : Text → Option ℕ
unfolding parse_unsigned
parse_count text = parse_unsigned u32_max text

unfoldable pub normalize_received_message : AwsMessage → Result Text Message
unfolding filter_id
normalize_received_message message = do
  handle ←
      ok_or (filter_handle message.aws_receipt_handle) (codes "received message has no receipt")
  text ← ok_or message.approximate_receive_count (codes "received message has no delivery count")
  count ← ok_or (parse_count text) (codes "received message has invalid delivery count")
  _ ← ensure (ltb 0 count) (codes "received message has invalid delivery count")
  ok (record {
    message_id = filter_id message.aws_message_id;
    delivery_id = [];
    receipt_handle = handle;
    body = or_empty message.aws_body;
    receive_count = count;
    visibility_deadline = none;
    receive_started_at = none;
  })

-- `AwsSqsApi::receive`: the first message, if there is one.
unfoldable pub first_message : List AwsMessage → Result Text (Option Message)
unfolding normalize_received_message
first_message [] = ok none
first_message (message ∷ rest) = do normal ← normalize_received_message message; ok (some normal)

abbrev pub stamp : ℕ → ℕ → Option Message → Option Message
stamp started_at seconds none = none
stamp started_at seconds (some message) = some (record message {
  receive_started_at = some started_at;
  visibility_deadline = some (started_at + seconds * 1000);
})

abbrev pub check_seconds : ℕ → Result Text (Unit {0})
check_seconds seconds =
    ensure (not (seconds == 0 || ltb max_visibility_timeout_secs seconds))
      (codes "queue visibility timeout is invalid")

-- The timeout that the service answers, the instant before the request, and the messages for a
-- request with the timeout.
unfoldable pub receive :
    Result Text ℕ → ℕ → (ℕ → Result Text (List AwsMessage)) → Result Text (Option Message)
unfolding first_message
receive visibility_timeout started_at request = do
  seconds ← visibility_timeout
  _ ← check_seconds seconds
  messages ← request seconds
  message ← first_message messages
  ok (stamp started_at seconds message)

-- A duration is seconds and nanoseconds; the request that the service is asked.
unfoldable pub change_visibility :
    Text → ℕ → ℕ → (Text → ℕ → Result Text (Unit {0})) → Result Text (Unit {0})
change_visibility receipt_handle seconds nanoseconds request = do
  _ ←
      ensure
        (not (
          is_empty receipt_handle
          || (ltb max_visibility_timeout_secs seconds || not (nanoseconds == 0))))
        (codes "invalid visibility request")
  request receipt_handle seconds

-- A message with a receipt and a count, and with the deadline that its timeout sets after the
-- instant before the request.
abbrev pub IsReceived : ℕ → Option Message → Type 0
IsReceived started_at none = Unit
IsReceived started_at (some message) =
    (is_empty message.receipt_handle ≡ false)
    × (0 < message.receive_count)
    × (message.receive_started_at ≡ some started_at)
    × ((seconds : ℕ) × (0 < seconds)
        × (seconds ≤ max_visibility_timeout_secs)
        × (message.visibility_deadline ≡ some (started_at + seconds * 1000)))

abbrev IsNormal : Message → Type 0
IsNormal message = (is_empty message.receipt_handle ≡ false) × (0 < message.receive_count)

filter_handle-ne :
    (o : Option Text) (reason : Text)
    → OnOk (λ handle. is_empty handle ≡ false) (ok_or (filter_handle o) reason)
filter_handle-ne none reason = tt
filter_handle-ne (some []) reason = tt
filter_handle-ne (some (b ∷ s)) reason = refl

normalize-IsNormal : (message : AwsMessage) → OnOk IsNormal (normalize_received_message message)
unfolding normalize_received_message
normalize-IsNormal message =
    OnOk-bind (λ handle. is_empty handle ≡ false) IsNormal
      (ok_or (filter_handle message.aws_receipt_handle) (codes "received message has no receipt")) _
      (filter_handle-ne message.aws_receipt_handle _)
      (λ handle named.
        OnOk-bind (λ _. Unit {0}) IsNormal
          (ok_or message.approximate_receive_count (codes "received message has no delivery count"))
          _ (OnOk-trivial _)
          (λ text _.
            OnOk-bind (λ _. Unit {0}) IsNormal
              (ok_or (parse_count text) (codes "received message has invalid delivery count")) _
              (OnOk-trivial _)
              (λ count _.
                OnOk-test IsNormal (ltb 0 count)
                  (codes "received message has invalid delivery count") _
                  (λ counted. (named, positive count counted)))))
  where
    positive : (n : ℕ) → ltb 0 n ≡ true → 0 < n
    positive n e = ground arith

abbrev AreNormal : Option Message → Type 0
AreNormal none = Unit
AreNormal (some message) = IsNormal message

first_message-AreNormal : (messages : List AwsMessage) → OnOk AreNormal (first_message messages)
unfolding first_message
first_message-AreNormal [] = tt
first_message-AreNormal (message ∷ rest) =
    OnOk-bind IsNormal AreNormal (normalize_received_message message) _ (normalize-IsNormal message)
      (λ normal h. h)

stamp-IsReceived :
    (started_at seconds : ℕ) (o : Option Message)
    → 0 < seconds
    → seconds ≤ max_visibility_timeout_secs
    → AreNormal o
    → IsReceived started_at (stamp started_at seconds o)
stamp-IsReceived started_at seconds none positive bounded h = tt
stamp-IsReceived started_at seconds (some message) positive bounded h =
    (h.0, h.1, refl, (seconds, positive, bounded, refl))

receive-checked :
    (visibility_timeout : Result Text ℕ) (started_at : ℕ)
    (request : ℕ → Result Text (List AwsMessage))
    → OnOk (IsReceived started_at) (receive visibility_timeout started_at request)
unfolding receive
receive-checked visibility_timeout started_at request =
    OnOk-bind (λ _. Unit {0}) (IsReceived started_at) visibility_timeout _
      (OnOk-trivial visibility_timeout)
      (λ seconds _.
        OnOk-test (IsReceived started_at)
          (not (seconds == 0 || ltb max_visibility_timeout_secs seconds))
          (codes "queue visibility timeout is invalid") _
          (λ valid.
            OnOk-bind (λ _. Unit {0}) (IsReceived started_at) (request seconds) _
              (OnOk-trivial (request seconds))
              (λ messages _.
                OnOk-bind AreNormal (IsReceived started_at) (first_message messages) _
                  (first_message-AreNormal messages)
                  (λ o h.
                    stamp-IsReceived started_at seconds o (within seconds valid).0
                      (within seconds valid).1 h))))
  where
    within :
        (seconds : ℕ)
        → not (seconds == 0 || ltb max_visibility_timeout_secs seconds) ≡ true
        → (0 < seconds) × (seconds ≤ max_visibility_timeout_secs)
    within seconds e = ground arith

-- Whatever the service answers, a message that is received has a receipt and a positive count, and
-- its deadline is the instant before the request and a timeout of one second to twelve hours.
pub receive-IsReceived :
    (visibility_timeout : Result Text ℕ) (started_at : ℕ)
    (request : ℕ → Result Text (List AwsMessage)) (received : Option Message)
    → receive visibility_timeout started_at request ≡ ok received
    → IsReceived started_at received
receive-IsReceived visibility_timeout started_at request received e =
    OnOk-at (IsReceived started_at) (receive visibility_timeout started_at request) received e
      (receive-checked visibility_timeout started_at request)
