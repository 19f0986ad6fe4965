-- ===== src/Attempt/Progress.antt =====
-- The order of publication (worker/src/publish.rs): segments in playlist order, the manifest last.
use streaming_video_app.Prelude.{
  Text, codes, ◌≡◌, ◌≢◌, ◌⊎◌, none, some, List, [], ◌∷◌, ◌++◌, Result, ok,
}
use streaming_video_app.Attempt.Effects.{PublishError, Call, wrote_object, World, Trace, Stop}
use streaming_video_app.Attempt.Publish.{file_name}

-- The keys that a trace asks to write, the newest first.
abbrev pub written : List Call → List Text
written [] = []
written (wrote_object bucket key content_type contents ∷ log) = key ∷ written log
written (_ ∷ log) = written log

-- `{prefix}/{filename}`
abbrev pub segment_key : Text → Text → Text
segment_key prefix segment = elim (file_name segment) [
  | none ↦ []
  | some filename ↦ prefix ++ (codes "/" ++ filename)
]

-- The keys of the segments, written in order on top of older ones.
abbrev pub push_keys : Text → List Text → List Text → List Text
push_keys prefix [] keys = keys
push_keys prefix (segment ∷ segments) keys =
    push_keys prefix segments (segment_key prefix segment ∷ keys)

-- How far the segments have been written: some of them, in order, and all if the loop succeeded.
abbrev pub IsPrefixWritten : Text → List Text → List Text → List Text → Type 0
IsPrefixWritten prefix [] keys keys' = keys' ≡ keys
IsPrefixWritten prefix (segment ∷ segments) keys keys' =
    (keys' ≡ keys) ⊎ IsPrefixWritten prefix segments (segment_key prefix segment ∷ keys) keys'

module _ (world : World) (bucket prefix : Text) where
  abbrev Outcome : Type 0
  Outcome = Result Stop (Result PublishError (Unit {0})) × Trace

  -- The keys after the loop over some segments, by how it ended.
  abbrev Published : List Text → List Text → Outcome → Type 0
  Published segments keys (r, t) =
      IsPrefixWritten prefix segments keys (written t.log)
      × (r ≡ ok (ok tt) → written t.log ≡ push_keys prefix segments keys)

  abbrev manifest_key : Text
  manifest_key = prefix ++ codes "/index.m3u8"

-- Where a publication with manifest key `prefix/index.m3u8` leaves the written keys: either the
-- manifest has not been written, the result is no success, and some segments, in playlist order,
-- have been; or every segment has been written in playlist order, and the manifest after them.
abbrev pub PublishedInOrder :
    Text → List Text → List Text → List Text → Result Stop (Result PublishError (Unit {0})) → Type 0
PublishedInOrder prefix segments keys keys' r =
    (IsPrefixWritten prefix segments keys keys' × (r ≢ ok (ok tt)))
    ⊎ (keys' ≡ (prefix ++ codes "/index.m3u8") ∷ push_keys prefix segments keys)
