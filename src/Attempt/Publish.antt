-- ===== src/Attempt/Publish.antt =====
-- Publication of a validated rendition (worker/src/publish.rs).
use streaming_video_app.Prelude.{
  Text, codes, text_eq, Bool, not, ◌&&◌, Option, none, some, List, [], ◌∷◌, ◌++◌, Result, ok, err,
  if◌then◌else◌,
}
use streaming_video_app.Prelude.Utf8.{is_utf8}
use streaming_video_app.Notification.Decode.{split}
use streaming_video_app.Attempt.Effects.{
  HlsOutput, PublishError, filesystem, storage, invalid_segment_path, read_file, wrote_object,
  World, M, pure, ◌>>=◌, ◌>>!◌, timed_await, check_lost,
}

abbrev pub hls_playlist_content_type : Text
hls_playlist_content_type = codes "application/vnd.apple.mpegurl"

abbrev pub hls_segment_content_type : Text
hls_segment_content_type = codes "video/mp2t"

-- The components of a path that name something.
abbrev is_component : Text → Bool
is_component part = not (text_eq part []) && not (text_eq part (codes "."))

last_component : List Text → Option Text
last_component [] = none
last_component (part ∷ parts) = elim (last_component parts) [
  | some later ↦ some later
  | none ↦ if is_component part then some part else none
]

-- `segment.file_name().and_then(|name| name.to_str())`
unfoldable pub file_name : Text → Option Text
unfolding last_component
file_name path = elim (last_component (split 47 path)) [
  | none ↦ none
  | some name ↦ if text_eq name (codes "..") then none else if is_utf8 name then some name else none
]

abbrev pub hls_prefix : Text → Text → Text
hls_prefix video_id job_id =
    codes "videos/" ++ (video_id ++ (codes "/jobs/" ++ (job_id ++ codes "/hls")))

-- `map_err` of a port's error.
abbrev pub fails_with : {A : Type 0} → (Text → PublishError) → Result Text A → Result PublishError A
fails_with f (ok a) = ok a
fails_with f (err e) = err (f e)

module _ (world : World) (output_bucket prefix : Text) where
  -- `if !owned() { return Err(OwnershipLost) }`, then the write.
  unfoldable pub guarded_write : Text → Text → Text → M (Result PublishError (Unit {0}))
  guarded_write key content_type contents = do
    gone ← check_lost world
    if gone
        then pure (err PublishError.ownership_lost)
        else timed_await world (λ n. fails_with storage (world.write n))
            (wrote_object output_bucket key content_type contents)

  abbrev pub read_contents : Text → M (Result PublishError Text)
  read_contents path =
      timed_await world (λ n. fails_with filesystem (world.read n)) (read_file path)

  unfoldable pub publish_segment : Text → M (Result PublishError (Unit {0}))
  unfolding guarded_write
  publish_segment segment = elim (file_name segment) [
    | none ↦ pure (err invalid_segment_path)
    | some filename ↦
        read_contents segment
        >>! guarded_write (prefix ++ (codes "/" ++ filename)) hls_segment_content_type
  ]

  unfoldable pub publish_segments : List Text → M (Result PublishError (Unit {0}))
  unfolding publish_segment
  publish_segments [] = pure (ok tt)
  publish_segments (segment ∷ segments) = publish_segment segment >>! λ _. publish_segments segments

  unfoldable pub publish_playlist : Text → M (Result PublishError (Unit {0}))
  unfolding guarded_write
  publish_playlist playlist =
      read_contents playlist
      >>! guarded_write (prefix ++ codes "/index.m3u8") hls_playlist_content_type

unfoldable pub publish_hls_with_checkpoint :
    World → Text → Text → Text → HlsOutput → M (Result PublishError (Unit {0}))
unfolding publish_segments publish_playlist
publish_hls_with_checkpoint world output_bucket video_id job_id output =
    let prefix = hls_prefix video_id job_id in
    publish_segments world output_bucket prefix output.segments >>! λ _.
    publish_playlist world output_bucket prefix output.playlist
