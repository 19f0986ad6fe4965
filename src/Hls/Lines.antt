-- ===== src/Hls/Lines.antt =====
-- Rust's `str` operations on playlists, and the names of segments.
use streaming_video_app.Prelude.{
  ℕ, ◌-◌, zero, suc, Text, codes, decimal, text_eq, Bool, true, false, ◌&&◌, ◌||◌, Option, none,
  some, List, [], ◌∷◌, ◌++◌, length, leb, ◌==◌, if◌then◌else◌,
}
use streaming_video_app.Notification.Decode.{split, strip_prefix, extend_head}
use streaming_video_app.Config.Parse.{reverse, contains, is_digit}

-- `str::lines`
unfoldable pub lines : Text → List Text
lines [] = []
lines (b ∷ []) = if b == 10 then [] ∷ [] else (b ∷ []) ∷ []
lines (b ∷ c ∷ s) =
    let rest = lines (c ∷ s) in
    if b == 10 then [] ∷ rest else if b == 13 && c == 10 then rest else extend_head b rest

unfoldable pub starts_with : Text → Text → Bool
starts_with [] s = true
starts_with (b ∷ pattern) [] = false
starts_with (b ∷ pattern) (c ∷ s) = b == c && starts_with pattern s

abbrev strip_reversed : Text → Option Text → Option Text
strip_reversed s none = none
strip_reversed s (some rest) = some (reverse rest)

-- `str::strip_suffix`
unfoldable pub strip_suffix : Text → Text → Option Text
unfolding strip_prefix reverse
strip_suffix pattern s = strip_reversed s (strip_prefix (reverse pattern) (reverse s))

abbrev zeros : ℕ → Text
zeros zero = []
zeros (suc n) = 48 ∷ zeros n

-- `{n:05}`
unfoldable pub five_digits : ℕ → Text
unfolding decimal
five_digits n = zeros (5 - length (decimal n)) ++ decimal n

unfoldable pub segment_name : ℕ → Text
unfolding five_digits
segment_name n = codes "segment-" ++ (five_digits n ++ codes ".ts")

abbrev all_digits : Text → Bool
all_digits [] = true
all_digits (b ∷ s) = is_digit b && all_digits s

abbrev is_number : Option Text → Bool
is_number none = false
is_number (some number) = length number == 5 && all_digits number

abbrev strip_ts : Option Text → Option Text
strip_ts none = none
strip_ts (some rest) = strip_suffix (codes ".ts") rest

unfoldable pub is_segment_filename : Text → Bool
unfolding strip_prefix strip_suffix
is_segment_filename reference = is_number (strip_ts (strip_prefix (codes "segment-") reference))

abbrev to_upper : ℕ → ℕ
to_upper b = if leb 97 b && leb b 122 then b - 32 else b

unfoldable pub to_ascii_uppercase : Text → Text
to_ascii_uppercase [] = []
to_ascii_uppercase (b ∷ s) = to_upper b ∷ to_ascii_uppercase s

unfoldable pub tag_has_uri_attribute : Text → Bool
unfolding to_ascii_uppercase contains
tag_has_uri_attribute tag = contains (codes "URI=") (to_ascii_uppercase tag)

-- `Component::ParentDir` or `Component::RootDir` among the components; there is no
-- `Component::Prefix` in a path of the worker's platforms.
abbrev has_parent : List Text → Bool
has_parent [] = false
has_parent (part ∷ parts) = text_eq part (codes "..") || has_parent parts

unfoldable pub is_unsafe_path : Text → Bool
unfolding starts_with contains split
is_unsafe_path reference =
    starts_with (codes "/") reference
    || (contains (codes "://") reference || has_parent (split 47 reference))

abbrev pub join : Text → Text → Text
join [] path = path
join (b ∷ directory) path =
    if ends_with_slash (b ∷ directory)
    then (b ∷ directory) ++ path
    else (b ∷ directory) ++ (47 ∷ path)
  where
    ends_with_slash : Text → Bool
    ends_with_slash [] = false
    ends_with_slash (c ∷ []) = c == 47
    ends_with_slash (c ∷ d ∷ s) = ends_with_slash (d ∷ s)

-- A path's components, but for its root and for `.`.
abbrev real_parts : List Text → List Text
real_parts [] = []
real_parts (part ∷ parts) =
    let rest = real_parts parts in
    if text_eq part [] || text_eq part (codes ".") then rest else part ∷ rest

abbrev parts_start_with : List Text → List Text → Bool
parts_start_with [] parts = true
parts_start_with (p ∷ ps) [] = false
parts_start_with (p ∷ ps) (q ∷ qs) = text_eq p q && parts_start_with ps qs

-- `Path::starts_with`, of absolute paths.
unfoldable pub path_starts_with : Text → Text → Bool
unfolding split
path_starts_with root file =
    parts_start_with (real_parts (split 47 root)) (real_parts (split 47 file))
