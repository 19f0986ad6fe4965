-- ===== src/Notification/Decode.antt =====
-- Byte-level decoding of an S3 object key (worker/src/event.rs).
use streaming_video_app.Prelude.{
  ℕ, suc, ◌+◌, ◌-◌, ◌*◌, Text, Bool, true, ◌&&◌, ◌||◌, Option, none, some, List, [], ◌∷◌, leb, ◌==◌,
  if◌then◌else◌, Result, ok, err, ◌>>=◌, length,
}
use streaming_video_app.Prelude.Utf8.{is_utf8}

-- `Err(())` is `err tt`.
unfoldable pub hex_digit : ℕ → Result (Unit {0}) ℕ
hex_digit byte =
    if leb 48 byte && leb byte 57
    then ok (byte - 48)
    else if leb 97 byte && leb byte 102
    then ok (byte - 97 + 10)
    else if leb 65 byte && leb byte 70
    then ok (byte - 65 + 10)
    else err tt

abbrev prepend : ℕ → Result (Unit {0}) Text → Result (Unit {0}) Text
prepend byte (ok rest) = ok (byte ∷ rest)
prepend byte (err e) = err e

-- `high << 4 | low`
abbrev percent_byte :
    Result (Unit {0}) ℕ → Result (Unit {0}) ℕ → Result (Unit {0}) Text → Result (Unit {0}) Text
percent_byte (ok high) (ok low) rest = prepend (high * 16 + low) rest
percent_byte _ _ rest = err tt

-- The loop of `form_decode` over the bytes that are left.
unfoldable pub decode_bytes : Text → Result (Unit {0}) Text
unfolding hex_digit
decode_bytes [] = ok []
decode_bytes (b ∷ []) = if b == 43 then ok (32 ∷ []) else if b == 37 then err tt else ok (b ∷ [])
decode_bytes (b ∷ c ∷ []) =
    let rest = decode_bytes (c ∷ []) in
    if b == 43 then prepend 32 rest else if b == 37 then err tt else prepend b rest
decode_bytes (b ∷ c ∷ d ∷ s) =
    let rest = decode_bytes (c ∷ d ∷ s) in
    let after_code = decode_bytes s in
    if b == 43
    then prepend 32 rest
    else if b == 37
    then percent_byte (hex_digit c) (hex_digit d) after_code
    else prepend b rest

abbrev check_utf8 : Text → Result (Unit {0}) Text
check_utf8 s = if is_utf8 s then ok s else err tt

unfoldable pub form_decode : Text → Result (Unit {0}) Text
unfolding decode_bytes
form_decode value = decode_bytes value >>= check_utf8

abbrev is_dash_index : ℕ → Bool
is_dash_index index = index == 8 || (index == 13 || (index == 18 || index == 23))

-- A byte of a lowercase hexadecimal digit.
unfoldable pub is_lower_hex : ℕ → Bool
is_lower_hex byte = (leb 48 byte && leb byte 57) || (leb 97 byte && leb byte 102)

unfoldable pub uuid_bytes : ℕ → Text → Bool
unfolding is_lower_hex
uuid_bytes index [] = true
uuid_bytes index (byte ∷ rest) =
    (if is_dash_index index then byte == 45 else is_lower_hex byte) && uuid_bytes (suc index) rest

unfoldable pub canonical_uuid : Text → Bool
unfolding uuid_bytes
canonical_uuid value = length value == 36 && uuid_bytes 0 value

-- `str::split` on one byte
abbrev pub extend_head : ℕ → List Text → List Text
extend_head b [] = (b ∷ []) ∷ []
extend_head b (part ∷ parts) = (b ∷ part) ∷ parts

unfoldable pub split : ℕ → Text → List Text
split c [] = [] ∷ []
split c (b ∷ s) = let rest = split c s in if b == c then [] ∷ rest else extend_head b rest

-- `str::strip_prefix`
unfoldable pub strip_prefix : Text → Text → Option Text
strip_prefix [] s = some s
strip_prefix (p ∷ ps) [] = none
strip_prefix (p ∷ ps) (b ∷ s) = let rest = strip_prefix ps s in if p == b then rest else none
