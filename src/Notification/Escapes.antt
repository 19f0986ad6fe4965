-- ===== src/Notification/Escapes.antt =====
-- `form_decode` (worker/src/event.rs) undoes the escaping of keys in notifications: a sender may
-- write any byte as `%` and two hexadecimal digits of either case, a space as `+`, and any byte but
-- `+` and `%` as itself.
use streaming_video_app.Prelude.{
  ℕ, ◌+◌, ◌/◌, ◌%◌, ◌<◌, Text, ◌≡◌, refl, Bool, List, [], ◌∷◌, ltb, if◌then◌else◌, ok, err, arith,
}
use streaming_video_app.Prelude.Utf8.{is_utf8}
use streaming_video_app.Notification.Decode.{hex_digit, decode_bytes, form_decode}

-- A hexadecimal digit, in lower case if so asked.
hex_char : Bool → ℕ → ℕ
hex_char lower n = if ltb n 10 then 48 + n else if lower then 87 + n else 55 + n

hex_digit-hex_char : (lower : Bool) (n : ℕ) → n < 16 → hex_digit (hex_char lower n) ≡ ok n
unfolding hex_digit hex_char
hex_digit-hex_char lower n h = ground arith

-- How a sender writes one byte: an escape says for each digit whether it is in lower case.
pub data Spelled : Type 0 where
  plain : ℕ → Spelled
  space : Spelled
  escape : ℕ → Bool → Bool → Spelled

-- The bytes that are meant.
abbrev pub bytes_of : List Spelled → Text
bytes_of [] = []
bytes_of (plain b ∷ s) = b ∷ bytes_of s
bytes_of (space ∷ s) = 32 ∷ bytes_of s
bytes_of (escape b high low ∷ s) = b ∷ bytes_of s

-- The bytes that are sent.
unfoldable pub form_encode : List Spelled → Text
unfolding hex_char
form_encode [] = []
form_encode (plain b ∷ s) = b ∷ form_encode s
form_encode (space ∷ s) = 43 ∷ form_encode s
form_encode (escape b high low ∷ s) =
    37 ∷ hex_char high (b / 16) ∷ hex_char low (b % 16) ∷ form_encode s

-- Only bytes are escaped, and `+` and `%` are not written as themselves.
abbrev pub AreSpelled : List Spelled → Type 0
AreSpelled [] = Unit
AreSpelled (plain b ∷ s) = (b ≡ 43 → ⊥) × ((b ≡ 37 → ⊥) × AreSpelled s)
AreSpelled (space ∷ s) = AreSpelled s
AreSpelled (escape b high low ∷ s) = (b < 256) × AreSpelled s

decode_bytes_keep :
    (b : ℕ) (s t : Text)
    → (b ≡ 43 → ⊥)
    → (b ≡ 37 → ⊥)
    → decode_bytes s ≡ ok t
    → decode_bytes (b ∷ s) ≡ ok (b ∷ t)
unfolding decode_bytes
decode_bytes_keep b [] t p q e = ground arith
decode_bytes_keep b (c ∷ []) t p q e = ground arith
decode_bytes_keep b (c ∷ d ∷ s) t p q e = ground arith

decode_bytes_space : (s t : Text) → decode_bytes s ≡ ok t → decode_bytes (43 ∷ s) ≡ ok (32 ∷ t)
unfolding decode_bytes
decode_bytes_space [] t e = ground arith
decode_bytes_space (c ∷ []) t e = ground arith
decode_bytes_space (c ∷ d ∷ s) t e = ground arith

decode_bytes_escape :
    (b : ℕ) (high low : Bool) (s t : Text)
    → b < 256
    → decode_bytes s ≡ ok t
    → decode_bytes (37 ∷ hex_char high (b / 16) ∷ hex_char low (b % 16) ∷ s) ≡ ok (b ∷ t)
unfolding decode_bytes
decode_bytes_escape b high low s t h e =
    rw (hex_digit-hex_char high (b / 16) (omega arith))
      (rw (hex_digit-hex_char low (b % 16) (omega arith)) (rw e (ground arith)))

decode_bytes-form_encode :
    (s : List Spelled) → AreSpelled s → decode_bytes (form_encode s) ≡ ok (bytes_of s)
unfolding form_encode
decode_bytes-form_encode [] h = unfold decode_bytes in refl
decode_bytes-form_encode (plain b ∷ s) h =
    decode_bytes_keep b (form_encode s) (bytes_of s) h.0 h.1.0 (decode_bytes-form_encode s h.1.1)
decode_bytes-form_encode (space ∷ s) h =
    decode_bytes_space (form_encode s) (bytes_of s) (decode_bytes-form_encode s h)
decode_bytes-form_encode (escape b high low ∷ s) h =
    decode_bytes_escape b high low (form_encode s) (bytes_of s) h.0 (decode_bytes-form_encode s h.1)

-- However a sender writes a key, each byte as itself unless it is `+` or `%`, a space as `+`, or any
-- byte as `%` and two hexadecimal digits of either case, the bytes that are meant come back, and the
-- decoded key is accepted exactly if they are UTF-8.
pub form_decode-form_encode :
    (s : List Spelled)
    → AreSpelled s
    → form_decode (form_encode s) ≡ (if is_utf8 (bytes_of s) then ok (bytes_of s) else err tt)
unfolding form_decode
form_decode-form_encode s h = rw (decode_bytes-form_encode s h)
