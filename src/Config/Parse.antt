-- ===== src/Config/Parse.antt =====
-- Rust's `str` operations that read an environment variable: `trim`, unsigned parsing, searches,
-- and IPv4 addresses, over the bytes of the text.
use streaming_video_app.Prelude.{
  ℕ, ◌+◌, ◌-◌, ◌*◌, Text, Bool, true, false, not, ◌&&◌, ◌||◌, Option, none, some, List, [], ◌∷◌,
  ◌++◌, leb, ◌==◌, if◌then◌else◌, length,
}
use streaming_video_app.Notification.Decode.{split, strip_prefix}

-- The characters of Unicode's White_Space property, by the length of their encoding.
abbrev pub is_space : ℕ → Bool
is_space b = (leb 9 b && leb b 13) || b == 32

abbrev pub is_space_pair : ℕ → ℕ → Bool
is_space_pair b c = b == 194 && (c == 133 || c == 160)

abbrev pub is_space_triple : ℕ → ℕ → ℕ → Bool
is_space_triple b c d =
    (b == 225 && (c == 154 && d == 128))
    || ((b == 226
          && (c == 128 && ((leb 128 d && leb d 138) || (d == 168 || (d == 169 || d == 175)))))
        || ((b == 226 && (c == 129 && d == 159)) || (b == 227 && (c == 128 && d == 128))))

-- `trim_start`, for characters that the two tests recognise.
unfoldable pub trim_front : (ℕ → ℕ → Bool) → (ℕ → ℕ → ℕ → Bool) → Text → Text
trim_front pair triple [] = []
trim_front pair triple (b ∷ []) = if is_space b then [] else b ∷ []
trim_front pair triple (b ∷ c ∷ []) =
    let rest = trim_front pair triple (c ∷ []) in
    if is_space b then rest else if pair b c then [] else b ∷ c ∷ []
trim_front pair triple (b ∷ c ∷ d ∷ s) =
    let rest = trim_front pair triple (c ∷ d ∷ s) in
    let after_pair = trim_front pair triple (d ∷ s) in
    let after_triple = trim_front pair triple s in
    if is_space b
    then rest
    else if pair b c
    then after_pair
    else if triple b c d
    then after_triple
    else b ∷ c ∷ d ∷ s

unfoldable pub reverse : Text → Text
reverse [] = []
reverse (b ∷ s) = reverse s ++ (b ∷ [])

-- `str::trim`
unfoldable pub trim : Text → Text
unfolding trim_front reverse
trim s = reverse (
    trim_front (λ c b. is_space_pair b c) (λ d c b. is_space_triple b c d)
      (reverse (trim_front is_space_pair is_space_triple s)))

abbrev pub is_empty : Text → Bool
is_empty [] = true
is_empty (b ∷ s) = false

abbrev pub is_digit : ℕ → Bool
is_digit b = leb 48 b && leb b 57

abbrev pub is_lowercase : ℕ → Bool
is_lowercase b = leb 97 b && leb b 122

-- The digits of a number that must not exceed `bound`.
unfoldable pub parse_digits : ℕ → ℕ → Text → Option ℕ
parse_digits bound acc [] = some acc
parse_digits bound acc (b ∷ s) =
    let rest = parse_digits bound (acc * 10 + (b - 48)) s in
    if is_digit b && leb (acc * 10 + (b - 48)) bound then rest else none

-- `parse::<u32>()` and `parse::<u64>()`, by their largest values.
unfoldable pub parse_unsigned : ℕ → Text → Option ℕ
unfolding parse_digits
parse_unsigned bound [] = none
parse_unsigned bound (b ∷ []) = parse_digits bound 0 (b ∷ [])
parse_unsigned bound (b ∷ c ∷ s) =
    if b == 43 then parse_digits bound 0 (c ∷ s) else parse_digits bound 0 (b ∷ c ∷ s)

abbrev pub u32_max : ℕ
u32_max = 4294967295

abbrev pub u64_max : ℕ
u64_max = 18446744073709551615

abbrev is_some_text : Option Text → Bool
is_some_text none = false
is_some_text (some s) = true

-- `str::contains`
unfoldable pub contains : Text → Text → Bool
unfolding strip_prefix
contains pattern [] = is_some_text (strip_prefix pattern [])
contains pattern (b ∷ s) = is_some_text (strip_prefix pattern (b ∷ s)) || contains pattern s

abbrev split_further : ℕ → ℕ → Text → Option (Text × Text) → Option (Text × Text)
split_further c b s (some (before, after)) = some (b ∷ before, after)
split_further c b s none = if b == c then some ([], s) else none

-- `rsplit_once` on one byte
unfoldable pub rsplit_once : ℕ → Text → Option (Text × Text)
rsplit_once c [] = none
rsplit_once c (b ∷ s) = split_further c b s (rsplit_once c s)

abbrev is_octet : Text → Bool
is_octet [] = false
is_octet (b ∷ []) = is_digit b
is_octet (b ∷ s) =
    not (b == 48)
    && (leb (length s) 2 && elim (parse_digits 255 0 (b ∷ s)) [ none ↦ false | some n ↦ true ])

abbrev are_octets : List Text → Bool
are_octets (a ∷ b ∷ c ∷ d ∷ []) = is_octet a && (is_octet b && (is_octet c && is_octet d))
are_octets _ = false

-- `parse::<IpAddr>().is_ok()`, for a text without a colon: only an IPv4 address can be one.
unfoldable pub is_ip_addr : Text → Bool
unfolding split parse_digits
is_ip_addr value = are_octets (split 46 value)

abbrev pub last : Text → Option ℕ
last [] = none
last (b ∷ []) = some b
last (b ∷ c ∷ s) = last (c ∷ s)
