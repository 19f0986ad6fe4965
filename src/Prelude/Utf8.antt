-- ===== src/Prelude/Utf8.antt =====
-- `String::from_utf8`: the byte sequences that are UTF-8, by the ranges of the Unicode standard.
use Prim.Native.Nat.{ℕ}
use mathlib.Core.Bool.{Bool, true, false, ◌&&◌}
use mathlib.Core.List.{List, [], ◌∷◌}
use mathlib.Core.Option.{Option, none, some}
use streaming_video_app.Prelude.Tests.{leb, ◌==◌, if◌then◌else◌}
use streaming_video_app.Prelude.Strings.{Text}

abbrev in_range : ℕ → ℕ → ℕ → Bool
in_range lo hi b = leb lo b && leb b hi

abbrev tail_byte : ℕ × ℕ
tail_byte = (128, 191)

-- The ranges of the bytes that must follow a first byte.
following : ℕ → Option (List (ℕ × ℕ))
following b =
    if leb b 127
    then some []
    else if in_range 194 223 b
    then some (tail_byte ∷ [])
    else if b == 224
    then some ((160, 191) ∷ tail_byte ∷ [])
    else if b == 237
    then some ((128, 159) ∷ tail_byte ∷ [])
    else if in_range 225 239 b
    then some (tail_byte ∷ tail_byte ∷ [])
    else if b == 240
    then some ((144, 191) ∷ tail_byte ∷ tail_byte ∷ [])
    else if in_range 241 243 b
    then some (tail_byte ∷ tail_byte ∷ tail_byte ∷ [])
    else if b == 244
    then some ((128, 143) ∷ tail_byte ∷ tail_byte ∷ [])
    else none

utf8_from : List (ℕ × ℕ) → Text → Bool
utf8_from [] [] = true
utf8_from (r ∷ rs) [] = false
utf8_from (r ∷ rs) (b ∷ s) = in_range r.0 r.1 b && utf8_from rs s
utf8_from [] (b ∷ s) = elim (following b) [ none ↦ false | some rs ↦ utf8_from rs s ]

unfoldable pub is_utf8 : Text → Bool
unfolding utf8_from following
is_utf8 s = utf8_from [] s
