-- ===== src/Encoder/Rates.antt =====
-- The sizes and rates that a child encoder computes with `f64` (worker/src/encoder.rs).
use streaming_video_app.Prelude.{
  ℕ, suc, ◌-◌, ◌%◌, max, Text, codes, Bool, Option, none, some, List, [], ◌∷◌, if◌then◌else◌,
  get_elem?,
}
use streaming_video_app.Notification.Decode.{split, strip_prefix}
use streaming_video_app.Hls.Lines.{lines}

-- `f64`: the conversion of a number, its arithmetic, the whole part as a `u32`, the reading of a
-- text, the test that it is finite and positive, and the rate in bits for each second, rounded up.
pub record Floats : Type 1 where
  pub Float : Type 0
  pub from_u32 : ℕ → Float
  pub divide : Float → Float → Float
  pub multiply : Float → Float → Float
  pub least : Float → Float → Float
  pub floor_u32 : Float → ℕ
  pub parse_f64 : Text → Option Float
  pub is_positive : Float → Bool
  pub rate : ℕ → Float → ℕ
  pub from_utf8_lossy : Text → Text

module _ (floats : Floats) where
  open floats use {
    Float, from_u32, divide, multiply, least, floor_u32, parse_f64, is_positive, rate,
    from_utf8_lossy,
  }

  -- `(x as u32 & !1).max(2)`
  abbrev pub even_part : ℕ → ℕ
  even_part n = max (n - n % 2) 2

  abbrev pub scale : ℕ → ℕ → ℕ → ℕ → Float
  scale source_width source_height max_width max_height =
      least
        (least (divide (from_u32 max_width) (from_u32 source_width))
          (divide (from_u32 max_height) (from_u32 source_height)))
        (from_u32 1)

  unfoldable pub scaled_dimensions : ℕ → ℕ → ℕ × ℕ → ℕ × ℕ
  scaled_dimensions source_width source_height (max_width, max_height) = (
    even_part (
        floor_u32 (
          multiply (from_u32 source_width)
            (scale source_width source_height max_width max_height))),
    even_part (
        floor_u32 (
          multiply (from_u32 source_height)
            (scale source_width source_height max_width max_height))),
  )

  abbrev pub first_part : List Text → Text → Text
  first_part [] value = value
  first_part (part ∷ parts) value = part

  unfoldable pub duration_in : Option Text → Option Float
  unfolding split
  duration_in none = none
  duration_in (some value) = parse_f64 (first_part (split 44 value) value)

  abbrev pub add_some : Option Float → List Float → List Float
  add_some none durations = durations
  add_some (some seconds) durations = seconds ∷ durations

  -- The durations that can be read, in order.
  unfoldable pub durations_in : List Text → List Float
  unfolding strip_prefix
  durations_in [] = []
  durations_in (line ∷ rest) =
      add_some (duration_in (strip_prefix (codes "#EXTINF:") line)) (durations_in rest)

  abbrev or_six : Option Float → Float
  or_six none = from_u32 6
  or_six (some seconds) = seconds

  abbrev segment_rate : Float → Option ℕ → ℕ
  segment_rate seconds none = 0
  segment_rate seconds (some size) = if is_positive seconds then rate size seconds else 0

  -- The highest rate of the segments from an index on, of those that have one; their sizes are what
  -- the file system tells.
  abbrev pub peak_from : List Float → ℕ → List (Option ℕ) → ℕ
  peak_from durations index [] = 0
  peak_from durations index (size ∷ sizes) =
      max (segment_rate (or_six (get_elem? durations index)) size)
        (peak_from durations (suc index) sizes)

  unfoldable pub peak_bandwidth : Text → List (Option ℕ) → ℕ
  unfolding durations_in lines
  peak_bandwidth playlist sizes =
      max (peak_from (durations_in (lines (from_utf8_lossy playlist))) 0 sizes) 1
