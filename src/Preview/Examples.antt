-- ===== src/Preview/Examples.antt =====
-- Tests of infrastructure/stores/sessionPreview.ts and the witness of its theorem.
use halengine.Prelude.{◌≤◌, ◌≡◌, refl, text, false, none, some, [], ◌∷◌, length, str}
use halengine.Entries.{create_assistant_entry}
use halengine.Frames.{is_white, trim, trim_start, trim_end, kept_before}
use halengine.Preview.{
  starts_low, glue, points, join, spaced, collapse, is_break, stripped_before, strip_end, non_empty,
  label_of, label_from, preview_of,
}
use halengine.Preview.Tidy.{leads_white, ends_white}
use halengine.Preview.Label.{label_from_fixed}

spoken_label : label_from (str (text "  where   is it? ")) ≡ some (text "where is it?")
unfolding label_from label_of collapse spaced trim trim_start trim_end kept_before is_white points
    glue starts_low join strip_end stripped_before is_break non_empty
spoken_label = refl

-- A surrogate pair is one code point, and a lone surrogate is one too.
points_lem :
    points (0xD83D ∷ 0xDE00 ∷ 0x41 ∷ 0xD83D ∷ [])
    ≡ (0xD83D ∷ 0xDE00 ∷ []) ∷ (0x41 ∷ []) ∷ (0xD83D ∷ []) ∷ []
unfolding points glue starts_low
points_lem = refl

-- Only the user's own words are ever a preview.
preview_of_lem :
    (preview_of none ≡ none) × (preview_of (some (create_assistant_entry (text "t1") none)) ≡ none)
unfolding preview_of create_assistant_entry
preview_of_lem = (refl, refl)

label_from_fixed_example :
    (label_from (str (text "where is it?")) ≡ some (text "where is it?"))
    × (1 ≤ length (points (text "where is it?")))
    × (length (points (text "where is it?")) ≤ 120)
    × (leads_white (text "where is it?") ≡ false)
    × (ends_white (text "where is it?") ≡ false)
label_from_fixed_example =
    label_from_fixed (str (text "  where   is it? ")) (text "where is it?") spoken_label
