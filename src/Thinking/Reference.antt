-- ===== src/Thinking/Reference.antt =====
-- What the parser means: a scan of the whole text, one code unit at a time, that drops each tag
-- which ends the current mode and labels every other unit with the mode that it stands in.
use halengine.Prelude.{
  ℕ, zero, suc, ◌-◌, Text, has_prefix, Bool, true, false, not, List, [], ◌∷◌, ◌++◌, map, length,
}
use halengine.Thinking.{SegmentType, ParsedSegment, tag_of, type_of}

abbrev pub Label : Type 0
Label = SegmentType × ℕ

abbrev pub label : SegmentType → Text → List Label
label t s = map (λ c. (t, c)) s

-- The labelled units of a list of segments.
abbrev pub labels : List ParsedSegment → List Label
labels [] = []
labels (s ∷ segments) = label s.type s.content ++ labels segments

-- `skip` counts the units left of a tag that has been recognised.
unfoldable pub scan_from : Bool → ℕ → Text → List Label
scan_from inside skip [] = []
scan_from inside (suc skip) (c ∷ s) = scan_from inside skip s
scan_from inside zero (c ∷ s) = elim (has_prefix (tag_of inside) (c ∷ s)) [
  | true ↦ scan_from (not inside) (length (tag_of inside) - 1) s
  | false ↦ (type_of inside, c) ∷ scan_from inside zero s
]

unfoldable pub scan : Bool → Text → List Label
scan inside s = scan_from inside zero s
