-- ===== src/Thinking/Examples.antt =====
-- Tests and examples of the thinking-tag parser.
use halengine.Prelude.{text, ◌≡◌, refl, false, List, [], ◌∷◌, Text, All}
use halengine.Thinking.{
  SegmentType, ParsedSegment, thinking_segment, text_segment, new_parser, push, flush, drain,
  drain_loop, drain_round, found_tag, hold_tail, emit, index_of, ends_with, partial_match_length,
  partial_from,
}
use halengine.Thinking.Reference.{labels, scan}
use halengine.Thinking.Drain.{IsHeld}
use halengine.Thinking.Stream.{run_chunks, run_chunks-scan, run_chunks_cut, IsNonEmpty, push_output}

runs : Unit {0}
unfolding run_chunks push flush drain drain_loop drain_round found_tag hold_tail emit index_of
    ends_with partial_match_length partial_from
runs = tt

abbrev segment : SegmentType → Text → ParsedSegment
segment t s = record { type = t; content = s }

abbrev chunks : List Text
chunks = text "ab<thin" ∷ text "king>c</thinking" ∷ text ">d<" ∷ []

abbrev other_chunks : List Text
other_chunks = text "ab<thinking>" ∷ text "c</thinking>d<" ∷ []

run_chunks_test :
    (run_chunks new_parser chunks).0
    ≡ segment text_segment (text "ab")
      ∷ segment thinking_segment (text "c")
      ∷ segment text_segment (text "d")
      ∷ segment text_segment (text "<")
      ∷ []
unfolding runs
run_chunks_test = refl

run_chunks-scan_example :
    labels (run_chunks new_parser chunks).0 ≡ scan false (text "ab<thinking>c</thinking>d<")
run_chunks-scan_example = run_chunks-scan chunks

run_chunks_cut_test :
    labels (run_chunks new_parser chunks).0 ≡ labels (run_chunks new_parser other_chunks).0
run_chunks_cut_test = run_chunks_cut chunks other_chunks refl

push_output_example :
    All IsNonEmpty (push new_parser (text "a<th")).0 × IsHeld (push new_parser (text "a<th")).1
push_output_example = push_output new_parser (text "a<th")
