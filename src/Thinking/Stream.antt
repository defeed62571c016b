-- ===== src/Thinking/Stream.antt =====
-- A whole stream: the chunks of a turn pushed one after another and the parser flushed at the end,
-- as the message handler does.
use halengine.Prelude.{
  ℕ, zero, suc, ◌<◌, Text, has_prefix, Bool, false, ◌≡◌, refl, sym, ap, ◌∙◌, List, [], ◌∷◌, ◌++◌,
  append-nil, append_assoc, All, All-append, length, take_all, drop_all, drop, arith, true,
  Bool-cases, Option-cases, inl, inr, ltb, lt→ltb, ltb→lt, ◌==◌, if◌then◌else◌,
}
use halengine.Thinking.{
  SegmentType, ParsedSegment, ThinkingTagParser, new_parser, tag_of, type_of, emit, found_tag,
  hold_tail, index_of, drain_round, drain_loop, drain, push, flush,
}
use halengine.Thinking.Search.{has_prefix-length}
use halengine.Thinking.Reference.{label, labels, scan_from, scan}
use halengine.Thinking.Scan.{scan-plain}
use halengine.Thinking.Drain.{labels-append, outlook, IsHeld, drain_loop-outlook, drain_loop-IsHeld}

-- The chunks in turn, then the flush; the segments in the order in which they are emitted.
unfoldable pub run_chunks : ThinkingTagParser → List Text → List ParsedSegment × ThinkingTagParser
run_chunks p [] = flush p
run_chunks p (chunk ∷ chunks) =
    let (out, q) = push p chunk in let (rest, r) = run_chunks q chunks in (out ++ rest, r)

pub push-outlook :
    (p : ThinkingTagParser) (chunk rest : Text)
    → let (out, q) = push p chunk in
      outlook out q rest ≡ scan p.inside_thinking (p.buffer ++ (chunk ++ rest))
unfolding push drain
push-outlook p chunk rest =
    drain_loop-outlook _ (record p { buffer = p.buffer ++ chunk }) [] rest
    ∙ ap (scan p.inside_thinking) (append_assoc p.buffer chunk rest)

-- Between two chunks the parser holds back less than the tag that it waits for.
pub push-IsHeld : (p : ThinkingTagParser) (chunk : Text) → IsHeld (push p chunk).1
unfolding push drain
push-IsHeld p chunk = drain_loop-IsHeld _ (record p { buffer = p.buffer ++ chunk }) [] (omega arith)

held-has_prefix : (p s : Text) → length s < length p → has_prefix p s ≡ false
held-has_prefix p s h = elim (Bool-cases (has_prefix p s)) [
  | inl e ↦ absurd (omega (arith, has_prefix-length p s e))
  | inr e ↦ e
]

length-drop-le : (i : ℕ) (s : Text) → length (drop i s) < suc (length s)
length-drop-le zero s = omega arith
length-drop-le (suc i) [] = omega arith
length-drop-le (suc i) (c ∷ s) = omega (arith, length-drop-le i s)

-- A text shorter than the tag is all of one mode.
scan-held : (m : Bool) (s : Text) → length s < length (tag_of m) → scan m s ≡ label (type_of m) s
scan-held m s h =
    ap (scan m) (sym (append-nil s))
    ∙ scan-plain m (length s) s [] (omega arith) (λ i l.
      rw append-nil (held-has_prefix (tag_of m) (drop i s) (omega (arith, length-drop-le i s))))
    ∙ rw (take_all (length s) s (omega arith), drop_all (length s) s (omega arith))
        (unfold scan scan_from in append-nil _)

flush_at :
    (m : Bool) (s : Text)
    → labels (flush (record { buffer = s; inside_thinking = m })).0 ≡ label (type_of m) s
unfolding flush
flush_at m [] = refl
flush_at m (c ∷ s) = rw (lt→ltb 0 (suc (length s)) (omega arith), flush) (append-nil _)

flush-labels :
    (p : ThinkingTagParser) → labels (flush p).0 ≡ label (type_of p.inside_thinking) p.buffer
flush-labels p = flush_at p.inside_thinking p.buffer

-- The text that the chunks carry together.
abbrev pub joined : List Text → Text
joined [] = []
joined (chunk ∷ chunks) = chunk ++ joined chunks

run_chunks-outlook :
    (p : ThinkingTagParser) (chunks : List Text)
    → IsHeld p
    → labels (run_chunks p chunks).0 ≡ scan p.inside_thinking (p.buffer ++ joined chunks)
unfolding run_chunks
run_chunks-outlook p [] h =
    flush-labels p
    ∙ sym (scan-held p.inside_thinking p.buffer h)
    ∙ ap (scan p.inside_thinking) (sym (append-nil p.buffer))
run_chunks-outlook p (chunk ∷ chunks) h =
    let (out, q) = push p chunk in
    labels-append out (run_chunks q chunks).0
    ∙ ap (◌++◌ (labels out)) (run_chunks-outlook q chunks (push-IsHeld p chunk))
    ∙ push-outlook p chunk (joined chunks)

-- However the model's output is cut into chunks, the segments of a whole stream are what one scan of
-- the uncut text gives: each code unit outside the tags once, in order, under the mode it stands in.
pub run_chunks-scan :
    (chunks : List Text) → labels (run_chunks new_parser chunks).0 ≡ scan false (joined chunks)
run_chunks-scan chunks = run_chunks-outlook new_parser chunks (omega arith)

-- Two streams that carry the same text, cut differently, are shown alike.
pub run_chunks_cut :
    (chunks others : List Text)
    → joined chunks ≡ joined others
    → labels (run_chunks new_parser chunks).0 ≡ labels (run_chunks new_parser others).0
run_chunks_cut chunks others e =
    run_chunks-scan chunks ∙ ap (scan false) e ∙ sym (run_chunks-scan others)

abbrev pub IsNonEmpty : ParsedSegment → Type 0
IsNonEmpty s = 0 < length s.content

emit-IsNonEmpty :
    (segments : List ParsedSegment) (t : SegmentType) (s : Text)
    → All IsNonEmpty segments
    → All IsNonEmpty (emit segments t s)
unfolding emit
emit-IsNonEmpty segments t s h = elim (Bool-cases (ltb 0 (length s))) [
  | inl e ↦ rw e (All-append IsNonEmpty segments _ h (ltb→lt 0 (length s) e, tt))
  | inr e ↦ rw e h
]

hold_tail-IsNonEmpty :
    (p : ThinkingTagParser) (segments : List ParsedSegment) (n : ℕ)
    → All IsNonEmpty segments
    → All IsNonEmpty (hold_tail p segments n).segments
unfolding hold_tail
hold_tail-IsNonEmpty p segments n h = elim (Bool-cases (n == 0)) [
  | inl e ↦ rw (e, hold_tail) (emit-IsNonEmpty segments _ p.buffer h)
  | inr e ↦ rw (e, hold_tail) (emit-IsNonEmpty segments _ _ h)
]

drain_round-IsNonEmpty :
    (p : ThinkingTagParser) (segments : List ParsedSegment)
    → All IsNonEmpty segments
    → All IsNonEmpty (drain_round p segments).segments
unfolding drain_round
drain_round-IsNonEmpty p segments h =
    elim (Option-cases (index_of (tag_of p.inside_thinking) p.buffer)) [
      | inl e ↦ rw (e, drain_round) (hold_tail-IsNonEmpty p segments _ h)
      | inr (at, e) ↦ rw (e, drain_round) (unfold found_tag in emit-IsNonEmpty segments _ _ h)
    ]

drain_loop-IsNonEmpty :
    (fuel : ℕ) (p : ThinkingTagParser) (segments : List ParsedSegment)
    → All IsNonEmpty segments
    → All IsNonEmpty (drain_loop fuel p segments).0
unfolding drain_loop
drain_loop-IsNonEmpty zero p segments h = h
drain_loop-IsNonEmpty (suc fuel) p segments h =
    let r = drain_round p segments in
    let one = drain_round-IsNonEmpty p segments h in
    let rest = drain_loop-IsNonEmpty fuel r.parser r.segments one in
    if_all (ltb 0 (length p.buffer)) r.more (r.segments, r.parser)
      (drain_loop fuel r.parser r.segments) (segments, p) one rest h
  where
    if_all :
        (b m : Bool) (x y z : List ParsedSegment × ThinkingTagParser)
        → All IsNonEmpty x.0
        → All IsNonEmpty y.0
        → All IsNonEmpty z.0
        → All IsNonEmpty (if b then (if m then y else x) else z).0
    if_all true true x y z hx hy hz = hy
    if_all true false x y z hx hy hz = hx
    if_all false m x y z hx hy hz = hz

-- No chunk ever yields an empty segment, and what is held back for the next chunk is shorter than the
-- tag that is waited for.
pub push_output :
    (p : ThinkingTagParser) (chunk : Text)
    → All IsNonEmpty (push p chunk).0 × IsHeld (push p chunk).1
unfolding push drain
push_output p chunk = (
  drain_loop-IsNonEmpty _ (record p { buffer = p.buffer ++ chunk }) [] tt,
  drain_loop-IsHeld _ (record p { buffer = p.buffer ++ chunk }) [] (omega arith),
)
