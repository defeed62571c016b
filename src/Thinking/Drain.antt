-- ===== src/Thinking/Drain.antt =====
-- The loop of `drain` against the reference scan: its rounds, its fuel and what it leaves in the
-- buffer.
use halengine.Prelude.{
  ℕ, zero, suc, ◌+◌, ◌-◌, ◌≤◌, ◌<◌, min, Text, has_prefix, Bool, true, false, ◌≡◌, refl, sym, ap,
  ◌∙◌, ◌≢◌, some, inl, inr, List, [], ◌∷◌, ◌++◌, append-nil, append_assoc, length, length-drop,
  take_all, drop, drop_all, length-drop, min, arith, Option-cases, lt→ltb, ◌==◌,
}
use halengine.Thinking.{
  SegmentType, ParsedSegment, ThinkingTagParser, tag_of, emit, index_of, found_tag, hold_tail,
  drain_round, drain_loop, partial_match_length,
}
use halengine.Thinking.Search.{index_of-some, partial_from-le}
use halengine.Thinking.Reference.{label, labels, scan}
use halengine.Thinking.Scan.{scan-found, scan-plain, no_tag_before_held}

pub labels-append : (xs ys : List ParsedSegment) → labels (xs ++ ys) ≡ labels xs ++ labels ys
labels-append [] ys = refl
labels-append (x ∷ xs) ys = rw (labels-append xs ys) (simp append_assoc)

emit-labels :
    (segments : List ParsedSegment) (t : SegmentType) (s : Text)
    → labels (emit segments t s) ≡ labels segments ++ label t s
unfolding emit
emit-labels segments t [] = sym (append-nil _)
emit-labels segments t (c ∷ s) =
    rw (lt→ltb 0 (suc (length s)) (omega arith), labels-append, append-nil)

-- What the parser has emitted, with what the scan still reads from its buffer and from `rest`.
abbrev pub outlook : List ParsedSegment → ThinkingTagParser → Text → List (SegmentType × ℕ)
outlook segments p rest = labels segments ++ scan p.inside_thinking (p.buffer ++ rest)

tag_of-ne : (m : Bool) → tag_of m ≢ []
tag_of-ne true e = cc
tag_of-ne false e = cc

found_tag-outlook :
    (p : ThinkingTagParser) (segments : List ParsedSegment) (rest : Text) (at : ℕ)
    → index_of (tag_of p.inside_thinking) p.buffer ≡ some at
    → let r = found_tag p segments at in outlook r.segments r.parser rest ≡ outlook segments p rest
unfolding found_tag
found_tag-outlook p segments rest at e =
    rw (emit-labels, append_assoc)
      (ap (◌++◌ (labels segments)) (sym (scan-found p.inside_thinking p.buffer rest at e)))

suc-eq-zero : (n : ℕ) → (suc n == 0) ≡ false
suc-eq-zero n = ground arith

hold_tail-outlook :
    (p : ThinkingTagParser) (segments : List ParsedSegment) (rest : Text) (n : ℕ)
    → ((i : ℕ)
        → i < length p.buffer - n
        → has_prefix (tag_of p.inside_thinking) (drop i p.buffer ++ rest) ≡ false)
    → let r = hold_tail p segments n in outlook r.segments r.parser rest ≡ outlook segments p rest
unfolding hold_tail
hold_tail-outlook p segments rest zero clear =
    rw (emit-labels, append_assoc)
      (ap (◌++◌ (labels segments)) (
        sym (
          scan-plain m (length p.buffer) p.buffer rest (omega arith) (λ i h. clear i (omega arith))
          ∙ rw (
            take_all (length p.buffer) p.buffer (omega arith),
            drop_all (length p.buffer) p.buffer (omega arith),
          ))))
  where
    open p use {inside_thinking as m}
hold_tail-outlook p segments rest (suc n) clear =
    rw (suc-eq-zero n, hold_tail, emit-labels, append_assoc)
      (ap (◌++◌ (labels segments)) (
        sym (
          scan-plain p.inside_thinking (length p.buffer - suc n) p.buffer rest (omega arith)
            clear)))

drain_round-outlook :
    (p : ThinkingTagParser) (segments : List ParsedSegment) (rest : Text)
    → let r = drain_round p segments in outlook r.segments r.parser rest ≡ outlook segments p rest
unfolding drain_round
drain_round-outlook p segments rest =
    elim (Option-cases (index_of (tag_of p.inside_thinking) p.buffer)) [
      | inl e ↦
          rw (e, drain_round)
            (hold_tail-outlook p segments rest
              (partial_match_length p.buffer (tag_of p.inside_thinking))
              (λ i h.
                no_tag_before_held (tag_of p.inside_thinking) p.buffer rest i (tag_of-ne _) e h))
      | inr (at, e) ↦ rw (e, drain_round) (found_tag-outlook p segments rest at e)
    ]

-- Whatever the fuel, the loop keeps the outlook.
pub drain_loop-outlook :
    (fuel : ℕ) (p : ThinkingTagParser) (segments : List ParsedSegment) (rest : Text)
    → let (out, q) = drain_loop fuel p segments in outlook out q rest ≡ outlook segments p rest
unfolding drain_loop
drain_loop-outlook zero p segments rest = refl
drain_loop-outlook (suc fuel) p segments rest =
    let r = drain_round p segments in
    let one = drain_round-outlook p segments rest in
    let later = drain_loop-outlook fuel r.parser r.segments rest in ground (arith, one, later ∙ one)

-- What may stay in the buffer when the loop has ended: less than the tag that is waited for.
abbrev pub IsHeld : ThinkingTagParser → Type 0
IsHeld p = length p.buffer < length (tag_of p.inside_thinking)

tag_of-pos : (m : Bool) → 0 < length (tag_of m)
tag_of-pos true = omega arith
tag_of-pos false = omega arith

round_shrinks :
    (p : ThinkingTagParser) (segments : List ParsedSegment)
    → 0 < length p.buffer
    → (drain_round p segments).more ≡ true
    → length (drain_round p segments).parser.buffer < length p.buffer
unfolding drain_round found_tag hold_tail
round_shrinks p segments h e = elim (Option-cases (index_of (tag_of p.inside_thinking) p.buffer)) [
  | inl f ↦ ground (arith, f)
  | inr (at, f) ↦
      let size : length (drop (at + length (tag_of p.inside_thinking)) p.buffer)
          ≡ length p.buffer - (at + length (tag_of p.inside_thinking)) =
        length-drop _ p.buffer in
      let fits : at + length (tag_of p.inside_thinking) ≤ length p.buffer =
        index_of-some (tag_of p.inside_thinking) p.buffer at f in
      rw (f, drain_round) (omega (arith, tag_of-pos p.inside_thinking))
]

hold_tail_short :
    (p : ThinkingTagParser) (segments : List ParsedSegment) (n : ℕ)
    → n ≤ min (length p.buffer) (length (tag_of p.inside_thinking) - 1)
    → (hold_tail p segments n).more ≡ false
    → IsHeld (hold_tail p segments n).parser
unfolding hold_tail
hold_tail_short p segments zero l e = cc
hold_tail_short p segments (suc n) l e =
    rw (suc-eq-zero n, hold_tail)
      (omega (arith, length-drop (length p.buffer - suc n) p.buffer, tag_of-pos p.inside_thinking))

IsHeld-short :
    (p : ThinkingTagParser) (segments : List ParsedSegment)
    → (drain_round p segments).more ≡ false
    → IsHeld (drain_round p segments).parser
unfolding drain_round
IsHeld-short p segments e = elim (Option-cases (index_of (tag_of p.inside_thinking) p.buffer)) [
  | inl f ↦
      let tag = tag_of p.inside_thinking in
      rw (f, drain_round)
        (hold_tail_short p segments (partial_match_length p.buffer tag)
          (unfold partial_match_length in
            partial_from-le p.buffer tag (min (length p.buffer) (length tag - 1)))
          (rw (f, drain_round) at e))
  | inr (at, f) ↦ let e' = rw (f, drain_round) at e in unfold found_tag in cc
]

-- With more fuel than the buffer is long the loop ends by itself, and holds back less than a tag.
pub drain_loop-IsHeld :
    (fuel : ℕ) (p : ThinkingTagParser) (segments : List ParsedSegment)
    → length p.buffer < fuel
    → IsHeld (drain_loop fuel p segments).1
unfolding drain_loop
drain_loop-IsHeld zero p segments h = absurd (omega arith)
drain_loop-IsHeld (suc fuel) p segments h =
    let r = drain_round p segments in
    ground (
      arith,
      round_shrinks p segments,
      IsHeld-short p segments,
      tag_of-pos p.inside_thinking,
      drain_loop-IsHeld fuel r.parser r.segments,
    )
