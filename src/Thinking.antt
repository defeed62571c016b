-- ===== src/Thinking.antt =====
-- infrastructure/parsers/thinkingTagParser.ts: the streaming parser that splits model output into
-- text and thinking segments. The `while` loop of `drain` is a recursion on fuel, for which
-- Thinking/Drain accounts.
mod Search
mod Reference
mod Scan
mod Drain
pub mod Stream
pub mod Examples
use halengine.Prelude.{
  ℕ, zero, suc, ◌+◌, ◌-◌, min, Text, text, text_eq, has_prefix, Bool, true, false, not, Option,
  none, some, List, [], ◌∷◌, ◌++◌, length, take, drop, if◌then◌else◌, ltb, ◌==◌,
}
use mathlib.Core.Option

pub data SegmentType : Type 0 where
  text_segment thinking_segment : SegmentType

pub record ParsedSegment : Type 0 where
  pub type : SegmentType
  pub content : Text

abbrev pub open_tag : Text
open_tag = text "<thinking>"

abbrev pub close_tag : Text
close_tag = text "</thinking>"

pub record ThinkingTagParser : Type 0 where
  pub buffer : Text
  pub inside_thinking : Bool

abbrev pub new_parser : ThinkingTagParser
new_parser = record { buffer = []; inside_thinking = false }

-- The tag that ends the current mode, and the type of what is emitted in it.
abbrev pub tag_of : Bool → Text
tag_of inside = if inside then close_tag else open_tag

abbrev pub type_of : Bool → SegmentType
type_of inside = if inside then thinking_segment else text_segment

-- s.indexOf(tag), with `none` for -1; the tag is never empty here.
unfoldable pub index_of : Text → Text → Option ℕ
index_of tag [] = none
index_of tag (c ∷ s) = if has_prefix tag (c ∷ s) then some 0 else Option.map suc (index_of tag s)

-- s.endsWith(p)
unfoldable pub ends_with : Text → Text → Bool
ends_with s p = text_eq (drop (length s - length p) s) p

-- The loop of partialMatchLength, from `len` down to 1.
unfoldable pub partial_from : Text → Text → ℕ → ℕ
partial_from buffer tag zero = 0
partial_from buffer tag (suc len) =
    if ends_with buffer (take (suc len) tag) then suc len else partial_from buffer tag len

unfoldable pub partial_match_length : Text → Text → ℕ
partial_match_length buffer tag = partial_from buffer tag (min (length buffer) (length tag - 1))

unfoldable pub emit : List ParsedSegment → SegmentType → Text → List ParsedSegment
emit segments type content =
    if ltb 0 (length content)
    then segments ++ record { type = type; content = content } ∷ []
    else segments

-- One round of the loop: what it emits, what it leaves, and whether it goes on (`continue`).
pub record Round : Type 0 where
  pub segments : List ParsedSegment
  pub parser : ThinkingTagParser
  pub more : Bool

unfoldable pub found_tag : ThinkingTagParser → List ParsedSegment → ℕ → Round
found_tag p segments at = record {
  segments = emit segments (type_of p.inside_thinking) (take at p.buffer);
  parser = record {
    buffer = drop (at + length (tag_of p.inside_thinking)) p.buffer;
    inside_thinking = not p.inside_thinking;
  };
  more = true;
}

unfoldable pub hold_tail : ThinkingTagParser → List ParsedSegment → ℕ → Round
hold_tail p segments partial_len =
    if partial_len == 0
    then record {
      segments = emit segments (type_of p.inside_thinking) p.buffer;
      parser = record p { buffer = [] };
      more = true;
    }
    else let held = length p.buffer - partial_len in
      record {
        segments = emit segments (type_of p.inside_thinking) (take held p.buffer);
        parser = record p { buffer = drop held p.buffer };
        more = false;
      }

unfoldable pub drain_round : ThinkingTagParser → List ParsedSegment → Round
drain_round p segments = elim (index_of (tag_of p.inside_thinking) p.buffer) [
  | some at ↦ found_tag p segments at
  | none ↦ hold_tail p segments (partial_match_length p.buffer (tag_of p.inside_thinking))
]

unfoldable pub drain_loop :
    ℕ → ThinkingTagParser → List ParsedSegment → List ParsedSegment × ThinkingTagParser
drain_loop zero p segments = (segments, p)
drain_loop (suc fuel) p segments =
    let r = drain_round p segments in
    let rest = drain_loop fuel r.parser r.segments in
    if ltb 0 (length p.buffer)
    then (if r.more then rest else (r.segments, r.parser))
    else (segments, p)

unfoldable pub drain : ThinkingTagParser → List ParsedSegment × ThinkingTagParser
drain p = drain_loop (suc (length p.buffer)) p []

unfoldable pub push : ThinkingTagParser → Text → List ParsedSegment × ThinkingTagParser
push p chunk = drain (record p { buffer = p.buffer ++ chunk })

unfoldable pub flush : ThinkingTagParser → List ParsedSegment × ThinkingTagParser
flush p =
    if ltb 0 (length p.buffer)
    then (
      record { type = type_of p.inside_thinking; content = p.buffer } ∷ [],
      record p { buffer = [] },
    )
    else ([], p)
