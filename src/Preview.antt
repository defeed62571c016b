-- ===== src/Preview.antt =====
-- infrastructure/stores/sessionPreview.ts: a conversation's opening question as a list label.
pub mod Cut
pub mod Tidy
pub mod Label
pub mod Examples
use halengine.Prelude.{
  ℕ, ◌*◌, Text, Bool, true, false, ◌&&◌, ◌||◌, Option, none, some, List, [], ◌∷◌, ◌++◌, take,
  length, if◌then◌else◌, leb, ◌==◌, Json, str,
}
use halengine.Session.{SessionEntry, user}
use halengine.Frames.{is_white, trim}

abbrev pub max_code_points : ℕ
max_code_points = 120

abbrev pub is_high : ℕ → Bool
is_high u = leb 0xD800 u && leb u 0xDBFF

abbrev pub is_low : ℕ → Bool
is_low u = leb 0xDC00 u && leb u 0xDFFF

unfoldable pub starts_low : Text → Bool
starts_low [] = false
starts_low (u ∷ s) = is_low u

unfoldable pub glue : ℕ → List Text → List Text
glue u [] = (u ∷ []) ∷ []
glue u (p ∷ ps) = (u ∷ p) ∷ ps

-- [...text]: a surrogate pair is one code point.
unfoldable pub points : Text → List Text
unfolding starts_low glue
points [] = []
points (u ∷ s) =
    let rest = points s in if is_high u && starts_low s then glue u rest else (u ∷ []) ∷ rest

-- points.join('')
unfoldable pub join : List Text → Text
join [] = []
join (p ∷ ps) = p ++ join ps

-- A space before what follows, unless it begins with the space of a longer run.
unfoldable pub spaced : Text → Text
spaced [] = 32 ∷ []
spaced (v ∷ s) = if v == 32 then v ∷ s else 32 ∷ v ∷ s

-- text.replace(/\s+/gu, ' ')
unfoldable pub collapse : Text → Text
unfolding spaced
collapse [] = []
collapse (u ∷ s) = let rest = collapse s in if is_white u then spaced rest else u ∷ rest

-- [\s\u200D]
unfoldable pub is_break : ℕ → Bool
is_break u = is_white u || u == 0x200D

unfoldable pub stripped_before : ℕ → Text → Text
unfolding is_break
stripped_before u [] = if is_break u then [] else u ∷ []
stripped_before u (v ∷ s) = u ∷ v ∷ s

-- label.replace(TRAILING_BREAK, '')
unfoldable pub strip_end : Text → Text
unfolding stripped_before
strip_end [] = []
strip_end (u ∷ s) = stripped_before u (strip_end s)

unfoldable pub non_empty : Text → Option Text
non_empty [] = none
non_empty (u ∷ s) = some (u ∷ s)

unfoldable pub label_of : Text → Option Text
unfolding points join strip_end non_empty
label_of collapsed =
    let bounded = take (2 * max_code_points) collapsed in
    let label = join (take max_code_points (points bounded)) in
    if leb (length (points bounded)) max_code_points && length bounded == length collapsed
    then non_empty label
    else non_empty (strip_end label)

unfoldable pub label_from : Json → Option Text
unfolding collapse trim label_of
label_from (str text) = label_of (trim (collapse text))
label_from _ = none

unfoldable pub preview_of : Option SessionEntry → Option Text
unfolding label_from
preview_of (some (user e)) = label_from (str e.content)
preview_of _ = none
